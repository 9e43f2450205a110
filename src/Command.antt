-- ===== src/Command.antt =====
-- The command interface (jni/baresip/src/cmd.c).
pub mod Editor
pub mod Table
pub mod Process
pub mod Typing
