-- ===== src/Play.antt =====
-- The player of tones (jni/baresip/src/play.c).
pub mod Player
pub mod Load
pub mod Left
pub mod Ends
