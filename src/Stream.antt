-- ===== src/Stream.antt =====
-- Media streams (jni/baresip/src/stream.c).
pub mod Lost
pub mod Tracker
pub mod State
pub mod Receive
pub mod Received
pub mod Send
pub mod Sent
