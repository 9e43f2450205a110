-- ===== src/Video.antt =====
-- Video streams (jni/baresip/src/video.c).
pub mod State
pub mod Encode
pub mod Decode
pub mod Setup
pub mod Control
pub mod Muted
pub mod Due
pub mod Pictures
