-- ===== src/Audio.antt =====
-- Audio streams (jni/baresip/src/audio.c).
pub mod State
pub mod Transmit
pub mod Stamps
pub mod Decode
pub mod Payload
pub mod Devices
pub mod Threads
