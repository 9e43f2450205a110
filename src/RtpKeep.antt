-- ===== src/RtpKeep.antt =====
-- Keeping the RTP path open (jni/baresip/src/rtpkeep.c).
pub mod Timer
pub mod Periods
