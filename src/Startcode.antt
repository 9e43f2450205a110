-- ===== src/Startcode.antt =====
-- Finding start sequences and cutting a byte stream at them (jni/baresip/modules/avcodec/h264.c,
-- h264_find_startcode and h264_packetize).
pub mod Search
pub mod Digits
pub mod Words
pub mod Least
pub mod Packetize
pub mod Units
