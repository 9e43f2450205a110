-- ===== src/General.antt =====
-- The packets of a frame of any other codec of libavcodec (jni/baresip/modules/avcodec/avcodec.c,
-- general_packetize).
pub mod Packets
pub mod Frame
