-- ===== src/H264.antt =====
-- H.264 over RTP (jni/baresip/modules/avcodec/h264.c and h26x.h): the two packet headers.
-- Bit-fields are numbers, a shift is a multiplication or division by a power of two.
pub mod Header
pub mod Send
pub mod Receive
pub mod Laws
pub mod Bits
pub mod Reassembly
pub mod Delivery
pub mod Bounds
