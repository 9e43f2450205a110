-- ===== src/Vpx.antt =====
-- VP8 over RTP (jni/baresip/modules/vpx/vpx.c).
pub mod PictureId
pub mod Descriptor
pub mod Packets
pub mod Delivery
