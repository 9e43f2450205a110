-- ===== src/Registry.antt =====
-- The registries of codecs and devices (jni/baresip/src/aucodec.c, vidcodec.c, ausrc.c, auplay.c
-- and others).
pub mod Search
pub mod Aucodec
pub mod Device
pub mod Driver
