-- ===== src/Call.antt =====
-- Call control (jni/baresip/src/call.c).
pub mod State
pub mod Media
pub mod Alloc
pub mod Control
pub mod Handlers
pub mod Kept
pub mod Steps
pub mod Quiet
pub mod Invariant
pub mod Made
pub mod Growth
pub mod Release
pub mod Answer
