-- ===== src/Uag.antt =====
-- The user agents together: registration, the current one, and the search (jni/baresip/src/ua.c).
pub mod State
pub mod Register
pub mod Registered
pub mod Focus
pub mod Find
pub mod Reset
pub mod Codecs
pub mod Collected
pub mod Params
pub mod Alloc
pub mod Routes
pub mod Requests
pub mod Stack
pub mod Listeners
