-- ===== src/Agent.antt =====
-- User agents and their calls (jni/baresip/src/ua.c).
pub mod State
pub mod Events
pub mod Operations
pub mod Good
pub mod Handled
pub mod Delivered
pub mod Inputs
pub mod Commands
pub mod Steady
pub mod Limit
pub mod Steps
