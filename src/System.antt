-- ===== src/System.antt =====
-- crates/nanocl_stubs/src/system.rs: the statuses of process objects, and events.
pub mod Status
pub mod Action
pub mod Event
