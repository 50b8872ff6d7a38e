-- ===== src/Container.antt =====
-- bin/nanocld/src/utils/container: what the daemon does with the containers of an object.
pub mod Count
pub mod Generic
pub mod Process
pub mod Delete
pub mod Create
pub mod Cargo
pub mod Job
pub mod Machine
pub mod Image
pub mod Secrets
