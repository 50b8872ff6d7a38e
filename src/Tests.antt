-- ===== src/Tests.antt =====
-- Runs of the definitions at concrete inputs, and the theorems applied there.
mod Emitter
mod Versioning
mod Key
mod Memory
mod Kept
mod Client
mod Proxy
mod Images
mod Machine
mod Specs
mod Errors
mod Update
mod Deletion
mod Statefiles
mod Includes
mod Daemon
mod Loop
mod Statuses
mod Env
mod Dns
mod Jobs
mod Machines
mod Boot
mod Registry
