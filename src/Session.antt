-- ===== src/Session.antt =====
-- server/session*.go: the control session. `State` is its data.
pub mod State
pub mod Text
pub mod File
pub mod Transfer
pub mod Address
pub mod Info
pub mod Site
pub mod Dispatch
pub mod Worker
pub mod Contract
pub mod Run
pub mod Gate
pub mod Ports
pub mod Blank
pub mod Keep
pub mod Tests
