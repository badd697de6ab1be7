-- ===== src/Driver.antt =====
-- server/driver_fs.go: the driver that serves a directory of the local file system.
pub mod Path
pub mod Context
pub mod Confined
pub mod Sessions
pub mod Tests
