-- ===== src/Client.antt =====
-- The client of this repository, over the bytes that a server sends.
pub mod Reply
pub mod Printed
pub mod Data
pub mod Listing
pub mod Wire
pub mod Commands
pub mod DataConn
pub mod Transfers
pub mod Tree
pub mod Upload
pub mod Served
pub mod Facts
pub mod Tests
