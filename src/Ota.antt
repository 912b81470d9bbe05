-- ===== src/Ota.antt =====
-- src/lib/ota.c: the server that takes a firmware over TCP and writes it to the update partition.
pub mod Platform
pub mod Flash
pub mod Rules
pub mod Hex
pub mod Partition
pub mod Request
pub mod Server
pub mod Launch
pub mod Board
mod Tests
