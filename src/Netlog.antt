-- ===== src/Netlog.antt =====
-- src/lib/netlog.c: the log server. It keeps a table of subscribed clients, takes requests that change
-- the table, and sends what is printed to every client.
pub mod Table
pub mod Platform
pub mod Rules
pub mod Follows
pub mod Flush
pub mod Control
pub mod Server
pub mod Init
pub mod Recorder
mod Tests
