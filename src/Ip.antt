-- ===== src/Ip.antt =====
-- src/lib/ip.c and src/lib/ip.h: addresses, socket handles, and the calls that send and receive.
pub mod Addr
pub mod Sockets
pub mod Handles
pub mod Stream
pub mod Net
mod Tests
