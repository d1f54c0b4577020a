-- ===== src/Examples.antt =====
-- The modules of arale/examples.
pub mod Codec
pub mod Multiplexer
pub mod Demux
pub mod Idle
pub mod Socks
pub mod SortedList
pub mod Chat
pub mod Download
pub mod Relay
pub mod Balancer
