-- ===== src/Tcp/In.antt =====
-- src/tcp_in.c: the processing of incoming segments.
pub mod Arrive
pub mod Rtt
pub mod Ack
pub mod Inseg
pub mod Ooseq
pub mod Receive
pub mod Process
pub mod Input
pub mod Listen
pub mod Demux
mod Tests
