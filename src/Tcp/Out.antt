-- ===== src/Tcp/Out.antt =====
-- src/tcp_out.c: making segments, queueing control segments and data, output and retransmission.
pub mod Make
pub mod Enqueue
pub mod Output
pub mod Rexmit
pub mod Conserve
pub mod Wire
pub mod Sent
pub mod Order
pub mod Window
pub mod Queue
pub mod Receiver
pub mod Draft
pub mod Write
