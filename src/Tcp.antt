-- ===== src/Tcp.antt =====
-- The TCP code: src/tcp.c, src/tcp_in.c and src/tcp_out.c, with include/lwip/tcp.h and
-- include/lwip/tcp_impl.h.
pub mod Seq
pub mod Types
pub mod RcvWnd
pub mod Options
pub mod Ports
pub mod Env
pub mod Segs
pub mod Out
pub mod In
pub mod Recved
pub mod App
pub mod Conn
pub mod Timers
mod Samples
mod Tests
