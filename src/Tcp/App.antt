-- ===== src/Tcp/App.antt =====
-- The callbacks of the application (include/lwip/tcp.h), which are parameters. A callback gets the
-- control block, and may call the library for it; the result tells with ABRT that it has aborted
-- the connection. A call of an absent callback gives the result that the macros TCP_EVENT of
-- include/lwip/tcp_impl.h put in its place.
use rudp.Prelude.{ℕ}
use rudp.Pbuf.{Chain}
use rudp.Pbuf.Alloc.{Buffers}
use rudp.Err.{Err}
use rudp.Tcp.Types.{Pcb}

pub record App (W : Type 0) : Type 0 where
  pub accept : Pcb → Err → Buffers W → Err × Pcb × Buffers W
  pub connected : Pcb → Err → Buffers W → Err × Pcb × Buffers W
  pub recv : Pcb → (p : Chain) → Err → Buffers W → Err × Pcb × Buffers W
  pub sent : Pcb → (len : ℕ) → Buffers W → Err × Pcb × Buffers W
  pub poll : Pcb → Buffers W → Err × Pcb × Buffers W
  pub errf : Err → Buffers W → Buffers W
