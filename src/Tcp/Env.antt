-- ===== src/Tcp/Env.antt =====
-- What the TCP code uses of the outside world: the C library's heap, and `ip_output_if`, which the
-- program that links the library defines (declared in src/tcp_out.c).
use rudp.Prelude.{ℕ, List, Option}
use rudp.Err.{Err}
use rudp.Pbuf.{Chain}
use rudp.Tcp.Types.{TcpHdr}

-- A packet handed to `ip_output_if`: the header at the payload pointer of `p`, the option behind it
-- and the pbufs.
pub record Packet : Type 0 where
  pub tcphdr : TcpHdr
  pub mss_option : Option ℕ
  pub p : Chain

pub record Env (W : Type 0) : Type 0 where
  pub mem_malloc : W → ℕ → Option (List ℕ) × W
  pub mem_free : W → List ℕ → W
  pub ip_output_if : W → Packet → (remote_ip remote_udp_port : ℕ) → Err × W
