-- ===== src/Tcp/In/Process/Refines.antt =====
-- `tcp_process` of src/tcp_in.c moves along the state diagram of RFC 793.
use rudp.Tcp.App.{App}
use rudp.Tcp.Env.{Env}
