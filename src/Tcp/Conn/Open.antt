-- ===== src/Tcp/Conn/Open.antt =====
-- src/tcp.c: `tcp_bind`, `tcp_listen_with_backlog`, `tcp_connect` and `tcp_new_server_id`.
pub mod ServerId
mod Tests
use rudp.Tcp.Conn.Alloc.{next_iss}
use rudp.Tcp.Conn.{Listener}
use rudp.Tcp.Out.Output.{is_ok, output}
use rudp.Pbuf.Alloc.{Buffers}
use rudp.Tcp.Out.Enqueue.{enqueue_flags}
use rudp.Err.{is_conn, val, ok, Err}
use rudp.Tcp.Seq.{u32_mod, seq_sub}
use rudp.Memp.{tcp_pcb, tcp_pcb_listen, memp_free, memp_malloc}
use rudp.Tcp.Ports.{contains, new_port}
use rudp.Prelude.{
  [], is_none, some, true, zero, not, ◌%◌, ◌+◌, ◌==◌, false, if◌then◌else◌, length, suc, none, ℕ,
  List, Option,
}
use rudp.Tcp.Types.{closed, no_hdr_flags, is_state, syn_sent, tcp_mss, tcp_wnd, Pcb}
use rudp.Tcp.Env.{Env}

-- The rounds of `tcp_new_server_id` from the label `again` on. The second ids of the connections
-- are the list `used`; none if there are more than `k` rounds.
unfoldable pub server_id_loop : (k : ℕ) → (used : List ℕ) → (server_id : ℕ) → Option ℕ
server_id_loop zero used server_id = none
server_id_loop (suc k) used server_id =
    let next = if (server_id + 1) % u32_mod == 0 then 1 else (server_id + 1) % u32_mod in
    let onward = server_id_loop k used next in if contains next used then onward else some next

-- The id is counted on once more before it is returned.
abbrev pub counted_on : Option ℕ → Option ℕ
counted_on none = none
counted_on (some id) = some ((id + 1) % u32_mod)

-- `tcp_new_server_id`. There are no more rounds than there are ids in use, and one.
unfoldable pub new_server_id : (used : List ℕ) → (server_id : ℕ) → Option ℕ
unfolding server_id_loop
new_server_id used server_id = counted_on (server_id_loop (suc (length used)) used server_id)

-- `tcp_bind` to a port, or to a new one if it is 0: the result, the control block, and the new
-- `tcp_port`. After OK it stands on the list of the bound ones.
unfoldable pub bind : (used : List ℕ) → (tcp_port : ℕ) → Pcb → (port : ℕ) → Err × Pcb × ℕ
unfolding new_port
bind used tcp_port pcb port =
    let (found, tcp_port') : ℕ × ℕ =
      if port == 0 then new_port used tcp_port else (port, tcp_port) in
    if not (is_state pcb.state closed)
    then (val, pcb, tcp_port)
    else if found == 0
    then (Err.buf, pcb, tcp_port')
    else (ok, record pcb { local_port = found }, tcp_port')

-- `tcp_listen_with_backlog`: the listening control block, none if the state is not CLOSED or there
-- is no memory. The other one is freed.
unfoldable pub listen_with_backlog : {W : Type 0} → Pcb → Buffers W → Option Listener × Buffers W
unfolding memp_malloc memp_free
listen_with_backlog pcb s =
    let (e, m) = memp_malloc s.memp tcp_pcb_listen in
    if not (is_state pcb.state closed) then (none, s) else if is_none e then (none, s) else (
      some (record { prio = pcb.prio; local_port = pcb.local_port }),
      record s { memp = memp_free m tcp_pcb [] },
    )

-- The control block of `tcp_connect` before the SYN is queued.
unfoldable pub connecting : Pcb → (remote_ip port local_port iss : ℕ) → Pcb
connecting pcb remote_ip port local_port iss = record pcb {
  remote_ip = remote_ip;
  remote_port = port;
  remote_udp_port = port;
  local_port = local_port;
  conn_id = record { connid1 = local_port; connid2 = 0 };
  rcv_nxt = 0;
  snd_nxt = iss;
  lastack = seq_sub iss 1;
  snd_lbb = seq_sub iss 1;
  rcv_wnd = tcp_wnd;
  rcv_ann_wnd = tcp_wnd;
  rcv_ann_right_edge = 0;
  snd_wnd = tcp_wnd;
  mss = tcp_mss;
  cwnd = 1;
  ssthresh = tcp_wnd;
}

module _ {W : Type 0} (env : Env W) (tcp_ticks : ℕ) where
  -- What `tcp_connect` does once the SYN is queued, or not.
  abbrev pub after_syn : Err × Pcb × Buffers W → Err × Pcb × Buffers W
  after_syn (err, pcb, s) =
      let (ignored, pcb1, s1) = output env tcp_ticks false (record pcb { state = syn_sent }) s in
      if is_ok err then (ok, pcb1, s1) else (err, pcb, s)

  -- `tcp_connect` to an address that is not null: the result, the control block, the new `tcp_port`
  -- and the new `iss`. After OK the control block stands on the list of the active ones.
  unfoldable pub connect :
      (used : List ℕ)
      → (tcp_port iss : ℕ) → Pcb
      → (remote_ip port : ℕ) → Buffers W
      → (Err × Pcb × Buffers W) × ℕ × ℕ
  unfolding new_port connecting enqueue_flags output
  connect used tcp_port iss pcb remote_ip port s =
      let (local_port, tcp_port') : ℕ × ℕ =
        if pcb.local_port == 0 then new_port used tcp_port else (pcb.local_port, tcp_port) in
      let iss' = next_iss tcp_ticks iss in
      let no_port = record pcb {
        remote_ip = remote_ip;
        remote_port = port;
        remote_udp_port = port;
        local_port = 0;
      } in
      let syn = record no_hdr_flags { syn = true } in
      let sent =
        after_syn (enqueue_flags env (connecting pcb remote_ip port local_port iss') syn s) in
      if not (is_state pcb.state closed)
      then ((is_conn, pcb, s), tcp_port, iss)
      else if local_port == 0
      then ((Err.buf, no_port, s), tcp_port', iss)
      else (sent, tcp_port', iss')
