-- ===== src/Tcp/Out/Rexmit.antt =====
-- src/tcp_out.c: retransmission, `tcp_rexmit_rto`, `tcp_rexmit` and `tcp_rexmit_fast`, and the
-- probes `tcp_keepalive` and `tcp_zero_window_probe`.
use rudp.Err.{Err, ok, mem}
use rudp.Prelude.{
  Option, false, ℕ, ◌+◌, ◌-◌, ◌*◌, ◌/◌, ◌%◌, Bool, true, ◌&&◌, ◌||◌, List, [], ◌∷◌, ◌++◌, none,
  some, ltb, min, if◌then◌else◌, ◌==◌,
}
use rudp.Pbuf.{Chain, u8_mod, u16_mod, tot_len}
use rudp.Pbuf.Alloc.{Buffers}
use rudp.Pbuf.Release.{release}
use rudp.Pbuf.Read.{copy_partial}
use rudp.Tcp.Seq.{seq_sub, seq_lt}
use rudp.Tcp.Types.{Pcb, Seg, TcpHdr, tcp_hlen}
use rudp.Tcp.Env.{Env, Packet}
use rudp.Tcp.Segs.{insert_seg}
use rudp.Tcp.Out.Make.{write_head, is_empty, output_alloc_header}
use rudp.Tcp.Out.Output.{output}

-- The `oversize_left` of the last segment.
abbrev pub last_oversize : List Seg → ℕ
last_oversize [] = 0
last_oversize (seg ∷ []) = seg.oversize_left
last_oversize (seg ∷ (next ∷ segs)) = last_oversize (next ∷ segs)

-- The part of `tcp_rexmit_rto` before it calls `tcp_output`.
unfoldable pub requeue_unacked : Pcb → Pcb
requeue_unacked pcb = record pcb {
  unsent = pcb.unacked ++ pcb.unsent;
  unsent_oversize = elim pcb.unsent [
    | [] ↦ last_oversize pcb.unacked
    | seg ∷ rest ↦ pcb.unsent_oversize
  ];
  unacked = [];
  nrtx = (pcb.nrtx + 1) % u8_mod;
  rttest = 0;
}

-- Whether all segments have a smaller sequence number than `seg`.
all_before : List Seg → Seg → Bool
unfolding seq_lt
all_before [] seg = true
all_before (cur ∷ segs) seg = seq_lt cur.tcphdr.seqno seg.tcphdr.seqno && all_before segs seg

-- The first unacknowledged segment goes back to its place among the unsent ones. If it is the last
-- one there, nothing is to spare at its end.
unfoldable pub requeue_first : List Seg → Pcb → Pcb
unfolding insert_seg all_before
requeue_first [] pcb = pcb
requeue_first (seg ∷ rest) pcb = record pcb {
  unacked = rest;
  unsent = insert_seg pcb.unsent seg;
  unsent_oversize = if all_before pcb.unsent seg then 0 else pcb.unsent_oversize;
  nrtx = (pcb.nrtx + 1) % u8_mod;
  rttest = 0;
}

-- `tcp_rexmit`.
unfoldable pub rexmit : Pcb → Pcb
unfolding requeue_first
rexmit pcb = requeue_first pcb.unacked pcb

-- Half of the smaller one of the congestion window and the sender's window, but at least two
-- segments. It is kept in a u16_t.
abbrev pub halved_wnd : Pcb → ℕ
halved_wnd pcb =
    let half_wnd = min pcb.cwnd pcb.snd_wnd / 2 in
    if ltb half_wnd (2 * pcb.mss) then 2 * pcb.mss % u16_mod else half_wnd

-- `tcp_rexmit_fast`, after three duplicate acknowledgements.
unfoldable pub rexmit_fast : Pcb → Pcb
unfolding rexmit
rexmit_fast pcb = if is_empty pcb.unacked || pcb.flags.infr then pcb else record (rexmit pcb) {
  ssthresh = halved_wnd pcb;
  cwnd = (halved_wnd pcb + 3 * pcb.mss) % u16_mod;
  flags = record pcb.flags { infr = true };
}

module _ {W : Type 0} (env : Env W) (tcp_ticks : ℕ) where
  -- `tcp_rexmit_rto`.
  unfoldable pub rexmit_rto : (is_input_pcb : Bool) → Pcb → Buffers W → Pcb × Buffers W
  unfolding output requeue_unacked
  rexmit_rto is_input_pcb pcb s =
      let (err, pcb', s') = output env tcp_ticks is_input_pcb (requeue_unacked pcb) s in
      if is_empty pcb.unacked then (pcb, s) else (pcb', s')

  -- The end of both probes: the packet is handed over and its pbuf freed.
  abbrev pub send_probe : Pcb → TcpHdr → Chain → Buffers W → Err × Pcb × Buffers W
  send_probe pcb tcphdr p s =
      let packet : Packet = record { tcphdr = tcphdr; mss_option = none; p = p } in
      let (err, heap) = env.ip_output_if s.heap packet pcb.remote_ip pcb.remote_udp_port in
      (err, pcb, release env.mem_free (record s { heap = heap }) p)

  -- The end of a probe, with its packet if there is memory for it. `is_fin` puts the FIN in its
  -- header.
  unfoldable pub finish_probe :
      Option (TcpHdr × Chain) → (is_fin : Bool) → Pcb → Buffers W → Err × Pcb × Buffers W
  unfolding release
  finish_probe none is_fin pcb s = (mem, pcb, s)
  finish_probe (some (tcphdr, p)) is_fin pcb s =
      send_probe pcb
        (record tcphdr { flags = record tcphdr.flags { fin = tcphdr.flags.fin || is_fin } }) p s

  -- `tcp_keepalive`.
  unfoldable pub keepalive : Pcb → Buffers W → Err × Pcb × Buffers W
  unfolding output_alloc_header finish_probe
  keepalive pcb s =
      let (e, pcb', s') = output_alloc_header env pcb 0 0 (seq_sub pcb.snd_nxt 1) s in
      finish_probe e false pcb' s'

  -- A byte written behind the header, if there is a packet.
  abbrev pub put_data : Option (TcpHdr × Chain) → List ℕ → Option (TcpHdr × Chain)
  put_data none data_bytes = none
  put_data (some (tcphdr, p)) data_bytes = some (tcphdr, write_head p tcp_hlen data_bytes)

  -- The probe for the first segment that is not acknowledged: its FIN, or its first data byte.
  unfoldable pub probe_first : List Seg → Pcb → Buffers W → Err × Pcb × Buffers W
  unfolding output_alloc_header finish_probe copy_partial
  probe_first [] pcb s = (ok, pcb, s)
  probe_first (seg ∷ rest) pcb s =
      let is_fin = seg.tcphdr.flags.fin && seg.len == 0 in
      let len = if is_fin then 0 else 1 in
      let (e, pcb', s') = output_alloc_header env pcb 0 len seg.tcphdr.seqno s in
      let data_byte = copy_partial seg.p 1 ((tot_len seg.p + u16_mod - seg.len) % u16_mod) in
      finish_probe (if is_fin then e else put_data e data_byte) is_fin pcb' s'

  -- `tcp_zero_window_probe`.
  unfoldable pub zero_window_probe : Pcb → Buffers W → Err × Pcb × Buffers W
  unfolding probe_first
  zero_window_probe pcb s = probe_first (pcb.unacked ++ pcb.unsent) pcb s
