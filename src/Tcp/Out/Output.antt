-- ===== src/Tcp/Out/Output.antt =====
-- src/tcp_out.c: `tcp_output`, `tcp_output_segment`, `tcp_send_empty_ack` and `tcp_rst`, with the
-- test `tcp_do_output_nagle` of include/lwip/tcp_impl.h.
use rudp.Err.{abrt, Err, ok, buf}
use rudp.Prelude.{
  ℕ, zero, ◌+◌, ◌-◌, ◌%◌, Bool, true, false, not, ◌&&◌, ◌||◌, List, [], ◌∷◌, ◌++◌, Option, none,
  some, ltb, leb, min, if◌then◌else◌, ◌==◌,
}
use rudp.Prelude.Int.{ℤ, pos, negsuc}
use rudp.Pbuf.{Chain, ip, ram, u16_mod}
use rudp.Pbuf.Alloc.{Buffers, alloc}
use rudp.Pbuf.Release.{release}
use rudp.Tcp.Seq.{u32_mod, seq_sub, seq_lt}
use rudp.Tcp.Types.{
  Pcb, Seg, ConnId, TcpHdr, is_state, syn_sent, no_hdr_flags, tcplen, tcp_snd_queuelen, tcp_hlen,
  tcp_mss, tcp_wnd,
}
use rudp.Tcp.Env.{Env, Packet}
use rudp.Tcp.Segs.{seg_free, insert_seg}
use rudp.Tcp.Out.Make.{output_alloc_header, is_empty}
use rudp.Tcp.Out.Enqueue.{set_nagle_mem_err}

abbrev pub is_ok : Err → Bool
is_ok ok = true
is_ok e = false

abbrev pub is_abrt : Err → Bool
is_abrt abrt = true
is_abrt e = false

abbrev pub set_ack_flags : Pcb → Bool → Pcb
set_ack_flags pcb b = record pcb { flags = record pcb.flags { ack_delay = b; ack_now = b } }

-- `tcp_do_output_nagle`.
abbrev pub do_output_nagle : Pcb → Bool
do_output_nagle pcb =
    is_empty pcb.unacked
    || pcb.flags.nodelay
    || pcb.flags.infr
    || (elim pcb.unsent [ [] ↦ false | seg ∷ rest ↦ not (is_empty rest) || leb pcb.mss seg.len ])
    || pcb.snd_buf == 0
    || leb tcp_snd_queuelen pcb.snd_queuelen

-- Whether the window allows a segment to be sent: the number of bytes from the last acknowledged
-- one to the end of the segment, in a u32_t.
abbrev pub fits : Pcb → Seg → Bool
fits pcb seg =
    leb ((seq_sub seg.tcphdr.seqno pcb.lastack + seg.len) % u32_mod) (min pcb.snd_wnd pcb.cwnd)

-- The retransmission timer is started if it does not run.
abbrev start_rtime : ℤ → ℤ
start_rtime (negsuc zero) = pos 0
start_rtime t = t

-- The payload pointer of the first pbuf set to the header.
abbrev pub rewind : Chain → ℕ → Chain
rewind [] hdr_at = []
rewind (p ∷ ps) hdr_at =
    let len = (hdr_at + u16_mod - p.payload) % u16_mod in
    record p {
      payload = hdr_at;
      len = (p.len + u16_mod - len) % u16_mod;
      tot_len = (p.tot_len + u16_mod - len) % u16_mod;
    }
    ∷ ps

-- The segment with the fields that are filled in when it is sent.
abbrev pub fill_in : Seg → Pcb → Seg
fill_in seg pcb = record seg {
  p = rewind seg.p seg.hdr_at;
  tcphdr = record seg.tcphdr { ackno = pcb.rcv_nxt; wnd = pcb.rcv_ann_wnd };
}

abbrev pub after_output : (tcp_ticks : ℕ) → Seg → Pcb → Pcb
after_output tcp_ticks seg pcb = record pcb {
  rcv_ann_right_edge = (pcb.rcv_nxt + pcb.rcv_ann_wnd) % u32_mod;
  rtime = start_rtime pcb.rtime;
  rttest = if pcb.rttest == 0 then tcp_ticks else pcb.rttest;
  rtseq = if pcb.rttest == 0 then seg.tcphdr.seqno else pcb.rtseq;
}

-- The segment as `tcp_output` prepares it: the ACK flag, except in SYN_SENT, and no oversize.
abbrev pub prepare : Pcb → Seg → Seg
prepare pcb seg = record seg {
  oversize_left = 0;
  tcphdr = record seg.tcphdr {
    flags = record seg.tcphdr.flags {
      ack = seg.tcphdr.flags.ack || not (is_state pcb.state syn_sent);
    };
  };
}

-- Whether the sequence number of `seg` is smaller than that of the last segment.
abbrev pub before_last : List Seg → Seg → Bool
before_last [] seg = false
before_last (useg ∷ []) seg = seq_lt seg.tcphdr.seqno useg.tcphdr.seqno
before_last (useg ∷ (next ∷ segs)) seg = before_last (next ∷ segs) seg

-- A sent segment joins the unacknowledged ones.
unfoldable pub add_unacked : List Seg → Seg → List Seg
unfolding insert_seg seq_lt
add_unacked segs seg = if before_last segs seg then insert_seg segs seg else segs ++ (seg ∷ [])

-- The control block once `seg` is sent and `rest` is left to send.
abbrev pub sent : Pcb → Seg → List Seg → Pcb
sent pcb seg rest =
    let end = (seg.tcphdr.seqno + tcplen seg) % u32_mod in
    record pcb {
      unsent = rest;
      flags = record pcb.flags {
        ack_delay = pcb.flags.ack_delay && is_state pcb.state syn_sent;
        ack_now = pcb.flags.ack_now && is_state pcb.state syn_sent;
      };
      snd_nxt = if seq_lt pcb.snd_nxt end then end else pcb.snd_nxt;
      unacked = if ltb 0 (tcplen seg) then add_unacked pcb.unacked seg else pcb.unacked;
    }

-- The end of `tcp_output`.
abbrev pub finish : Pcb → Pcb
finish pcb = record pcb {
  unsent_oversize = if is_empty pcb.unsent then 0 else pcb.unsent_oversize;
  flags = record pcb.flags { nagle_mem_err = false };
}

module _ {W : Type 0} (env : Env W) (tcp_ticks : ℕ) where
  -- `tcp_output_segment`.
  unfoldable pub output_segment : Seg → Pcb → Buffers W → Err × Seg × Pcb × Buffers W
  output_segment seg pcb s =
      let seg' = fill_in seg pcb in
      let packet : Packet = record {
        tcphdr = seg'.tcphdr;
        mss_option = if seg.opt_mss then some tcp_mss else none;
        p = seg'.p;
      } in
      let (err, heap) = env.ip_output_if s.heap packet pcb.remote_ip pcb.remote_udp_port in
      (err, seg', after_output tcp_ticks seg pcb, record s { heap = heap })

  -- The loop of `tcp_output` over the unsent segments, which are those of the control block.
  unfoldable pub output_loop : List Seg → Pcb → Buffers W → Err × Pcb × Buffers W
  unfolding output_segment add_unacked seg_free tcplen seq_lt
  output_loop [] pcb s = (ok, finish pcb, s)
  output_loop (seg ∷ rest) pcb s =
      let (err, seg', pcb', s') = output_segment (prepare pcb seg) pcb s in
      let onward =
        output_loop rest (sent pcb' seg' rest)
          (if ltb 0 (tcplen seg') then s' else seg_free env s' seg') in
      if not (fits pcb seg)
        || not (do_output_nagle pcb) && not (pcb.flags.nagle_mem_err || pcb.flags.fin)
      then (ok, finish pcb, s)
      else if is_ok err
      then onward
      else (err, set_nagle_mem_err (record pcb' { unsent = seg' ∷ rest }), s')

  -- The end of `tcp_send_empty_ack`, with the packet if there is memory for it.
  unfoldable pub finish_ack : Option (TcpHdr × Chain) → Pcb → Buffers W → Err × Pcb × Buffers W
  unfolding release
  finish_ack none pcb s = (buf, set_ack_flags pcb true, s)
  finish_ack (some (tcphdr, p)) pcb s =
      let packet : Packet = record { tcphdr = tcphdr; mss_option = none; p = p } in
      let (err, heap) = env.ip_output_if s.heap packet pcb.remote_ip pcb.remote_udp_port in
      (err, set_ack_flags pcb (not (is_ok err)), release env.mem_free (record s { heap = heap }) p)

  -- `tcp_send_empty_ack`.
  unfoldable pub send_empty_ack : Pcb → Buffers W → Err × Pcb × Buffers W
  unfolding output_alloc_header finish_ack
  send_empty_ack pcb s =
      let (e, pcb', s') = output_alloc_header env pcb 0 0 pcb.snd_nxt s in finish_ack e pcb' s'

  -- `tcp_output`. It does nothing for the control block `tcp_input_pcb`.
  unfoldable pub output : (is_input_pcb : Bool) → Pcb → Buffers W → Err × Pcb × Buffers W
  unfolding output_loop send_empty_ack
  output is_input_pcb pcb s =
      let ack_only : Bool = elim pcb.unsent [ [] ↦ true | seg ∷ rest ↦ not (fits pcb seg) ] in
      if is_input_pcb
      then (ok, pcb, s)
      else if pcb.flags.ack_now && ack_only
      then send_empty_ack pcb s
      else output_loop pcb.unsent pcb s

  -- `tcp_rst`. Without memory for the packet it does nothing.
  unfoldable pub rst_segment :
      (seqno ackno remote_ip : ℕ) → ConnId → (remote_udp_port : ℕ) → Buffers W → Buffers W
  unfolding alloc release
  rst_segment seqno ackno remote_ip conn_id remote_udp_port s =
      let (e, s') = alloc env.mem_malloc s ip tcp_hlen ram in
      elim e [
        | none ↦ s'
        | some p ↦
            let packet : Packet = record {
              tcphdr = record {
                conn_id = conn_id;
                seqno = seqno;
                ackno = ackno;
                hdrlen = 5;
                flags = record no_hdr_flags { rst = true; ack = true };
                wnd = tcp_wnd;
              };
              mss_option = none;
              p = p;
            } in
            let (err, heap) = env.ip_output_if s'.heap packet remote_ip remote_udp_port in
            release env.mem_free (record s' { heap = heap }) p
      ]
