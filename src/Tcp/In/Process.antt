-- ===== src/Tcp/In/Process.antt =====
-- src/tcp_in.c: `tcp_process`, the state machine, and `tcp_timewait_input`.
pub mod Rfc
pub mod After
pub mod Syn
pub mod Refines
use rudp.Prelude.Int.{pos, negsuc}
use rudp.Tcp.Out.Make.{is_empty}
use rudp.Pbuf.{u16_mod}
use rudp.Tcp.In.Ooseq.{Delivery}
use rudp.Tcp.Out.Rexmit.{rexmit}
use rudp.Tcp.Out.Output.{is_ok, output, is_abrt, rst_segment}
use rudp.Tcp.Options.{parseopt, OptBytes}
use rudp.Tcp.In.Inseg.{ack_now, mine, seq_add, tcplen16, InsegBuf}
use rudp.Tcp.Segs.{seg_free}
use rudp.Tcp.Conn.{freed, tw, active, abandon, purge, Home}
use rudp.Tcp.App.{App}
use rudp.Pbuf.Alloc.{Buffers}
use rudp.Tcp.In.Receive.{nothing, receive, Received}
use rudp.Tcp.Seq.{seq_sub, seq_between}
use rudp.Tcp.Env.{Env}
use rudp.Err.{rst, abrt, ok, Err}
use rudp.Prelude.{
  ltb, not, [], true, ◌∷◌, max, ◌%◌, ◌==◌, some, none, false, ◌*◌, ◌&&◌, ◌+◌, ◌-◌, if◌then◌else◌,
  List, Bool, min, Option, ℕ,
}
use rudp.Tcp.Types.{
  last_ack, syn_rcvd, fin_wait_1, listen, fin_wait_2, established, closing, syn_sent, close_wait,
  closed, time_wait, is_state, TcpState, Seg, Pcb,
}

-- What `tcp_process` leaves. `reset` and `closed` are the bits TF_RESET and TF_CLOSED of
-- `recv_flags`; the bit TF_GOT_FIN and `recv_data` are in the delivery.
pub record Processed (W : Type 0) : Type 0 where
  pub err : Err
  pub pcb : Pcb
  pub home : Home
  pub inseg_p : InsegBuf
  pub delivery : Delivery
  pub reset : Bool
  pub closed : Bool
  pub s : Buffers W

-- LWIP_TCP_CALC_INITIAL_CWND, in a u16_t.
abbrev pub initial_cwnd : (mss : ℕ) → ℕ
initial_cwnd mss = min (4 * mss) (max (2 * mss) 4380) % u16_mod

-- The mss that the options leave; the parse does not run out of rounds.
abbrev pub mss_after : Option ℕ → (mss : ℕ) → ℕ
mss_after none mss = mss
mss_after (some mss') mss = mss'

module _ {W : Type 0} where
  -- Nothing is received.
  abbrev pub unreceived : Err → Pcb → Seg → Buffers W → Processed W
  unreceived err pcb i s = record {
    err = err;
    pcb = pcb;
    home = active;
    inseg_p = mine i.p;
    delivery = nothing;
    reset = false;
    closed = false;
    s = s;
  }

  -- What `tcp_receive` leaves, with the control block and the buffers changed.
  abbrev pub after_receive : Received W → Pcb → Home → (is_closed : Bool) → Buffers W → Processed W
  after_receive r pcb home is_closed s = record {
    err = ok;
    pcb = pcb;
    home = home;
    inseg_p = r.inseg_p;
    delivery = r.delivery;
    reset = false;
    closed = is_closed;
    s = s;
  }

-- Whether the acknowledgement is of all that was sent.
abbrev pub acks_all : Seg → Pcb → Bool
acks_all i pcb = i.tcphdr.flags.ack && i.tcphdr.ackno == pcb.snd_nxt

-- Whether a reset is acceptable.
unfoldable pub acceptable : Pcb → Seg → Bool
unfolding seq_between
acceptable pcb i =
    if is_state pcb.state syn_sent
    then i.tcphdr.ackno == pcb.snd_nxt
    else seq_between i.tcphdr.seqno pcb.rcv_nxt (seq_add pcb.rcv_nxt pcb.rcv_wnd)

-- The control block once the SYN is acknowledged by a SYN.
abbrev pub syn_acked : Pcb → Seg → (rest : List Seg) → Pcb
syn_acked pcb i rest = record pcb {
  snd_buf = (pcb.snd_buf + 1) % u16_mod;
  rcv_nxt = seq_add i.tcphdr.seqno 1;
  rcv_ann_right_edge = seq_add i.tcphdr.seqno 1;
  lastack = i.tcphdr.ackno;
  snd_wnd = i.tcphdr.wnd;
  snd_wnd_max = i.tcphdr.wnd;
  snd_wl1 = seq_sub i.tcphdr.seqno 1;
  state = established;
  conn_id = record pcb.conn_id { connid2 = i.tcphdr.conn_id.connid2 };
  ssthresh = i.tcphdr.wnd;
  cwnd = initial_cwnd pcb.mss;
  snd_queuelen = (pcb.snd_queuelen + u16_mod - 1) % u16_mod;
  unacked = rest;
  rtime = if is_empty rest then negsuc 0 else pos 0;
  nrtx = if is_empty rest then pcb.nrtx else 0;
}

-- The control block once the accept callback has taken the connection and the segment is received.
abbrev pub accepted : Pcb → (got_fin : Bool) → Pcb
accepted pcb got_fin =
    let pcb1 = record pcb {
      ssthresh = pcb.snd_wnd;
      acked = pcb.acked - 1;
      cwnd = initial_cwnd pcb.mss;
    } in
    if got_fin then record (ack_now pcb1) { state = close_wait } else pcb1

module _ {W : Type 0} (env : Env W) (tcp_ticks : ℕ) (app : App W) where
  -- A reset in reply to the segment.
  unfoldable pub refuse : Pcb → Seg → Buffers W → Processed W
  unfolding rst_segment tcplen16
  refuse pcb i s = unreceived ok pcb i (
      rst_segment env tcp_ticks i.tcphdr.ackno (seq_add i.tcphdr.seqno (tcplen16 i)) pcb.remote_ip
        pcb.conn_id pcb.remote_udp_port s)

  -- The connected callback, with what follows it.
  unfoldable pub report_connected : Err × Pcb × Buffers W → Seg → Processed W
  report_connected (err, pcb, s) i =
      if is_abrt err
      then record (unreceived abrt pcb i s) { home = freed }
      else unreceived ok (ack_now pcb) i s

  -- The state SYN_SENT. The first unacknowledged segment is read without a test that there is one:
  -- with none, there is no result.
  unfoldable pub process_syn_sent : List Seg → Pcb → Seg → Buffers W → Option (Processed W)
  unfolding seg_free refuse report_connected
  process_syn_sent [] pcb i s =
      if i.tcphdr.flags.ack && i.tcphdr.flags.syn
      then none
      else if i.tcphdr.flags.ack
      then some (refuse pcb i s)
      else some (unreceived ok pcb i s)
  process_syn_sent (rseg ∷ rest) pcb i s =
      let s1 = seg_free env s rseg in
      let connected = report_connected (app.connected (syn_acked pcb i rest) ok s1) i in
      if i.tcphdr.flags.ack && i.tcphdr.flags.syn && i.tcphdr.ackno == seq_add rseg.tcphdr.seqno 1
      then some connected
      else if i.tcphdr.flags.ack
      then some (refuse pcb i s)
      else some (unreceived ok pcb i s)

  -- The accept callback, with what follows it.
  unfoldable pub report_accepted : Err × Pcb × Buffers W → Seg → Processed W
  unfolding abandon receive
  report_accepted (err, pcb, s) i =
      let r = receive env tcp_ticks pcb i s in
      let aborted = record (unreceived abrt pcb i s) { home = freed } in
      let abandoned = record aborted { s = abandon env tcp_ticks app true pcb true s } in
      if is_ok err
      then after_receive r (accepted r.pcb r.delivery.got_fin) active false r.s
      else if is_abrt err
      then aborted
      else abandoned

  -- The state SYN_RCVD.
  unfoldable pub process_syn_rcvd : Pcb → Seg → Buffers W → Processed W
  unfolding seq_between report_accepted refuse rexmit
  process_syn_rcvd pcb i s =
      if i.tcphdr.flags.ack
      then (if seq_between i.tcphdr.ackno (seq_add pcb.lastack 1) pcb.snd_nxt
          then report_accepted (app.accept (record pcb { state = established }) ok s) i
          else refuse pcb i s)
      else if i.tcphdr.flags.syn && i.tcphdr.seqno == seq_sub pcb.rcv_nxt 1
      then unreceived ok (rexmit pcb) i s
      else unreceived ok pcb i s

  -- The end of a connection that moves to TIME_WAIT.
  unfoldable pub to_time_wait : Received W → Pcb → Processed W
  unfolding purge
  to_time_wait r pcb =
      let (pcb1, s1) = purge env tcp_ticks pcb r.s in
      after_receive r (record pcb1 { state = time_wait }) tw false s1

  -- The states from ESTABLISHED on, once the segment is received: what `tcp_process` does in the
  -- state `st` in which the segment arrived.
  unfoldable pub after_data : TcpState → Seg → Received W → Processed W
  unfolding to_time_wait
  after_data fin_wait_1 i r =
      if r.delivery.got_fin
      then (if acks_all i r.pcb
          then to_time_wait r (ack_now r.pcb)
          else after_receive r (record (ack_now r.pcb) { state = closing }) active false r.s)
      else if acks_all i r.pcb
      then after_receive r (record r.pcb { state = fin_wait_2 }) active false r.s
      else after_receive r r.pcb active false r.s
  after_data fin_wait_2 i r =
      if r.delivery.got_fin
      then to_time_wait r (ack_now r.pcb)
      else after_receive r r.pcb active false r.s
  after_data closing i r =
      if acks_all i r.pcb then to_time_wait r r.pcb else after_receive r r.pcb active false r.s
  after_data last_ack i r = after_receive r r.pcb active (acks_all i r.pcb) r.s
  after_data st i r =
      if r.delivery.got_fin
      then after_receive r (record (ack_now r.pcb) { state = close_wait }) active false r.s
      else after_receive r r.pcb active false r.s

  -- The `switch` of `tcp_process`.
  unfoldable pub by_state : TcpState → Pcb → Seg → Buffers W → Option (Processed W)
  by_state closed pcb i s = some (unreceived ok pcb i s)
  by_state listen pcb i s = some (unreceived ok pcb i s)
  by_state time_wait pcb i s = some (unreceived ok pcb i s)
  by_state syn_sent pcb i s = process_syn_sent pcb.unacked pcb i s
  by_state syn_rcvd pcb i s = some (process_syn_rcvd pcb i s)
  by_state st pcb i s = some (after_data st i (receive env tcp_ticks pcb i s))

  -- The fields that each segment that is not refused at once sets.
  unfoldable pub note_arrival : Pcb → Seg → OptBytes → Pcb
  unfolding parseopt
  note_arrival pcb i opts = record pcb {
    tmr = if pcb.flags.rxclosed then pcb.tmr else tcp_ticks;
    keep_cnt_sent = 0;
    mss = mss_after (parseopt opts i.tcphdr.hdrlen pcb.mss) pcb.mss;
  }

  -- `tcp_process` of the segment `i` with the options `opts`, without a result where it reads
  -- through a null pointer.
  unfoldable pub process : Pcb → Seg → OptBytes → Buffers W → Option (Processed W)
  process pcb i opts s =
      let reset_pcb = record pcb { flags = record pcb.flags { ack_delay = false } } in
      let was_reset = record (unreceived rst reset_pcb i s) { reset = true } in
      let go_on = by_state pcb.state (note_arrival pcb i opts) i s in
      if i.tcphdr.flags.rst
      then some (if acceptable pcb i then was_reset else unreceived ok pcb i s)
      else if i.tcphdr.flags.syn
          && not (is_state pcb.state syn_sent)
          && not (is_state pcb.state syn_rcvd)
      then some (unreceived ok (ack_now pcb) i s)
      else go_on

  -- `tcp_timewait_input`.
  unfoldable pub timewait_input :
      (is_input_pcb : Bool) → Pcb → Seg → Buffers W → Err × Pcb × Buffers W
  unfolding seq_between rst_segment tcplen16 output
  timewait_input is_input_pcb pcb i s =
      let in_window = seq_between i.tcphdr.seqno pcb.rcv_nxt (seq_add pcb.rcv_nxt pcb.rcv_wnd) in
      let pcb1 =
        if not i.tcphdr.flags.syn && i.tcphdr.flags.fin
        then record pcb { tmr = tcp_ticks }
        else pcb in
      let reply =
        rst_segment env tcp_ticks i.tcphdr.ackno (seq_add i.tcphdr.seqno (tcplen16 i)) pcb.remote_ip
          pcb.conn_id pcb.remote_udp_port s in
      if i.tcphdr.flags.rst
      then (ok, pcb, s)
      else if i.tcphdr.flags.syn && in_window
      then (ok, pcb, reply)
      else if ltb 0 (tcplen16 i)
      then output env tcp_ticks is_input_pcb (ack_now pcb1) s
      else (ok, pcb1, s)
