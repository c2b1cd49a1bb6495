-- ===== src/Tcp/Conn.antt =====
-- src/tcp.c: `tcp_pcb_purge`, `tcp_pcb_remove`, `tcp_abandon`, and the closing of a connection. The
-- functions work on one control block; on which of the lists it stands is its `Home`.
pub mod Alloc
pub mod Open
use rudp.Tcp.Seq.{seq_sub}
use rudp.Prelude.Int.{negsuc}
use rudp.Tcp.In.Inseg.{ack_now}
use rudp.Tcp.Out.Make.{is_empty}
use rudp.Pbuf.Alloc.{Buffers}
use rudp.Tcp.App.{App}
use rudp.Tcp.Out.Output.{is_ok, output, rst_segment}
use rudp.Tcp.Segs.{segs_free}
use rudp.Tcp.Out.Enqueue.{send_fin}
use rudp.Memp.{tcp_pcb_listen, tcp_pcb, memp_free}
use rudp.Err.{abrt, ok, Err}
use rudp.Pbuf.Release.{release}
use rudp.Prelude.{
  none, ◌∷◌, some, List, Option, ◌==◌, if◌then◌else◌, [], ◌||◌, ◌&&◌, not, true, ℕ, Bool,
}
use rudp.Tcp.Types.{
  closing, fin_wait_2, syn_sent, last_ack, tcp_wnd, close_wait, fin_wait_1, listen, established,
  time_wait, syn_rcvd, closed, is_state, Pcb, TcpState,
}
use rudp.Tcp.Env.{Env}

-- The lists of control blocks, and the memory pool.
pub data Home : Type 0 where
  unlisted bound listening active tw freed : Home

-- `struct tcp_pcb_listen`, without its callback.
pub record Listener : Type 0 where
  pub prio : ℕ
  pub local_port : ℕ

-- A control block that was passed over, put back in front of the others.
abbrev pub put_back : Pcb → Option (Pcb × List Pcb) → Option (Pcb × List Pcb)
put_back pcb none = none
put_back pcb (some (found, others)) = some (found, pcb ∷ others)

-- How long a control block has been inactive.
abbrev pub age : (tcp_ticks : ℕ) → Pcb → ℕ
age tcp_ticks pcb = seq_sub tcp_ticks pcb.tmr

abbrev pub is_quiet : TcpState → Bool
is_quiet st = is_state st closed || is_state st time_wait || is_state st listen

module _ {W : Type 0} (env : Env W) (tcp_ticks : ℕ) where
  -- `tcp_pcb_purge`.
  unfoldable pub purge : Pcb → Buffers W → Pcb × Buffers W
  unfolding release segs_free
  purge pcb s =
      let s1 = release env.mem_free s pcb.refused_data in
      let s2 = segs_free env s1 pcb.ooseq in
      let s3 = segs_free env s2 pcb.unsent in
      let s4 = segs_free env s3 pcb.unacked in
      let purged = record pcb {
        refused_data = [];
        ooseq = [];
        rtime = negsuc 0;
        unsent = [];
        unacked = [];
        unsent_oversize = 0;
      } in
      if is_quiet pcb.state then (pcb, s) else (purged, s4)

  -- `tcp_pcb_remove`, behind TCP_RMV. A delayed acknowledgement is sent first.
  unfoldable pub pcb_remove : (is_input_pcb : Bool) → Pcb → Buffers W → Pcb × Buffers W
  unfolding purge output
  pcb_remove is_input_pcb pcb s =
      let (pcb1, s1) = purge pcb s in
      let (err, pcb2, s2) = output env tcp_ticks is_input_pcb (ack_now pcb1) s1 in
      let must_ack =
        not (is_state pcb.state time_wait)
        && not (is_state pcb.state listen)
        && pcb1.flags.ack_delay in
      if must_ack
      then (record pcb2 { state = closed; local_port = 0 }, s2)
      else (record pcb1 { state = closed; local_port = 0 }, s1)

  -- `memp_free` of the control block.
  unfoldable pub free_pcb : Buffers W → Buffers W
  unfolding memp_free
  free_pcb s = record s { memp = memp_free s.memp tcp_pcb [] }

  abbrev is_bound : Pcb → Bool
  is_bound pcb = is_state pcb.state closed && not (pcb.local_port == 0)

  -- `tcp_abandon`. The control block is freed.
  unfoldable pub abandon :
      App W → (is_input_pcb : Bool) → Pcb → (reset : Bool) → Buffers W → Buffers W
  unfolding pcb_remove segs_free rst_segment free_pcb
  abandon app is_input_pcb pcb reset s =
      let (pcb1, s1) : Pcb × Buffers W =
        if is_bound pcb then (pcb, s) else pcb_remove is_input_pcb pcb s in
      let s2 = segs_free env s1 pcb1.unacked in
      let s3 = segs_free env s2 pcb1.unsent in
      let s4 = segs_free env s3 pcb1.ooseq in
      let s5 =
        if reset && not (is_bound pcb)
        then rst_segment env tcp_ticks pcb.snd_nxt pcb.rcv_nxt pcb1.remote_ip pcb1.conn_id
            pcb1.remote_udp_port s4
        else s4 in
      if is_state pcb.state time_wait
      then free_pcb (pcb_remove is_input_pcb pcb s).1
      else app.errf abrt (free_pcb s5)

  -- The end of `tcp_close_shutdown` once the FIN is queued, or not.
  abbrev pub after_fin :
      (is_input_pcb : Bool) → TcpState → Err × Pcb × Buffers W → Err × Pcb × Home × Buffers W
  after_fin is_input_pcb next (err, pcb, s) =
      let (ignored, pcb1, s1) = output env tcp_ticks is_input_pcb (record pcb { state = next }) s in
      if is_ok err then (ok, pcb1, active, s1) else (err, pcb, active, s)

  -- The `switch` of `tcp_close_shutdown`, by the state.
  unfoldable pub close_by_state :
      (is_input_pcb : Bool) → TcpState → Pcb → Buffers W → Err × Pcb × Home × Buffers W
  unfolding free_pcb pcb_remove send_fin memp_free output
  close_by_state is_input_pcb closed pcb s = (ok, pcb, freed, free_pcb s)
  close_by_state is_input_pcb listen pcb s =
      let (pcb1, s1) = pcb_remove is_input_pcb pcb s in
      (ok, pcb1, freed, record s1 { memp = memp_free s1.memp tcp_pcb_listen [] })
  close_by_state is_input_pcb syn_sent pcb s =
      let (pcb1, s1) = pcb_remove is_input_pcb pcb s in (ok, pcb1, freed, free_pcb s1)
  close_by_state is_input_pcb syn_rcvd pcb s =
      after_fin is_input_pcb fin_wait_1 (send_fin env pcb s)
  close_by_state is_input_pcb established pcb s =
      after_fin is_input_pcb fin_wait_1 (send_fin env pcb s)
  close_by_state is_input_pcb close_wait pcb s =
      after_fin is_input_pcb last_ack (send_fin env pcb s)
  close_by_state is_input_pcb fin_wait_1 pcb s = (ok, pcb, active, s)
  close_by_state is_input_pcb fin_wait_2 pcb s = (ok, pcb, active, s)
  close_by_state is_input_pcb closing pcb s = (ok, pcb, active, s)
  close_by_state is_input_pcb last_ack pcb s = (ok, pcb, active, s)
  close_by_state is_input_pcb time_wait pcb s = (ok, pcb, tw, s)

  -- Whether the application has not received all data.
  abbrev pub has_unread : Pcb → Bool
  has_unread pcb = not (is_empty pcb.refused_data) || not (pcb.rcv_wnd == tcp_wnd)

  -- The connection is reset because the application has not received all data. The control block of
  -- `tcp_input` is freed by `tcp_input` later.
  unfoldable pub close_reset : (is_input_pcb : Bool) → Pcb → Buffers W → Pcb × Home × Buffers W
  unfolding purge rst_segment free_pcb
  close_reset is_input_pcb pcb s =
      let s1 =
        rst_segment env tcp_ticks pcb.snd_nxt pcb.rcv_nxt pcb.remote_ip pcb.conn_id
          pcb.remote_udp_port s in
      let (pcb1, s2) = purge pcb s1 in
      if is_state pcb.state established
      then (record pcb1 { state = time_wait }, tw, s2)
      else if is_input_pcb
      then (pcb1, unlisted, s2)
      else (pcb1, freed, free_pcb s2)

  -- `tcp_close_shutdown`.
  unfoldable pub close_shutdown :
      (is_input_pcb : Bool)
      → Pcb
      → (rst_on_unacked_data : Bool) → Buffers W
      → Err × Pcb × Home × Buffers W
  unfolding close_reset close_by_state
  close_shutdown is_input_pcb pcb rst_on_unacked_data s =
      let (pcb1, home, s1) = close_reset is_input_pcb pcb s in
      if rst_on_unacked_data
        && (is_state pcb.state established || is_state pcb.state close_wait)
        && has_unread pcb
      then (ok, pcb1, home, s1)
      else close_by_state is_input_pcb pcb.state pcb s

  abbrev pub close_rx : Pcb → Pcb
  close_rx pcb = record pcb { flags = record pcb.flags { rxclosed = true } }

  -- `tcp_close`.
  unfoldable pub close : (is_input_pcb : Bool) → Pcb → Buffers W → Err × Pcb × Home × Buffers W
  unfolding close_shutdown
  close is_input_pcb pcb s =
      close_shutdown is_input_pcb (if is_state pcb.state listen then pcb else close_rx pcb) true s

  -- `tcp_shutdown` of a connection that stands on the list `home`.
  unfoldable pub shutdown :
      (is_input_pcb : Bool)
      → Pcb
      → Home
      → (shut_rx shut_tx : Bool) → Buffers W
      → Err × Pcb × Home × Buffers W
  unfolding close_shutdown release
  shutdown is_input_pcb pcb home shut_rx shut_tx s =
      let pcb1 = if shut_rx then record (close_rx pcb) { refused_data = [] } else pcb in
      let s1 = if shut_rx then release env.mem_free s pcb.refused_data else s in
      let may_close =
        is_state pcb.state syn_rcvd
        || is_state pcb.state established
        || is_state pcb.state close_wait in
      if is_state pcb.state listen
      then (Err.conn, pcb, home, s)
      else if shut_rx && shut_tx
      then close_shutdown is_input_pcb (close_rx pcb) true s
      else if not shut_tx
      then (ok, pcb1, home, s1)
      else if may_close
      then close_shutdown is_input_pcb pcb1 shut_rx s1
      else (Err.conn, pcb1, home, s1)
