-- ===== src/Tcp/Timers.antt =====
-- src/tcp.c: `tcp_slowtmr` and `tcp_fasttmr`, for one control block, and
-- `tcp_process_refused_data`.
pub mod Keeps
pub mod Run
pub mod Tick
pub mod Stale
mod Tests
use rudp.Tcp.In.Inseg.{ack_now}
use rudp.Tcp.In.Rtt.{to_s16}
use rudp.Tcp.Out.Make.{is_empty}
use rudp.Tcp.In.Ack.{is_running}
use rudp.Tcp.Conn.{age, free_pcb, purge}
use rudp.Tcp.Out.Rexmit.{rexmit_rto, keepalive, zero_window_probe}
use rudp.Tcp.Segs.{segs_free}
use rudp.Err.{in_progress, abrt, ok, Err}
use rudp.Tcp.Out.Output.{set_ack_flags, is_ok, is_abrt, rst_segment, output}
use rudp.Pbuf.{u8_mod, u16_mod, Chain}
use rudp.Tcp.Seq.{u32_mod}
use rudp.Pbuf.Alloc.{Buffers}
use rudp.Tcp.App.{App}
use rudp.Tcp.Types.{
  last_ack, close_wait, syn_rcvd, tcp_wnd, syn_sent, established, fin_wait_2, is_state, Pcb,
}
use rudp.Tcp.Env.{Env}
use rudp.Prelude.Int.{negsuc, ltb_ℤ, pos, ◌+ℤ◌, div_ℤ, ℤ}
use rudp.Prelude.{
  suc, ◌^◌, leb, some, ◌-◌, ◌||◌, none, not, ◌==◌, ltb, get_or, false, ◌+◌, [], if◌then◌else◌, ◌&&◌,
  ◌%◌, Bool, ◌/◌, ◌∷◌, ◌*◌, min, ℕ, List, Option,
}

-- The control block, none if it was freed, and the buffers.
abbrev pub Left : Type 0 → Type 0
Left W = Option Pcb × Buffers W

abbrev pub tcp_maxrtx : ℕ
tcp_maxrtx = 12

abbrev pub tcp_synmaxrtx : ℕ
tcp_synmaxrtx = 6

-- `tcp_backoff` and `tcp_persist_backoff`.
abbrev pub tcp_backoff : List ℕ
tcp_backoff = 1 ∷ (2 ∷ (3 ∷ (4 ∷ (5 ∷ (6 ∷ (7 ∷ (7 ∷ (7 ∷ (7 ∷ (7 ∷ (7 ∷ (7 ∷ []))))))))))))

abbrev pub tcp_persist_backoff : List ℕ
tcp_persist_backoff = 3 ∷ (6 ∷ (12 ∷ (24 ∷ (48 ∷ (96 ∷ (120 ∷ []))))))

-- The timeouts in ticks of TCP_SLOW_INTERVAL, 500 ms: TCP_FIN_WAIT_TIMEOUT and
-- TCP_SYN_RCVD_TIMEOUT, and twice TCP_MSL.
abbrev pub wait_ticks : ℕ
wait_ticks = 20000 / 500

abbrev pub msl_ticks : ℕ
msl_ticks = 2 * 60000 / 500

-- TCP_MAXIDLE and TCP_KEEPINTVL_DEFAULT, in milliseconds.
abbrev pub tcp_maxidle : ℕ
tcp_maxidle = 9 * 75000

abbrev pub keepintvl : ℕ
keepintvl = 75000

-- A number shifted to the left in an int.
abbrev shl_ℤ : ℤ → ℕ → ℤ
shl_ℤ (pos n) k = pos (n * 2 ^ k)
shl_ℤ (negsuc n) k = negsuc (suc n * 2 ^ k - 1)

-- A signed number converted to a u32_t.
abbrev to_u32 : ℤ → ℕ
to_u32 (pos n) = n % u32_mod
to_u32 (negsuc n) = u32_mod - 1 - n % u32_mod

-- Whether the retransmissions have been in vain.
unfoldable pub gave_up : Pcb → Bool
gave_up pcb = is_state pcb.state syn_sent && pcb.nrtx == tcp_synmaxrtx || pcb.nrtx == tcp_maxrtx

-- The control block once the retransmission timer has expired, before the segments are sent again.
unfoldable pub timed_out : Pcb → Pcb
timed_out pcb =
    let eff_wnd = min pcb.cwnd pcb.snd_wnd in
    let two_segs = 2 * pcb.mss % u16_mod in
    let backed_off = to_s16 (shl_ℤ (div_ℤ pcb.sa 8 +ℤ pcb.sv) (get_or tcp_backoff pcb.nrtx 0)) in
    record pcb {
      rto = if is_state pcb.state syn_sent then pcb.rto else backed_off;
      rtime = pos 0;
      ssthresh = if ltb (eff_wnd / 2) two_segs then two_segs else eff_wnd / 2;
      cwnd = pcb.mss;
    }

-- Whether a control block is removed for its age.
unfoldable pub is_stale : (tcp_ticks : ℕ) → Pcb → Bool
is_stale tcp_ticks pcb =
    is_state pcb.state fin_wait_2 && pcb.flags.rxclosed && ltb wait_ticks (age tcp_ticks pcb)
    || is_state pcb.state syn_rcvd && ltb wait_ticks (age tcp_ticks pcb)
    || is_state pcb.state last_ack && ltb msl_ticks (age tcp_ticks pcb)

abbrev pub kept_alive : Pcb → Bool
kept_alive pcb = is_state pcb.state established || is_state pcb.state close_wait

-- Whether the keepalive probes have been in vain.
unfoldable pub is_dead : (tcp_ticks : ℕ) → Pcb → Bool
is_dead tcp_ticks pcb =
    kept_alive pcb && ltb ((pcb.keep_idle + tcp_maxidle) / 500) (age tcp_ticks pcb)

module _ {W : Type 0} (env : Env W) (tcp_ticks : ℕ) (app : App W) where
  -- The persist timer, while the window of the other side is 0.
  unfoldable pub persist : Pcb → Buffers W → Pcb × Buffers W
  unfolding zero_window_probe
  persist pcb s =
      let backoff_cnt = get_or tcp_persist_backoff (pcb.persist_backoff - 1) 0 in
      let waited = record pcb {
        persist_cnt =
            if ltb pcb.persist_cnt backoff_cnt then pcb.persist_cnt + 1 else pcb.persist_cnt;
      } in
      let (err, pcb1, s1) = zero_window_probe env tcp_ticks waited s in
      let probed = record pcb1 {
        persist_cnt = 0;
        persist_backoff =
            if ltb pcb1.persist_backoff 7 then pcb1.persist_backoff + 1 else pcb1.persist_backoff;
      } in
      if ltb waited.persist_cnt backoff_cnt
      then (waited, s)
      else if is_ok err
      then (probed, s1)
      else (pcb1, s1)

  -- The retransmission timer.
  unfoldable pub retransmit : Pcb → Buffers W → Pcb × Buffers W
  unfolding timed_out rexmit_rto
  retransmit pcb s =
      let ticked = record pcb {
        rtime = if is_running pcb.rtime then to_s16 (pcb.rtime +ℤ pos 1) else pcb.rtime;
      } in
      if not (is_empty pcb.unacked) && not (ltb_ℤ ticked.rtime pcb.rto)
      then rexmit_rto env tcp_ticks false (timed_out ticked) s
      else (ticked, s)

  -- The keepalive probe.
  unfoldable pub keep_alive : Pcb → Buffers W → Pcb × Buffers W
  unfolding is_dead keepalive
  keep_alive pcb s =
      let due = ltb ((pcb.keep_idle + pcb.keep_cnt_sent * keepintvl) / 500) (age tcp_ticks pcb) in
      let (err, pcb1, s1) = keepalive env tcp_ticks pcb s in
      let counted = record pcb1 { keep_cnt_sent = (pcb1.keep_cnt_sent + 1) % u8_mod } in
      if kept_alive pcb && not (is_dead tcp_ticks pcb) && due
      then (if is_ok err then (counted, s1) else (pcb1, s1))
      else (pcb, s)

  -- Queued out of sequence data is dropped when the connection has been inactive for too long.
  unfoldable pub drop_ooseq : Pcb → Buffers W → Pcb × Buffers W
  unfolding segs_free
  drop_ooseq pcb s =
      if not (is_empty pcb.ooseq) && leb (to_u32 pcb.rto * 6 % u32_mod) (age tcp_ticks pcb)
      then (record pcb { ooseq = [] }, segs_free env s pcb.ooseq)
      else (pcb, s)

  -- The control block is removed, with a reset if `pcb_reset`.
  unfoldable pub remove : Pcb → (pcb_reset : Bool) → Buffers W → Buffers W
  unfolding purge rst_segment free_pcb
  remove pcb pcb_reset s =
      let (pcb1, s1) = purge env tcp_ticks pcb s in
      let s2 =
        rst_segment env tcp_ticks pcb1.snd_nxt pcb1.rcv_nxt pcb1.remote_ip pcb1.conn_id
          pcb1.remote_udp_port s1 in
      app.errf abrt (free_pcb env tcp_ticks (if pcb_reset then s2 else s1))

  -- What follows the poll callback.
  abbrev pub after_poll : Err × Pcb × Buffers W → Left W
  after_poll (err, pcb, s) =
      let (ignored, pcb1, s1) = output env tcp_ticks false pcb s in
      if is_ok err then (some pcb1, s1) else if is_abrt err then (none, s) else (some pcb, s)

  -- The application is polled when its interval is over.
  unfoldable pub poll : Pcb → Buffers W → Left W
  unfolding output
  poll pcb s =
      let polltmr = (pcb.polltmr + 1) % u8_mod in
      if leb pcb.pollinterval polltmr
      then after_poll (app.poll (record pcb { polltmr = 0 }) s)
      else (some (record pcb { polltmr = polltmr }), s)

  -- The timers of `tcp_slowtmr` for one active control block, before it is removed or polled.
  unfoldable pub run_timers : Pcb → Buffers W → Pcb × Buffers W
  unfolding gave_up persist retransmit keep_alive drop_ooseq
  run_timers pcb s =
      let (pcb1, s1) : Pcb × Buffers W =
        if gave_up pcb
        then (pcb, s)
        else if ltb 0 pcb.persist_backoff
        then persist pcb s
        else retransmit pcb s in
      let (pcb2, s2) = keep_alive pcb1 s1 in drop_ooseq pcb2 s2

  -- `tcp_slowtmr` for one active control block. `tcp_ticks` is counted on before.
  unfoldable pub slow_active : (tcp_timer_ctr : ℕ) → Pcb → Buffers W → Left W
  unfolding gave_up is_stale is_dead run_timers remove poll
  slow_active tcp_timer_ctr pcb s =
      let marked = record pcb { last_timer = tcp_timer_ctr } in
      let (pcb1, s1) = run_timers marked s in
      let dead = is_dead tcp_ticks pcb1 in
      let freed = remove pcb1 dead s1 in
      if pcb.last_timer == tcp_timer_ctr
      then (some pcb, s)
      else if gave_up pcb || is_stale tcp_ticks pcb1 || dead
      then (none, freed)
      else poll pcb1 s1

  -- `tcp_slowtmr` for one control block in TIME-WAIT.
  unfoldable pub slow_time_wait : Pcb → Buffers W → Left W
  unfolding purge free_pcb
  slow_time_wait pcb s =
      if ltb msl_ticks (age tcp_ticks pcb)
      then (none, free_pcb env tcp_ticks (purge env tcp_ticks pcb s).1)
      else (some pcb, s)

  -- The end of the connection is told to the application, as `tcp_recved` will not be called for
  -- the number of the FIN.
  unfoldable pub report_closed : Pcb → Buffers W → Err × Pcb × Buffers W
  report_closed pcb s =
      app.recv
        (record pcb { rcv_wnd = if pcb.rcv_wnd == tcp_wnd then pcb.rcv_wnd else pcb.rcv_wnd + 1 })
        [] ok s

  abbrev pub has_fin : Chain → Bool
  has_fin [] = false
  has_fin (p ∷ ps) = p.flags.tcp_fin

  -- What follows the callback of `tcp_process_refused_data`. Data that is refused again is kept.
  abbrev pub after_refused : Chain → Err × Pcb × Buffers W → Err × Pcb × Buffers W
  after_refused refused (err, pcb, s) =
      let (err1, pcb1, s1) = report_closed pcb s in
      let told : Err × Pcb × Buffers W = (if is_abrt err1 then abrt else ok, pcb1, s1) in
      if is_ok err
      then (if has_fin refused then told else (ok, pcb, s))
      else if is_abrt err
      then (abrt, pcb, s)
      else (in_progress, record pcb { refused_data = refused }, s)

  -- `tcp_process_refused_data`.
  unfoldable pub process_refused_data : Pcb → Buffers W → Err × Pcb × Buffers W
  unfolding report_closed
  process_refused_data pcb s =
      after_refused pcb.refused_data
        (app.recv (record pcb { refused_data = [] }) pcb.refused_data ok s)

  -- A delayed acknowledgement is sent.
  unfoldable pub send_delayed : Pcb → Buffers W → Pcb × Buffers W
  unfolding output
  send_delayed pcb s =
      let (err, pcb1, s1) = output env tcp_ticks false (ack_now pcb) s in
      if pcb.flags.ack_delay then (set_ack_flags pcb1 false, s1) else (pcb, s)

  -- `tcp_fasttmr` for one active control block.
  unfoldable pub fast_active : (tcp_timer_ctr : ℕ) → Pcb → Buffers W → Left W
  unfolding send_delayed process_refused_data
  fast_active tcp_timer_ctr pcb s =
      let (pcb1, s1) = send_delayed (record pcb { last_timer = tcp_timer_ctr }) s in
      let (err, pcb2, s2) = process_refused_data pcb1 s1 in
      if pcb.last_timer == tcp_timer_ctr
      then (some pcb, s)
      else if is_empty pcb1.refused_data
      then (some pcb1, s1)
      else if is_abrt err
      then (none, s2)
      else (some pcb2, s2)
