-- ===== src/Tcp/Timers/Run.antt =====
-- What `tcp_slowtmr` and `tcp_fasttmr` of src/tcp.c leave of a control block that they do not free.
use rudp.Tcp.In.Inseg.{ack_now}
use rudp.Tcp.Out.Output.{set_ack_flags, output, is_abrt, is_ok}
use rudp.Tcp.Conn.{age}
use rudp.Prelude.Int.{ltb_ℤ, pos, ◌+ℤ◌}
use rudp.Tcp.Out.Rexmit.{keepalive, rexmit_rto, zero_window_probe}
use rudp.Tcp.Out.Make.{is_empty}
use rudp.Tcp.In.Rtt.{to_s16}
use rudp.Tcp.Timers.Keeps.{
  output-Keeps, KeepsTimes, keepalive-Keeps, rexmit_rto-Keeps, zero_window_probe-Keeps,
  KeepsTimes-trans,
}
use rudp.Tcp.In.Ack.{is_running}
use rudp.Pbuf.Alloc.{Buffers}
use rudp.Err.{in_progress, ok, abrt, Err}
use rudp.Tcp.Timers.{
  is_stale, has_fin, remove, Left, process_refused_data, fast_active, poll, after_refused,
  send_delayed, report_closed, slow_active, after_poll, segs_free, u32_mod, to_u32, is_dead,
  kept_alive, keepintvl, tcp_persist_backoff, gave_up, timed_out, keep_alive, persist, drop_ooseq,
  run_timers, retransmit,
}
use rudp.Pbuf.{u8_mod, Chain}
use rudp.Tcp.Env.{Env}
use rudp.Tcp.Types.{tcp_wnd, Pcb}
use rudp.Tcp.App.{App}
use rudp.Prelude.{
  ◌||◌, ◌≡◌, ◌==◌, none, [], inr, some, inl, refl, false, ◌%◌, Bool-cases, leb, ◌/◌, ◌&&◌, ◌-◌, ◌*◌,
  ◌+◌, not, ltb, if◌then◌else◌, get_or, if_elim, Option, ℕ,
}

-- The callbacks that the timers call leave alone the fields that the timeouts are measured by.
pub record LeavesTimes {W : Type 0} (app : App W) : Type 0 where
  pub recv_keeps :
      (pcb : Pcb) (p : Chain) (err : Err) (s : Buffers W) → KeepsTimes pcb (app.recv pcb p err s).1
  pub poll_keeps : (pcb : Pcb) (s : Buffers W) → KeepsTimes pcb (app.poll pcb s).1

-- The same of the control block that is left, if there is one.
abbrev pub KeepsIfAny : Pcb → Option Pcb → Type 0
KeepsIfAny pcb none = Unit {0}
KeepsIfAny pcb (some left) = KeepsTimes pcb left

KeepsIfAny-trans : (a b : Pcb) (o : Option Pcb) → KeepsTimes a b → KeepsIfAny b o → KeepsIfAny a o
KeepsIfAny-trans a b none h k = tt
KeepsIfAny-trans a b (some c) h k = KeepsTimes-trans a b c h k

module _ {W : Type 0} (env : Env W) (tcp_ticks : ℕ) (app : App W) (leaves : LeavesTimes app) where
  persist-Keeps : (pcb : Pcb) (s : Buffers W) → KeepsTimes pcb (persist env tcp_ticks app pcb s).0
  unfolding persist
  persist-Keeps pcb s =
      let backoff_cnt = get_or tcp_persist_backoff (pcb.persist_backoff - 1) 0 in
      let waited = record pcb {
        persist_cnt =
            if ltb pcb.persist_cnt backoff_cnt then pcb.persist_cnt + 1 else pcb.persist_cnt;
      } in
      let z = zero_window_probe env tcp_ticks waited s in
      let keeps : KeepsTimes pcb z.1 =
        KeepsTimes-trans pcb waited z.1 (refl, refl, refl)
          (zero_window_probe-Keeps env tcp_ticks waited s) in
      elim (Bool-cases (ltb waited.persist_cnt backoff_cnt)) [
        | inl waits ↦ rw waits (refl, refl, refl)
        | inr due ↦ elim (Bool-cases (is_ok z.0)) [
          | inl fine ↦ rw (due, fine) keeps
          | inr failed ↦ rw (due, failed) keeps
        ]
      ]

  retransmit-Keeps :
      (pcb : Pcb) (s : Buffers W) → KeepsTimes pcb (retransmit env tcp_ticks app pcb s).0
  unfolding retransmit timed_out
  retransmit-Keeps pcb s =
      let ticked = record pcb {
        rtime = if is_running pcb.rtime then to_s16 (pcb.rtime +ℤ pos 1) else pcb.rtime;
      } in
      if_elim (λ (r : Pcb × Buffers W). KeepsTimes pcb r.0)
        (not (is_empty pcb.unacked) && not (ltb_ℤ ticked.rtime pcb.rto))
        (rexmit_rto env tcp_ticks false (timed_out ticked) s) (ticked, s)
        (λ h.
          KeepsTimes-trans pcb (timed_out ticked)
            (rexmit_rto env tcp_ticks false (timed_out ticked) s).0 (refl, refl, refl)
            (rexmit_rto-Keeps env tcp_ticks false (timed_out ticked) s))
        (λ h. (refl, refl, refl))

  keep_alive-Keeps :
      (pcb : Pcb) (s : Buffers W) → KeepsTimes pcb (keep_alive env tcp_ticks app pcb s).0
  unfolding keep_alive
  keep_alive-Keeps pcb s =
      let due = ltb ((pcb.keep_idle + pcb.keep_cnt_sent * keepintvl) / 500) (age tcp_ticks pcb) in
      let k = keepalive env tcp_ticks pcb s in
      let counted = record k.1 { keep_cnt_sent = (k.1.keep_cnt_sent + 1) % u8_mod } in
      let sent : Pcb × Buffers W = if is_ok k.0 then (counted, k.2) else (k.1, k.2) in
      if_elim (λ (r : Pcb × Buffers W). KeepsTimes pcb r.0)
        (kept_alive pcb && not (is_dead tcp_ticks pcb) && due) sent (pcb, s)
        (λ h.
          if_elim (λ (r : Pcb × Buffers W). KeepsTimes pcb r.0) (is_ok k.0) (counted, k.2)
            (k.1, k.2) (λ o. keepalive-Keeps env tcp_ticks pcb s)
            (λ o. keepalive-Keeps env tcp_ticks pcb s))
        (λ h. (refl, refl, refl))

  drop_ooseq-Keeps :
      (pcb : Pcb) (s : Buffers W) → KeepsTimes pcb (drop_ooseq env tcp_ticks app pcb s).0
  unfolding drop_ooseq
  drop_ooseq-Keeps pcb s =
      if_elim (λ (r : Pcb × Buffers W). KeepsTimes pcb r.0)
        (not (is_empty pcb.ooseq) && leb (to_u32 pcb.rto * 6 % u32_mod) (age tcp_ticks pcb))
        (record pcb { ooseq = [] }, segs_free env s pcb.ooseq) (pcb, s) (λ h. (refl, refl, refl))
        (λ h. (refl, refl, refl))

  pub run_timers-Keeps :
      (pcb : Pcb) (s : Buffers W) → KeepsTimes pcb (run_timers env tcp_ticks app pcb s).0
  unfolding run_timers
  run_timers-Keeps pcb s =
      let timers : Pcb × Buffers W =
        if ltb 0 pcb.persist_backoff
        then persist env tcp_ticks app pcb s
        else retransmit env tcp_ticks app pcb s in
      let first : Pcb × Buffers W = if gave_up pcb then (pcb, s) else timers in
      let second = keep_alive env tcp_ticks app first.0 first.1 in
      let third = drop_ooseq env tcp_ticks app second.0 second.1 in
      let keeps : KeepsTimes pcb first.0 =
        if_elim (λ (r : Pcb × Buffers W). KeepsTimes pcb r.0) (gave_up pcb) (pcb, s) timers
          (λ h. (refl, refl, refl))
          (λ h.
            if_elim (λ (r : Pcb × Buffers W). KeepsTimes pcb r.0) (ltb 0 pcb.persist_backoff)
              (persist env tcp_ticks app pcb s) (retransmit env tcp_ticks app pcb s)
              (λ o. persist-Keeps pcb s) (λ o. retransmit-Keeps pcb s)) in
      KeepsTimes-trans pcb first.0 third.0 keeps (
        KeepsTimes-trans first.0 second.0 third.0 (keep_alive-Keeps first.0 first.1)
          (drop_ooseq-Keeps second.0 second.1))

  after_poll-Keeps :
      (pcb : Pcb) (r : Err × Pcb × Buffers W)
      → KeepsTimes pcb r.1
      → KeepsIfAny pcb (after_poll env tcp_ticks app r).0
  after_poll-Keeps pcb (err, p, s) h =
      let out = output env tcp_ticks false p s in
      let failed : Left W = if is_abrt err then (none, s) else (some p, s) in
      if_elim (λ (r : Left W). KeepsIfAny pcb r.0) (is_ok err) (some out.1, out.2) failed
        (λ o. KeepsTimes-trans pcb p out.1 h (output-Keeps env tcp_ticks false p s))
        (λ o.
          if_elim (λ (r : Left W). KeepsIfAny pcb r.0) (is_abrt err) (none, s) (some p, s) (λ a. tt)
            (λ a. h))

  poll-Keeps : (pcb : Pcb) (s : Buffers W) → KeepsIfAny pcb (poll env tcp_ticks app pcb s).0
  unfolding poll
  poll-Keeps pcb s =
      let polltmr = (pcb.polltmr + 1) % u8_mod in
      let reset = record pcb { polltmr = 0 } in
      if_elim (λ (r : Left W). KeepsIfAny pcb r.0) (leb pcb.pollinterval polltmr)
        (after_poll env tcp_ticks app (app.poll reset s))
        (some (record pcb { polltmr = polltmr }), s)
        (λ h. after_poll-Keeps pcb (app.poll reset s) (leaves.poll_keeps reset s))
        (λ h. (refl, refl, refl))

  -- A control block that is not freed by `tcp_slowtmr` keeps its times, and is marked as seen.
  pub slow_active-Keeps :
      (tcp_timer_ctr : ℕ) (pcb : Pcb) (s : Buffers W)
      → (pcb.last_timer == tcp_timer_ctr) ≡ false
      → KeepsIfAny
          (record pcb { last_timer = tcp_timer_ctr })
          (slow_active env tcp_ticks app tcp_timer_ctr pcb s).0
  unfolding slow_active
  slow_active-Keeps tcp_timer_ctr pcb s unseen =
      let marked = record pcb { last_timer = tcp_timer_ctr } in
      let t = run_timers env tcp_ticks app marked s in
      let polled = poll env tcp_ticks app t.0 t.1 in
      let freed : Left W = (none, remove env tcp_ticks app t.0 (is_dead tcp_ticks t.0) t.1) in
      let goes = gave_up pcb || is_stale tcp_ticks t.0 || is_dead tcp_ticks t.0 in
      let live : Left W = if goes then freed else polled in
      let keeps =
        KeepsIfAny-trans marked t.0 polled.0 (run_timers-Keeps marked s) (poll-Keeps t.0 t.1) in
      if_elim (λ (r : Left W). KeepsIfAny marked r.0) (pcb.last_timer == tcp_timer_ctr)
        (some pcb, s) live (λ h. absurd (cc (h, unseen)))
        (λ h.
          if_elim (λ (r : Left W). KeepsIfAny marked r.0) goes freed polled (λ g. tt) (λ g. keeps))

  send_delayed-Keeps :
      (pcb : Pcb) (s : Buffers W) → KeepsTimes pcb (send_delayed env tcp_ticks app pcb s).0
  unfolding send_delayed
  send_delayed-Keeps pcb s =
      let out = output env tcp_ticks false (ack_now pcb) s in
      if_elim (λ (r : Pcb × Buffers W). KeepsTimes pcb r.0) pcb.flags.ack_delay
        (set_ack_flags out.1 false, out.2) (pcb, s)
        (λ h. output-Keeps env tcp_ticks false (ack_now pcb) s) (λ h. (refl, refl, refl))

  report_closed-Keeps :
      (pcb : Pcb) (s : Buffers W) → KeepsTimes pcb (report_closed env tcp_ticks app pcb s).1
  unfolding report_closed
  report_closed-Keeps pcb s =
      leaves.recv_keeps
        (record pcb { rcv_wnd = if pcb.rcv_wnd == tcp_wnd then pcb.rcv_wnd else pcb.rcv_wnd + 1 })
        [] ok s

  after_refused-Keeps :
      (refused : Chain) (pcb : Pcb) (r : Err × Pcb × Buffers W)
      → KeepsTimes pcb r.1
      → KeepsTimes pcb (after_refused env tcp_ticks app refused r).1
  after_refused-Keeps refused pcb (err, p, s) h =
      let r = report_closed env tcp_ticks app p s in
      let told : Err × Pcb × Buffers W = (if is_abrt r.0 then abrt else ok, r.1, r.2) in
      let taken : Err × Pcb × Buffers W =
        if has_fin env tcp_ticks app refused then told else (ok, p, s) in
      let kept : Err × Pcb × Buffers W = (in_progress, record p { refused_data = refused }, s) in
      let failed : Err × Pcb × Buffers W = if is_abrt err then (abrt, p, s) else kept in
      let P = λ (r : Err × Pcb × Buffers W). KeepsTimes pcb r.1 in
      if_elim P (is_ok err) taken failed
        (λ o.
          if_elim P (has_fin env tcp_ticks app refused) told (ok, p, s)
            (λ f. KeepsTimes-trans pcb p r.1 h (report_closed-Keeps p s)) (λ f. h))
        (λ o. if_elim P (is_abrt err) (abrt, p, s) kept (λ a. h) (λ a. h))

  -- The same for `tcp_fasttmr`.
  pub fast_active-Keeps :
      (tcp_timer_ctr : ℕ) (pcb : Pcb) (s : Buffers W)
      → (pcb.last_timer == tcp_timer_ctr) ≡ false
      → KeepsIfAny
          (record pcb { last_timer = tcp_timer_ctr })
          (fast_active env tcp_ticks app tcp_timer_ctr pcb s).0
  unfolding fast_active process_refused_data
  fast_active-Keeps tcp_timer_ctr pcb s unseen =
      let marked = record pcb { last_timer = tcp_timer_ctr } in
      let d = send_delayed env tcp_ticks app marked s in
      let taken = record d.0 { refused_data = [] } in
      let got = app.recv taken d.0.refused_data ok d.1 in
      let p = after_refused env tcp_ticks app d.0.refused_data got in
      let k = send_delayed-Keeps marked s in
      let keeps = KeepsTimes-trans marked d.0 p.1 k (
        after_refused-Keeps d.0.refused_data d.0 got
          (leaves.recv_keeps taken d.0.refused_data ok d.1)) in
      let refused : Left W = if is_abrt p.0 then (none, p.2) else (some p.1, p.2) in
      let live : Left W = if is_empty d.0.refused_data then (some d.0, d.1) else refused in
      let P = λ (r : Left W). KeepsIfAny marked r.0 in
      if_elim P (pcb.last_timer == tcp_timer_ctr) (some pcb, s) live (λ h. absurd (cc (h, unseen)))
        (λ h.
          if_elim P (is_empty d.0.refused_data) (some d.0, d.1) refused (λ e. k)
            (λ e. if_elim P (is_abrt p.0) (none, p.2) (some p.1, p.2) (λ a. tt) (λ a. keeps)))
