-- ===== src/Tcp/Timers/Stale.antt =====
-- How `tcp_tmr` of src/tcp.c frees a connection that hears nothing.
use rudp.Pbuf.Alloc.{Buffers}
use rudp.Tcp.Timers.Run.{
  run_timers-Keeps, slow_active-Keeps, fast_active-Keeps, KeepsIfAny, LeavesTimes,
}
use rudp.Tcp.Conn.{age}
use rudp.Pbuf.{u8_mod}
use rudp.Tcp.Seq.{seq_sub, u32_mod}
use rudp.Tcp.App.{App}
use rudp.Tcp.Types.{last_ack, syn_rcvd, Pcb, TcpState}
use rudp.Tcp.Timers.{
  gave_up, is_dead, remove, poll, run_timers, fast_active, slow_active, msl_ticks, Left, wait_ticks,
  is_stale,
}
use rudp.Tcp.Timers.Tick.{
  is_slow, next_clock, tcp_tmr, run, slow_clock, slowtmr, fast_clock, fasttmr, Clock,
}
use rudp.Tcp.Env.{Env}
use rudp.Prelude.{
  Bool-clash, or_of_left, or_of_right, if_elim_both, if◌then◌else◌, ◌||◌, zero, ◌≤◌, if_elim, ◌-◌,
  ◌*◌, sym, subst, suc, ◌∙◌, none, refl, inr, arith, lt→ltb, ==_iff, inl, some, Bool-cases, false,
  ◌%◌, ◌⊎◌, true, ◌+◌, ◌==◌, ◌≡◌, Option, ◌<◌, ℕ,
}

-- How long, in ticks, a connection in the state `st` may hear nothing.
abbrev pub TimeLimit : TcpState → ℕ → Type 0
TimeLimit st limit =
    ((st ≡ syn_rcvd) × (limit ≡ wait_ticks)) ⊎ ((st ≡ last_ack) × (limit ≡ msl_ticks))

limit-is_stale :
    (st : TcpState) (limit tcp_ticks : ℕ) (pcb : Pcb)
    → TimeLimit st limit
    → pcb.state ≡ st
    → limit < age tcp_ticks pcb
    → is_stale tcp_ticks pcb ≡ true
unfolding is_stale
limit-is_stale st limit tcp_ticks pcb (inl (a, b)) e h =
    rw (e, a, lt→ltb wait_ticks (age tcp_ticks pcb) (omega (arith, b, h))) (refl)
limit-is_stale st limit tcp_ticks pcb (inr (a, b)) e h =
    rw (e, a, lt→ltb msl_ticks (age tcp_ticks pcb) (omega (arith, b, h))) (refl)

-- The control block, if it is there, is in the state `st`, was seen by the last timer, and has `d`
-- more ticks to reach its limit.
abbrev pub Waits : (st : TcpState) → (limit tcp_ticks tcp_timer_ctr d : ℕ) → Option Pcb → Type 0
Waits st limit tcp_ticks tcp_timer_ctr d none = Unit {0}
Waits st limit tcp_ticks tcp_timer_ctr d (some pcb) =
    (pcb.state ≡ st)
    × (pcb.last_timer ≡ tcp_timer_ctr)
    × (pcb.tmr < u32_mod)
    × (limit < age tcp_ticks pcb + d)
    × (age tcp_ticks pcb + d < u32_mod)

-- The counters are in the range of their types.
abbrev pub InBounds : Clock → Type 0
InBounds c = (c.tcp_ticks < u32_mod) × (c.tcp_timer_ctr < u8_mod)

counted : (n : ℕ) → n < u8_mod → (n == (n + 1) % u8_mod) ≡ false
counted n h = elim (Bool-cases (n == (n + 1) % u8_mod)) [
  | inl e ↦ let same : n ≡ (n + 1) % u8_mod = (==_iff _ _).0 e in absurd (omega arith)
  | inr e ↦ e
]

-- A control block that is left with its times waits on.
Waits-kept :
    (st : TcpState) (limit tcp_ticks tcp_timer_ctr d : ℕ) (pcb : Pcb) (o : Option Pcb)
    → KeepsIfAny (record pcb { last_timer = tcp_timer_ctr }) o
    → pcb.state ≡ st
    → pcb.tmr < u32_mod
    → limit < age tcp_ticks pcb + d
    → age tcp_ticks pcb + d < u32_mod
    → Waits st limit tcp_ticks tcp_timer_ctr d o
Waits-kept st limit tcp_ticks tcp_timer_ctr d pcb none k e t l u = tt
Waits-kept st limit tcp_ticks tcp_timer_ctr d pcb (some left) k e t l u = (
  k.0 ∙ e,
  k.2,
  omega (arith, k.1, t),
  subst (λ m. limit < seq_sub tcp_ticks m + d) (sym (k.1)) l,
  subst (λ m. seq_sub tcp_ticks m + d < u32_mod) (sym (k.1)) u,
)

limit_small : (st : TcpState) (limit : ℕ) → TimeLimit st limit → limit < 1000
limit_small st limit (inl (a, b)) = omega (arith, b)
limit_small st limit (inr (a, b)) = omega (arith, b)

slow_odd : (n : ℕ) → ((n + 1) % u8_mod % 2 == 1) ≡ true → (n + 1) % 2 ≡ 1
slow_odd n h = let e : (n + 1) % u8_mod % 2 ≡ 1 = (==_iff _ _).0 h in omega arith

slow_even : (n : ℕ) → ((n + 1) % u8_mod % 2 == 1) ≡ false → (n + 1) % 2 ≡ 0
slow_even n h = ground arith

module _ {W : Type 0} (env : Env W) (app : App W) (leaves : LeavesTimes app) where
  fasttmr-Waits :
      (st : TcpState) (limit : ℕ) (c : Clock) (d : ℕ) (l : Left W)
      → InBounds c
      → Waits st limit c.tcp_ticks c.tcp_timer_ctr d l.0
      → Waits st limit
          (fast_clock c).tcp_ticks
          (fast_clock c).tcp_timer_ctr
          d
          (fasttmr env app c l).0
  unfolding fasttmr
  fasttmr-Waits st limit c d (none, s) b w = tt
  fasttmr-Waits st limit c d (some pcb, s) b w =
      let ctr = (c.tcp_timer_ctr + 1) % u8_mod in
      let unseen : (pcb.last_timer == ctr) ≡ false = rw (w.1) (counted c.tcp_timer_ctr b.1) in
      Waits-kept st limit (fast_clock c).tcp_ticks (fast_clock c).tcp_timer_ctr d pcb
        (fast_active env c.tcp_ticks app ctr pcb s).0
        (fast_active-Keeps env c.tcp_ticks app leaves ctr pcb s unseen) w.0 w.2 w.3 w.4

  slow_active-none :
      (st : TcpState) (limit tcp_ticks ctr : ℕ) (pcb : Pcb) (s : Buffers W)
      → TimeLimit st limit
      → (pcb.last_timer == ctr) ≡ false
      → pcb.state ≡ st
      → limit < age tcp_ticks pcb
      → (slow_active env tcp_ticks app ctr pcb s).0 ≡ none
  unfolding slow_active
  slow_active-none st limit tcp_ticks ctr pcb s tl unseen e h =
      let marked = record pcb { last_timer = ctr } in
      let t = run_timers env tcp_ticks app marked s in
      let k = run_timers-Keeps env tcp_ticks app leaves marked s in
      let polled = poll env tcp_ticks app t.0 t.1 in
      let freed : Left W = (none, remove env tcp_ticks app t.0 (is_dead tcp_ticks t.0) t.1) in
      let goes = gave_up pcb || is_stale tcp_ticks t.0 || is_dead tcp_ticks t.0 in
      let live : Left W = if goes then freed else polled in
      let stale : is_stale tcp_ticks t.0 ≡ true =
        limit-is_stale st limit tcp_ticks t.0 tl (k.0 ∙ e)
          (subst (λ m. limit < seq_sub tcp_ticks m) (sym (k.1)) h) in
      let P = λ (r : Left W). r.0 ≡ none in
      if_elim P (pcb.last_timer == ctr) (some pcb, s) live
        (λ seen. Bool-clash (pcb.last_timer == ctr) seen unseen)
        (λ u.
          if_elim P goes freed polled (λ g. refl)
            (λ g.
              Bool-clash goes (or_of_left (is_dead tcp_ticks t.0) (or_of_right (gave_up pcb) stale))
                g))

  -- One more tick.
  slowtmr-Waits :
      (st : TcpState) (limit : ℕ) (c : Clock) (d : ℕ) (l : Left W)
      → TimeLimit st limit
      → InBounds c
      → Waits st limit c.tcp_ticks c.tcp_timer_ctr (suc d) l.0
      → Waits st limit
          (slow_clock c).tcp_ticks
          (slow_clock c).tcp_timer_ctr
          d
          (slowtmr env app c l).0
        × (d ≡ 0 → (slowtmr env app c l).0 ≡ none)
  unfolding slowtmr
  slowtmr-Waits st limit c d (none, s) tl b w = (tt, λ z. refl)
  slowtmr-Waits st limit c d (some pcb, s) tl b w =
      let ctr = (c.tcp_timer_ctr + 1) % u8_mod in
      let ticks = (c.tcp_ticks + 1) % u32_mod in
      let unseen : (pcb.last_timer == ctr) ≡ false = rw (w.1) (counted c.tcp_timer_ctr b.1) in
      let older : age ticks pcb ≡ age c.tcp_ticks pcb + 1 = omega (arith, b.0, w.2, w.4) in
      (
        Waits-kept st limit (slow_clock c).tcp_ticks (slow_clock c).tcp_timer_ctr d pcb
            (slow_active env ticks app ctr pcb s).0
            (slow_active-Keeps env ticks app leaves ctr pcb s unseen) w.0 w.2
            (omega (arith, older, w.3)) (omega (arith, older, w.4)),
        λ z. slow_active-none st limit ticks ctr pcb s tl unseen w.0 (omega (arith, older, w.3, z)),
      )

  -- A control block that is freed stays so.
  run-none : (n : ℕ) (c : Clock) (l : Left W) → l.0 ≡ none → (run env app n c l).0 ≡ none
  unfolding run tcp_tmr fasttmr slowtmr
  run-none zero c l e = e
  run-none (suc n) c (some pcb, s) e = absurd (cc e)
  run-none (suc n) c (none, s) e =
      run-none n (next_clock c) (tcp_tmr env app c (none, s)) (
        if_elim (λ (l : Left W). l.0 ≡ none) (is_slow c) (none, s) (none, s) (λ h. refl)
          (λ h. refl))

  run-Waits :
      (st : TcpState) (limit n d : ℕ) (c : Clock) (l : Left W)
      → TimeLimit st limit
      → InBounds c
      → Waits st limit c.tcp_ticks c.tcp_timer_ctr (suc d) l.0
      → 2 * d + 2 - (c.tcp_timer + 1) % 2 ≤ n
      → (run env app n c l).0 ≡ none
  unfolding run tcp_tmr
  run-Waits st limit zero d c l tl b w h = absurd (omega (arith, h))
  run-Waits st limit (suc n) d c l tl b w h =
      let f = fasttmr env app c l in
      let x = slowtmr env app (fast_clock c) f in
      let b' : InBounds (fast_clock c) = (b.0, omega arith) in
      let fast = fasttmr-Waits st limit c (suc d) l b w in
      let slow = slowtmr-Waits st limit (fast_clock c) d f tl b' fast in
      let sc = record (slow_clock (fast_clock c)) { tcp_timer = (c.tcp_timer + 1) % u8_mod } in
      let fc = record (fast_clock c) { tcp_timer = (c.tcp_timer + 1) % u8_mod } in
      if_elim_both (λ c' l'. (run env app n c' l').0 ≡ none) (is_slow c) sc fc x f
        (λ s.
          elim d
              as (λ d.
                Waits st limit sc.tcp_ticks sc.tcp_timer_ctr d x.0 × (d ≡ 0 → x.0 ≡ none)
                → 2 * d + 2 - (c.tcp_timer + 1) % 2 ≤ suc n
                → (run env app n sc x).0 ≡ none) [
                  | zero ↦ λ now g. run-none n sc x (now.1 refl)
                  | suc d' ↦ λ now g.
                      run-Waits st limit n d' sc x tl (omega arith, omega arith) now.0
                        (omega (arith, g, slow_odd c.tcp_timer s))
                ]
            slow h)
        (λ q.
          run-Waits st limit n d fc f tl (b.0, omega arith) fast
            (omega (arith, h, slow_even c.tcp_timer q)))

  -- If the callbacks that the timers call for data and for polling leave the state and the times of
  -- the control block alone, and no segment arrives, a connection in SYN_RCVD or LAST_ACK that has
  -- heard a segment in this tick, and that the last timer has seen, is freed by the calls of
  -- `tcp_tmr`: it is gone after twice as many calls as its limit has ticks, and two, and stays so,
  -- whatever its other timers do and however memory runs out.
  pub run-frees :
      (st : TcpState) (limit n : ℕ) (c : Clock) (pcb : Pcb) (s : Buffers W)
      → TimeLimit st limit
      → InBounds c
      → pcb.state ≡ st
      → pcb.last_timer ≡ c.tcp_timer_ctr
      → pcb.tmr ≡ c.tcp_ticks
      → 2 * (limit + 1) ≤ n
      → (run env app n c (some pcb, s)).0 ≡ none
  run-frees st limit n c pcb s tl b e m t h =
      let small : limit < 1000 = limit_small st limit tl in
      let young : age c.tcp_ticks pcb ≡ 0 = omega (arith, t, b.0) in
      run-Waits st limit n limit c (some pcb, s) tl b
        (e, m, omega (arith, t, b.0), omega (arith, young), omega (arith, young, small))
        (omega (arith, h))
