-- ===== src/Tcp/Timers/Tick.antt =====
-- src/tcp.c: `tcp_tmr`, for one active control block that the callbacks leave on its list.
use rudp.Pbuf.{u8_mod}
use rudp.Tcp.Seq.{u32_mod}
use rudp.Tcp.Timers.{fast_active, slow_active, Left}
use rudp.Tcp.App.{App}
use rudp.Tcp.Env.{Env}
use rudp.Prelude.{none, zero, suc, some, ◌==◌, if◌then◌else◌, ◌%◌, Bool, ◌+◌, ℕ}

-- The counters of the timers: `tcp_ticks`, `tcp_timer_ctr` and `tcp_timer`.
pub record Clock : Type 0 where
  pub tcp_ticks : ℕ
  pub tcp_timer_ctr : ℕ
  pub tcp_timer : ℕ

-- The counters in the loop of `tcp_fasttmr`.
abbrev pub fast_clock : Clock → Clock
fast_clock c = record c { tcp_timer_ctr = (c.tcp_timer_ctr + 1) % u8_mod }

-- The counters in the loop of `tcp_slowtmr`.
abbrev pub slow_clock : Clock → Clock
slow_clock c = record c {
  tcp_ticks = (c.tcp_ticks + 1) % u32_mod;
  tcp_timer_ctr = (c.tcp_timer_ctr + 1) % u8_mod;
}

-- Whether `tcp_tmr` calls `tcp_slowtmr`.
abbrev pub is_slow : Clock → Bool
is_slow c = (c.tcp_timer + 1) % u8_mod % 2 == 1

-- The counters behind `tcp_tmr`.
abbrev pub next_clock : Clock → Clock
next_clock c =
    let fast = record (fast_clock c) { tcp_timer = (c.tcp_timer + 1) % u8_mod } in
    if is_slow c then slow_clock fast else fast

module _ {W : Type 0} (env : Env W) (app : App W) where
  -- `tcp_fasttmr`, and nothing once the control block is freed.
  unfoldable pub fasttmr : Clock → Left W → Left W
  unfolding fast_active
  fasttmr c (none, s) = (none, s)
  fasttmr c (some pcb, s) = fast_active env c.tcp_ticks app (fast_clock c).tcp_timer_ctr pcb s

  -- `tcp_slowtmr`.
  unfoldable pub slowtmr : Clock → Left W → Left W
  unfolding slow_active
  slowtmr c (none, s) = (none, s)
  slowtmr c (some pcb, s) =
      slow_active env (slow_clock c).tcp_ticks app (slow_clock c).tcp_timer_ctr pcb s

  -- `tcp_tmr`.
  unfoldable pub tcp_tmr : Clock → Left W → Left W
  unfolding fasttmr slowtmr
  tcp_tmr c l =
      let fast = fasttmr c l in
      let slow = slowtmr (fast_clock c) fast in if is_slow c then slow else fast

  -- As many calls of `tcp_tmr`.
  unfoldable pub run : ℕ → Clock → Left W → Left W
  unfolding tcp_tmr
  run zero c l = l
  run (suc n) c l = run n (next_clock c) (tcp_tmr c l)
