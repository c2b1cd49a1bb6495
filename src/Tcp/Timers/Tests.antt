-- ===== src/Tcp/Timers/Tests.antt =====
-- Runs of the timers on a concrete control block.
use rudp.Tcp.Timers.{msl_ticks}
use rudp.Tcp.Timers.Stale.{run-frees}
use rudp.Tcp.Types.{last_ack, Pcb}
use rudp.Tcp.Timers.Tick.{run, Clock}
use rudp.Tcp.Timers.Run.{LeavesTimes}
use rudp.Prelude.{arith, inr, ◌≡◌, refl, none, some}
use rudp.Tcp.Samples.{idle, busy, world, bufs}

idle-LeavesTimes : LeavesTimes idle
idle-LeavesTimes = record {
  recv_keeps = λ pcb p err s. (refl, refl, refl);
  poll_keeps = λ pcb s. (refl, refl, refl);
}

-- A connection that waits for the last acknowledgement, with data still to be sent.
abbrev leaving : Pcb
leaving = record busy { state = last_ack; last_timer = 255; tmr = 4294967295 }

abbrev noon : Clock
noon = record { tcp_ticks = 4294967295; tcp_timer_ctr = 255; tcp_timer = 4 }

run-frees_example : (run world idle 500 noon (some leaving, bufs)).0 ≡ none
run-frees_example =
    run-frees world idle idle-LeavesTimes last_ack msl_ticks 500 noon leaving bufs
      (inr (refl, refl)) (omega arith, omega arith) refl refl refl (omega arith)
