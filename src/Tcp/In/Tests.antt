-- ===== src/Tcp/In/Tests.antt =====
-- Runs of the processing of incoming segments on a concrete control block.
use rudp.Tcp.In.Inseg.Trim.{trim_front-drop}
use rudp.Tcp.In.Ooseq.{data_end, dequeue}
use rudp.Tcp.Conn.Alloc.{oldest}
use rudp.Tcp.In.Input.{find_active}
use rudp.Tcp.In.Receive.{receive, nothing}
use rudp.Pbuf.{ram, bytes}
use rudp.Tcp.In.Inseg.{trim_front}
use rudp.Tcp.In.Ooseq.Dequeue.{IsWhole, dequeue-Dequeued, Dequeued}
use rudp.Pbuf.Alloc.{new_pbuf}
use rudp.Tcp.In.Process.{note_arrival, after_data}
use rudp.Tcp.In.Input.Find.{find_active-Found, Found}
use rudp.Tcp.Conn.Alloc.Oldest.{oldest-IsOldest, IsOldest}
use rudp.Tcp.In.Process.Rfc.{end_state}
use rudp.Tcp.Options.{OptBytes}
use rudp.Tcp.Types.{time_wait, no_hdr_flags, fin_wait_1, tcplen, Seg, Pcb}
use rudp.Prelude.{drop, ◌≡◌, ◌+◌, replicate, arith, refl, ◌∷◌, none, [], true, ℕ}
use rudp.Tcp.Samples.{idle, busy, seg_at, world, bufs}

-- A segment without its header: `n` bytes of data from the number `seqno` on.
abbrev data_at : (seqno n : ℕ) → Seg
data_at seqno n = record (seg_at seqno) {
  p = new_pbuf ram (replicate (20 + n) 7) 20 n n ∷ [];
  len = n;
}

-- The connection once the FIN is sent, and all data in front of it is acknowledged.
abbrev fin_sent : Pcb
fin_sent = record busy {
  state = fin_wait_1;
  unsent = [];
  unacked = seg_at 23 ∷ [];
  lastack = 23;
  snd_nxt = 24;
}

-- The FIN of the other side, which acknowledges the own one.
abbrev fin_ack : Seg
fin_ack = record (data_at 100 0) {
  tcphdr = record (data_at 100 0).tcphdr {
    ackno = 24;
    flags = record no_hdr_flags { ack = true; fin = true };
  };
}

abbrev no_opts : OptBytes
no_opts = record { opt1 = λ n. 0; opt1len = 0; opt2 = none }

dequeue-Dequeued_example :
    Dequeued
      (data_at 100 10 ∷ data_at 110 5 ∷ data_at 120 5 ∷ [])
      busy
      nothing
      (dequeue world (data_at 100 10 ∷ data_at 110 5 ∷ data_at 120 5 ∷ []) busy nothing bufs).0
      (dequeue world (data_at 100 10 ∷ data_at 110 5 ∷ data_at 120 5 ∷ []) busy nothing bufs).1
unfolding tcplen
dequeue-Dequeued_example =
    dequeue-Dequeued world (data_at 100 10 ∷ data_at 110 5 ∷ data_at 120 5 ∷ []) busy nothing bufs
      (
        ((refl, omega arith, omega arith, tt), refl),
        (
          ((refl, omega arith, omega arith, tt), refl),
          (((refl, omega arith, omega arith, tt), refl), tt),
        ),
      )
      tt (omega arith) (omega arith) (omega arith) (omega arith)

trim_front-drop_example :
    (bytes (trim_front (data_at 4294967290 20) 4).p ≡ drop 10 (bytes (data_at 4294967290 20).p))
    × ((trim_front (data_at 4294967290 20) 4).tcphdr.seqno ≡ 4)
    × (data_end (trim_front (data_at 4294967290 20) 4) ≡ data_end (data_at 4294967290 20))
    × IsWhole (trim_front (data_at 4294967290 20) 4)
trim_front-drop_example =
    trim_front-drop (data_at 4294967290 20) 4 ((refl, omega arith, omega arith, tt), refl)
      (omega arith) (omega arith) (omega arith) (omega arith)

find_active-Found_example :
    Found fin_ack.tcphdr (fin_sent ∷ []) (find_active fin_ack.tcphdr (fin_sent ∷ []))
find_active-Found_example = find_active-Found fin_ack.tcphdr (fin_sent ∷ [])

oldest-IsOldest_example :
    IsOldest 9
      (λ pcb. true)
      0
      none
      0
      (busy ∷ fin_sent ∷ [])
      (oldest 9 (λ pcb. true) 0 none 0 (busy ∷ fin_sent ∷ []))
oldest-IsOldest_example = oldest-IsOldest 9 (λ pcb. true) 0 none 0 (busy ∷ fin_sent ∷ [])

-- The segment ends the connection on both sides.
fin_ack_run :
    (end_state (
        after_data world 7 idle fin_wait_1 fin_ack
          (receive world 7 (note_arrival world 7 idle fin_sent fin_ack no_opts) fin_ack bufs))
      ≡ time_wait)
unfolding after_data receive note_arrival
fin_ack_run = refl
