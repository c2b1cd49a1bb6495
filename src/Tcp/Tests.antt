-- ===== src/Tcp/Tests.antt =====
-- Runs of the TCP code on a concrete control block.
use rudp.Pbuf.{ram, ip}
use rudp.Pbuf.Alloc.{alloc}
use rudp.Prelude.{
  max, ℕ, refl, ◌≡◌, ◌+◌, ◌*◌, ◌≤◌, ◌/◌, ◌%◌, List, [], ◌∷◌, ◌++◌, none, some, ◌⊎◌, true, false,
  arith, if◌then◌else◌, ltb, All,
}
use rudp.Prelude.Int.{pos}
use rudp.Tcp.Seq.{
  u32_mod, seq_lt, seq_leq, seq_gt, seq_geq, seq_between, seq_order, seq_between-window,
}
use rudp.Tcp.Samples.{recorded-Records, no_packets, recorded, busy, world, bufs, ack_of_first}
use rudp.Tcp.Types.{Seg, no_hdr_flags}
use rudp.Tcp.RcvWnd.{update_rcv_ann_wnd, update_rcv_ann_wnd-Announced, Announced, StandsAt}
use rudp.Tcp.Recved.{is_due, recved, recved-Opened, Opened}
use rudp.Tcp.Out.Rexmit.{rexmit_rto}
use rudp.Tcp.Out.Conserve.{held-rexmit_rto}
use rudp.Tcp.Out.Order.{rexmit_rto_sorted}
use rudp.Tcp.Options.{OptBytes, getoptbyte, parseopt}
use rudp.Tcp.Options.Total.{parseopt-Parsed, Parsed, parseopt-Agree}
use rudp.Tcp.Options.Encode.{parseopt-encode_all, nop, mss, other, encode_all, one_piece}
use rudp.Tcp.Ports.{new_port, new_port_free, contains}
use rudp.Tcp.Out.Conserve.{held, held-output}
use rudp.Tcp.Out.Output.{output}
use rudp.Tcp.Out.Order.{output_sorted, SortedQueues}
use rudp.Tcp.Out.Sent.{Acks, wants_ack, Sends}
use rudp.Tcp.Out.Window.{output-Sends, rexmit_fast_windows}
use rudp.Tcp.Out.Rexmit.{rexmit_fast}
use rudp.Tcp.Out.Enqueue.{enqueue_flags}
use rudp.Tcp.Out.Queue.{enqueue_flags-Enqueued, Enqueued}
use rudp.Tcp.In.Rtt.{rtt_update, rtt_update_jacobson}
use rudp.Tcp.In.Ack.{receive_ack, remove_unacked, seg_end}
use rudp.Tcp.In.Ack.Accounts.{Balanced, receive_ack-Balanced}
use rudp.Tcp.In.Ack.Conserved.{held-receive_ack, remove_unacked_front, Unacknowledged}

seq_order_example :
    (seq_lt (4294967290 % u32_mod) (4294967300 % u32_mod) ≡ true)
    × (seq_leq (4294967290 % u32_mod) (4294967300 % u32_mod) ≡ true)
    × (seq_gt (4294967290 % u32_mod) (4294967300 % u32_mod) ≡ false)
    × (seq_geq (4294967290 % u32_mod) (4294967300 % u32_mod) ≡ false)
seq_order_example = seq_order 4294967290 4294967300 (omega arith) (omega arith)

seq_between-window_example : seq_between 3 4294967290 ((4294967290 + 20) % u32_mod) ≡ true
seq_between-window_example =
    seq_between-window 3 4294967290 20 (omega arith) (omega arith) (omega arith)

busy-StandsAt : StandsAt busy 100 3000
busy-StandsAt = record {
  nxt_low = refl;
  edge_low = refl;
  wnd_le = omega arith;
  mss_lt = omega arith;
  edge_le = omega arith;
  nxt_le = omega arith;
}

update_rcv_ann_wnd-Announced_example : Announced busy 100 3000 (update_rcv_ann_wnd busy)
update_rcv_ann_wnd-Announced_example = update_rcv_ann_wnd-Announced busy 100 3000 busy-StandsAt

recved-Opened_example :
    let (pcb', s') = recved recorded 7 false (record busy { rcv_wnd = 3000 }) 2000 no_packets in
    let e = (alloc recorded.mem_malloc no_packets ip ((20 + 0 + 0) % 65536) ram).0 in
    Opened (is_due busy 100 3000 5000) false e pcb' 100 3000 5000 [] s'.heap
recved-Opened_example =
    recved-Opened recorded (λ w. w) recorded-Records 7 false (record busy { rcv_wnd = 3000 }) 100
      3000 2000 no_packets
      (record {
        nxt_low = refl;
        edge_low = refl;
        wnd_le = omega arith;
        mss_lt = omega arith;
        edge_le = omega arith;
        nxt_le = omega arith;
      })
      (omega arith) (omega arith)

abbrev zeros : OptBytes
zeros = record { opt1len = 4; opt1 = λ i. 0; opt2 = none }

parseopt-Parsed_example : Parsed (parseopt zeros 6 536)
parseopt-Parsed_example =
    parseopt-Parsed zeros 6 536 (λ i. omega arith) (omega arith) (omega arith, omega arith)

-- The padding byte four times, with different bytes from the second one behind the options on.
abbrev ones : OptBytes
ones = record { opt1len = 4; opt1 = λ i. 1; opt2 = none }

abbrev ones_then : OptBytes
ones_then = record { opt1len = 4; opt1 = λ i. if ltb i 5 then 1 else 9; opt2 = none }

ones-agree : (i : ℕ) → i ≤ 4 → getoptbyte ones i ≡ getoptbyte ones_then i
ones-agree i h = ground arith

parseopt-Agree_example : parseopt ones 6 536 ≡ parseopt ones_then 6 536
parseopt-Agree_example = parseopt-Agree ones ones_then 6 536 ones-agree (omega arith)

parseopt-encode_all_example :
    parseopt (one_piece (encode_all (mss 100 ∷ nop ∷ other 8 (5 ∷ []) ∷ []) ++ [])) 7 536 ≡ some 100
parseopt-encode_all_example =
    parseopt-encode_all (mss 100 ∷ nop ∷ other 8 (5 ∷ []) ∷ []) [] 7 536 tt
      (omega arith, (tt, ((omega arith, omega arith), tt))) (omega arith) (omega arith) refl

new_port_free_example :
    let (r, tcp_port) = new_port (49153 ∷ []) 49152 in
    rudp.Tcp.Ports.InRange tcp_port
    × (((r ≡ 0) × ((q : ℕ) → rudp.Tcp.Ports.InRange q → contains q (49153 ∷ []) ≡ true))
        ⊎ (rudp.Tcp.Ports.InRange r × (contains r (49153 ∷ []) ≡ false)))
new_port_free_example = new_port_free (49153 ∷ []) 49152 (omega arith, omega arith)

held-output_example :
    let (err, pcb, s) = output world 7 false busy bufs in held pcb s ≡ held busy bufs
held-output_example = held-output world 7 false busy bufs

busy-SortedQueues : SortedQueues 4294967290 busy
busy-SortedQueues = (
  ((omega arith, omega arith), omega arith, ((omega arith, omega arith), omega arith, tt)),
  ((omega arith, omega arith), omega arith, tt),
)

output_sorted_example : SortedQueues 4294967290 (output world 7 false busy bufs).1
output_sorted_example =
    output_sorted world 7 4294967290 false busy bufs (omega arith) busy-SortedQueues

output-Sends_example :
    let (err, pcb, s) = output recorded 7 false busy no_packets in
    let (e, left) = alloc recorded.mem_malloc no_packets ip ((20 + 0 + 0) % 65536) ram in
    ((wants_ack busy ≡ false) × Sends busy busy.unsent (err, pcb) [] s.heap)
    ⊎ ((wants_ack busy ≡ true) × Acks busy e err pcb [] s.heap)
output-Sends_example = output-Sends recorded (λ w. w) recorded-Records 7 busy no_packets

rexmit_fast_windows_example :
    ((false ≡ true) × (rexmit_fast busy ≡ busy))
    ⊎ ((false ≡ false)
        × ((rexmit_fast busy).ssthresh ≡ max (2000 / 2) (2 * 536))
        × ((rexmit_fast busy).cwnd ≡ (rexmit_fast busy).ssthresh + 3 * 536)
        × ((rexmit_fast busy).flags.infr ≡ true))
rexmit_fast_windows_example = rexmit_fast_windows busy (omega arith) (omega arith)

enqueue_flags-Enqueued_example :
    Enqueued busy
      (record no_hdr_flags { fin = true })
      bufs
      (enqueue_flags world busy (record no_hdr_flags { fin = true }) bufs)
enqueue_flags-Enqueued_example =
    enqueue_flags-Enqueued world busy (record no_hdr_flags { fin = true }) bufs refl

rtt_update_jacobson_example :
    (rtt_update (pos 3) (pos 16) (pos 6) ≡ (pos 17, pos 6, pos 8))
    × (17 ≤ 8 * 4095)
    × (6 ≤ 4 * 4095)
    × (8 ≤ 5 * 4095)
rtt_update_jacobson_example =
    rtt_update_jacobson 4095 3 16 6 (omega arith) (omega arith) (omega arith) (omega arith)

busy-Balanced : Balanced 6432 busy
busy-Balanced = record {
  buffer = refl;
  total_lt = omega arith;
  sent = omega arith;
  lastack_lt = omega arith;
  snd_lbb_lt = omega arith;
  snd_nxt_lt = omega arith;
}

receive_ack-Balanced_example : Balanced 6432 (receive_ack world 7 busy ack_of_first bufs).0
receive_ack-Balanced_example =
    receive_ack-Balanced world 7 6432 busy ack_of_first bufs (omega arith) busy-Balanced

held-receive_ack_example :
    let (pcb, s) = receive_ack world 7 busy ack_of_first bufs in held pcb s ≡ held busy bufs
held-receive_ack_example = held-receive_ack world 7 busy ack_of_first bufs

remove_unacked_front_example :
    let ys = (remove_unacked world 7 busy.unacked busy 4 bufs).0.unacked in
    (xs : List Seg) × (busy.unacked ≡ xs ++ ys)
    × All (λ g. seq_leq (seg_end g) 4 ≡ true) xs
    × Unacknowledged world 7 4 ys
remove_unacked_front_example = remove_unacked_front world 7 busy.unacked busy 4 bufs refl

held-rexmit_rto_example :
    let (pcb, s) = rexmit_rto world 7 false busy bufs in held pcb s ≡ held busy bufs
held-rexmit_rto_example = held-rexmit_rto world 7 false busy bufs

rexmit_rto_sorted_example : SortedQueues 4294967290 (rexmit_rto world 7 false busy bufs).0
rexmit_rto_sorted_example = rexmit_rto_sorted world 7 4294967290 false busy bufs (omega arith) (
  (omega arith, omega arith),
  omega arith,
  ((omega arith, omega arith), omega arith, ((omega arith, omega arith), omega arith, tt)),
)
