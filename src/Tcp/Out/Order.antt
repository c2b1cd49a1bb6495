-- ===== src/Tcp/Out/Order.antt =====
-- That the output and the retransmission of src/tcp_out.c keep the queues of segments sorted by
-- sequence number.
use rudp.Prelude.{
  ltb→le, ℕ, ◌+◌, ◌%◌, ◌≤◌, ◌<◌, ◌≡◌, refl, sym, ◌∙◌, Bool, true, false, not, ◌&&◌, ◌||◌, List, [],
  ◌∷◌, ◌++◌, Option, none, some, ltb, if◌then◌else◌, arith, Bool-cases, inl, inr, subst,
}
use rudp.Pbuf.{Chain, ip, ram, u16_mod}
use rudp.Pbuf.Alloc.{Buffers, alloc}
use rudp.Tcp.Seq.{u32_mod}
use rudp.Tcp.Types.{Pcb, Seg, TcpHdr, tcplen, tcp_hlen}
use rudp.Tcp.Env.{Env}
use rudp.Tcp.Segs.{seg_free}
use rudp.Tcp.Segs.Sorted.{dist, Near, SortedFrom, seq_lt-dist, insert_seg-from}
use rudp.Tcp.Out.Make.{is_empty, output_alloc_header, header_packet}
use rudp.Tcp.Out.Output.{
  output, output_loop, output_segment, send_empty_ack, finish_ack, add_unacked, sent, prepare,
  is_ok, fits, do_output_nagle, before_last,
}
use rudp.Tcp.Out.Rexmit.{rexmit, rexmit_rto, requeue_unacked, requeue_first}

-- Both queues are sorted by the distance from `base`.
abbrev pub SortedQueues : ℕ → Pcb → Type 0
SortedQueues base pcb = SortedFrom base 0 pcb.unsent × SortedFrom base 0 pcb.unacked

SortedFrom-lower :
    (base low low' : ℕ) (segs : List Seg)
    → low' ≤ low
    → SortedFrom base low segs
    → SortedFrom base low' segs
SortedFrom-lower base low low' [] h s = tt
SortedFrom-lower base low low' (seg ∷ segs) h (n, l, s) = (n, omega arith, s)

append_last :
    (base low : ℕ) (cur : Seg) (segs : List Seg) (seg : Seg)
    → base < u32_mod
    → SortedFrom base low (cur ∷ segs)
    → Near base seg
    → before_last (cur ∷ segs) seg ≡ false
    → SortedFrom base low (cur ∷ (segs ++ (seg ∷ [])))
append_last base low cur [] seg h (c, k, s) n e =
    let a = seq_lt-dist base seg cur h n c in
    (c, k, (n, ltb→le (dist base seg) (dist base cur) (sym a ∙ e), tt))
append_last base low cur (next ∷ segs) seg h (c, k, s) n e =
    (c, k, append_last base (dist base cur) next segs seg h s n e)

-- A sent segment joins the sorted queue of unacknowledged ones in its place.
pub add_unacked-SortedFrom :
    (base : ℕ) (segs : List Seg) (seg : Seg)
    → base < u32_mod
    → SortedFrom base 0 segs
    → Near base seg
    → SortedFrom base 0 (add_unacked segs seg)
unfolding add_unacked
add_unacked-SortedFrom base [] seg h s n = (n, omega arith, tt)
add_unacked-SortedFrom base (cur ∷ segs) seg h s n =
    elim (Bool-cases (before_last (cur ∷ segs) seg)) [
      | inl before ↦ rw before (insert_seg-from base 0 (cur ∷ segs) seg h s n (omega arith))
      | inr after ↦ rw after (append_last base 0 cur segs seg h s n after)
    ]

unacked_sorted :
    (base : ℕ) (pcb : Pcb) (seg : Seg) (rest : List Seg)
    → base < u32_mod
    → SortedFrom base 0 pcb.unacked
    → Near base seg
    → SortedFrom base 0 (sent pcb seg rest).unacked
unacked_sorted base pcb seg rest h s n = elim (Bool-cases (ltb 0 (tcplen seg))) [
  | inl long ↦ rw long (add_unacked-SortedFrom base pcb.unacked seg h s n)
  | inr short ↦ rw short s
]

module _ {W : Type 0} (env : Env W) (tcp_ticks : ℕ) where
  output_loop_sorted :
      (base : ℕ) (segs : List Seg) (pcb : Pcb) (s : Buffers W)
      → base < u32_mod
      → pcb.unsent ≡ segs
      → SortedFrom base 0 segs
      → SortedFrom base 0 pcb.unacked
      → SortedQueues base (output_loop env tcp_ticks segs pcb s).1
  unfolding output_loop output_segment
  output_loop_sorted base [] pcb s h e u a = (subst (SortedFrom base 0) (sym e) u, a)
  output_loop_sorted base (seg ∷ rest) pcb s h e (n, l, u) a =
      let (err, seg', pcb', s') = output_segment env tcp_ticks (prepare pcb seg) pcb s in
      let s2 = if ltb 0 (tcplen seg') then s' else seg_free env s' seg' in
      let low = SortedFrom-lower base (dist base seg) 0 rest (omega arith) u in
      elim (Bool-cases (
        not (fits pcb seg)
        || not (do_output_nagle pcb) && not (pcb.flags.nagle_mem_err || pcb.flags.fin))) [
          | inl stops ↦ rw stops (subst (SortedFrom base 0) (sym e) (n, l, u), a)
          | inr goes ↦ elim (Bool-cases (is_ok err)) [
            | inl fine ↦
                rw (goes, fine)
                  (output_loop_sorted base rest (sent pcb' seg' rest) s2 h refl low
                    (unacked_sorted base pcb' seg' rest h a n))
            | inr failed ↦ rw (goes, failed) ((n, l, u), a)
          ]
        ]

  header_packet_queues :
      (base : ℕ) (e : Option Chain) (pcb : Pcb) (optlen seqno : ℕ)
      → SortedQueues base pcb
      → SortedQueues base (header_packet e pcb optlen seqno).1
  header_packet_queues base none pcb optlen seqno q = q
  header_packet_queues base (some p) pcb optlen seqno q = q

  finish_ack_queues :
      (base : ℕ) (e : Option (TcpHdr × Chain)) (pcb : Pcb) (s : Buffers W)
      → SortedQueues base pcb
      → SortedQueues base (finish_ack env tcp_ticks e pcb s).1
  unfolding finish_ack
  finish_ack_queues base none pcb s q = q
  finish_ack_queues base (some (tcphdr, p)) pcb s q = q

  -- If the unsent and the unacknowledged segments are each sorted by their distance from `base`,
  -- and each less than 2^31 behind it, then so they are after `tcp_output`, on each of its
  -- branches, also when retransmitted segments join the unacknowledged ones in the middle.
  pub output_sorted :
      (base : ℕ) (is_input_pcb : Bool) (pcb : Pcb) (s : Buffers W)
      → base < u32_mod
      → SortedQueues base pcb
      → SortedQueues base (output env tcp_ticks is_input_pcb pcb s).1
  unfolding output send_empty_ack output_alloc_header
  output_sorted base true pcb s h q = q
  output_sorted base false pcb s h q =
      let ack_only : Bool = elim pcb.unsent [ [] ↦ true | seg ∷ rest ↦ not (fits pcb seg) ] in
      let (e, s') = alloc env.mem_malloc s ip ((tcp_hlen + 0 + 0) % u16_mod) ram in
      let (packet, pcb') = header_packet e pcb 0 pcb.snd_nxt in
      elim (Bool-cases (pcb.flags.ack_now && ack_only)) [
        | inl ack ↦ rw ack (
            finish_ack_queues base packet pcb' s' (header_packet_queues base e pcb 0 pcb.snd_nxt q))
        | inr segs ↦ rw segs (output_loop_sorted base pcb.unsent pcb s h refl q.0 q.1)
      ]

requeue_first_sorted :
    (base : ℕ) (segs : List Seg) (pcb : Pcb)
    → base < u32_mod
    → pcb.unacked ≡ segs
    → SortedFrom base 0 pcb.unsent
    → SortedFrom base 0 segs
    → SortedQueues base (requeue_first segs pcb)
unfolding requeue_first
requeue_first_sorted base [] pcb h e u a = (u, subst (SortedFrom base 0) (sym e) a)
requeue_first_sorted base (seg ∷ rest) pcb h e u (n, l, a) = (
  insert_seg-from base 0 pcb.unsent seg h u n (omega arith),
  SortedFrom-lower base (dist base seg) 0 rest (omega arith) a,
)

-- If the unsent and the unacknowledged segments are each sorted by their distance from `base`, and
-- each less than 2^31 behind it, then so they are after `tcp_rexmit`.
rexmit_sorted :
    (base : ℕ) (pcb : Pcb) → base < u32_mod → SortedQueues base pcb → SortedQueues base (rexmit pcb)
unfolding rexmit
rexmit_sorted base pcb h q = requeue_first_sorted base pcb.unacked pcb h refl q.0 q.1

SortedFrom-append :
    (base low : ℕ) (xs ys : List Seg)
    → SortedFrom base low (xs ++ ys)
    → SortedFrom base low xs × SortedFrom base low ys
SortedFrom-append base low [] ys s = (tt, s)
SortedFrom-append base low (x ∷ xs) ys (n, l, s) =
    let (a, b) = SortedFrom-append base (dist base x) xs ys s in
    ((n, l, a), SortedFrom-lower base (dist base x) low ys l b)

-- If the unacknowledged segments followed by the unsent ones are sorted by their distance from
-- `base`, and each less than 2^31 behind it, then both queues are sorted after `tcp_rexmit_rto`.
pub rexmit_rto_sorted :
    {W : Type 0} (env : Env W) (tcp_ticks base : ℕ) (is_input_pcb : Bool) (pcb : Pcb)
    (s : Buffers W)
    → base < u32_mod
    → SortedFrom base 0 (pcb.unacked ++ pcb.unsent)
    → SortedQueues base (rexmit_rto env tcp_ticks is_input_pcb pcb s).0
unfolding rexmit_rto requeue_unacked
rexmit_rto_sorted env tcp_ticks base is_input_pcb pcb s h q =
    elim (Bool-cases (is_empty pcb.unacked)) [
      | inl idle ↦ let (a, b) = SortedFrom-append base 0 pcb.unacked pcb.unsent q in rw idle (b, a)
      | inr busy ↦
          rw busy (output_sorted env tcp_ticks base is_input_pcb (requeue_unacked pcb) s h (q, tt))
    ]
