-- ===== src/Tcp/In/Ack/Conserved.antt =====
-- That the acknowledgement processing of src/tcp_in.c frees exactly the segments that it takes off
-- the queues, and takes off those that are acknowledged.
use rudp.Prelude.{
  subst, ℕ, ◌+◌, ◌%◌, ◌≡◌, refl, sym, ap, ◌∙◌, true, false, not, ◌&&◌, ◌||◌, List, [], ◌∷◌, ◌++◌,
  ltb, if◌then◌else◌, ◌==◌, arith, length, Bool-cases, inl, inr, All,
}
use rudp.Pbuf.Alloc.{Buffers}
use rudp.Tcp.Seq.{u32_mod, seq_lt, seq_leq, seq_between}
use rudp.Tcp.Types.{Pcb, Seg}
use rudp.Tcp.Env.{Env}
use rudp.Tcp.Segs.{seg_free, seg_free-free_segs}
use rudp.Tcp.Out.Make.{is_empty}
use rudp.Tcp.Out.Rexmit.{rexmit_fast, rexmit, requeue_first}
use rudp.Tcp.Out.Conserve.{held, length-insert_seg, held-send_empty_ack}
use rudp.Tcp.In.Ack.{
  Incoming, update_window, old_ack, new_ack, remove_unacked, remove_unsent, estimate_rtt, ack_cases,
  receive_ack, forget, seg_end, newer_wnd, is_dupack, count_dupack,
}

held-update_window :
    {W : Type 0} (pcb : Pcb) (i : Incoming) (s : Buffers W)
    → held (update_window pcb i) s ≡ held pcb s
unfolding update_window
held-update_window pcb i s = elim (Bool-cases (newer_wnd pcb i)) [
  | inl newer ↦ rw newer refl
  | inr older ↦ rw older refl
]

held-requeue_first :
    {W : Type 0} (segs : List Seg) (pcb : Pcb) (s : Buffers W)
    → pcb.unacked ≡ segs
    → held (requeue_first segs pcb) s ≡ held pcb s
unfolding requeue_first
held-requeue_first [] pcb s e = refl
held-requeue_first (seg ∷ rest) pcb s e =
    omega (arith, ap length e, length-insert_seg pcb.unsent seg)

held-old_ack :
    {W : Type 0} (pcb : Pcb) (i : Incoming) (edge : ℕ) (s : Buffers W)
    → held (old_ack pcb i edge) s ≡ held pcb s
unfolding old_ack rexmit_fast rexmit
held-old_ack pcb i edge s =
    let counted = record pcb { acked = 0; dupacks = count_dupack pcb.dupacks } in
    elim (Bool-cases (not (is_dupack pcb i edge))) [
      | inl no_dup ↦ rw no_dup refl
      | inr dup ↦ elim (Bool-cases (ltb 3 (count_dupack pcb.dupacks))) [
        | inl many ↦ rw (dup, many) refl
        | inr few ↦ elim (Bool-cases (count_dupack pcb.dupacks == 3)) [
          | inl three ↦ elim (Bool-cases (is_empty pcb.unacked || pcb.flags.infr)) [
            | inl off ↦ rw (dup, few, three, off) refl
            | inr on ↦ rw (dup, few, three, on) (held-requeue_first pcb.unacked counted s refl)
          ]
          | inr less ↦ rw (dup, few, less) refl
        ]
      ]
    ]

module _ {W : Type 0} (env : Env W) (tcp_ticks : ℕ) where
  held-remove_unacked :
      (segs : List Seg) (pcb : Pcb) (ackno : ℕ) (s : Buffers W)
      → pcb.unacked ≡ segs
      → let (pcb', s') = remove_unacked env tcp_ticks segs pcb ackno s in held pcb' s' ≡ held pcb s
  unfolding remove_unacked
  held-remove_unacked [] pcb ackno s e = refl
  held-remove_unacked (seg ∷ rest) pcb ackno s e =
      let next = record (forget pcb seg) { unacked = rest } in
      elim (Bool-cases (seq_leq (seg_end seg) ackno)) [
        | inl gone ↦ rw gone (
            held-remove_unacked rest next ackno (seg_free env s seg) refl
            ∙ omega (arith, ap length e, seg_free-free_segs env s seg))
        | inr stays ↦ rw stays refl
      ]

  held-remove_unsent :
      (segs : List Seg) (pcb : Pcb) (ackno : ℕ) (s : Buffers W)
      → pcb.unsent ≡ segs
      → let (pcb', s') = remove_unsent env tcp_ticks segs pcb ackno s in held pcb' s' ≡ held pcb s
  unfolding remove_unsent
  held-remove_unsent [] pcb ackno s e = refl
  held-remove_unsent (seg ∷ rest) pcb ackno s e =
      let next = record (forget pcb seg) {
        unsent = rest;
        unsent_oversize = if is_empty rest then 0 else pcb.unsent_oversize;
      } in
      elim (Bool-cases (seq_between ackno (seg_end seg) pcb.snd_nxt)) [
        | inl gone ↦ rw gone (
            held-remove_unsent rest next ackno (seg_free env s seg) refl
            ∙ omega (arith, ap length e, seg_free-free_segs env s seg))
        | inr stays ↦ rw stays refl
      ]

  held-ack_cases :
      (pcb : Pcb) (i : Incoming) (edge : ℕ) (s : Buffers W)
      → let (pcb', s') = ack_cases env tcp_ticks pcb i edge s in held pcb' s' ≡ held pcb s
  unfolding ack_cases new_ack
  held-ack_cases pcb i edge s = elim (Bool-cases (seq_leq i.ackno pcb.lastack)) [
    | inl old ↦ rw old (held-old_ack pcb i edge s)
    | inr later ↦
        elim (Bool-cases (seq_between i.ackno ((pcb.lastack + 1) % u32_mod) pcb.snd_nxt)) [
          | inl fresh ↦
              rw (later, fresh) (held-remove_unacked pcb.unacked (new_ack pcb i) i.ackno s refl)
          | inr wild ↦
              rw (later, wild) (held-send_empty_ack env tcp_ticks (record pcb { acked = 0 }) s)
        ]
  ]

  held-estimate_rtt :
      (pcb : Pcb) (ackno : ℕ) (s : Buffers W)
      → held (estimate_rtt env tcp_ticks pcb ackno) s ≡ held pcb s
  unfolding estimate_rtt
  held-estimate_rtt pcb ackno s =
      elim (Bool-cases (not (pcb.rttest == 0) && seq_lt pcb.rtseq ackno)) [
        | inl ends ↦ rw ends refl
        | inr goes_on ↦ rw goes_on refl
      ]

  -- The processing of an acknowledgement keeps the number of segments that the queues and the pool
  -- hold together, on each of its branches: it frees exactly the segments that it removes.
  pub held-receive_ack :
      (pcb : Pcb) (i : Incoming) (s : Buffers W)
      → let (pcb', s') = receive_ack env tcp_ticks pcb i s in held pcb' s' ≡ held pcb s
  unfolding receive_ack
  held-receive_ack pcb i s =
      let edge = (pcb.snd_wnd + pcb.snd_wl2) % u32_mod in
      let (pcb1, s1) = ack_cases env tcp_ticks (update_window pcb i) i edge s in
      let (pcb2, s2) = remove_unsent env tcp_ticks pcb1.unsent pcb1 i.ackno s1 in
      held-estimate_rtt pcb2 i.ackno s2
      ∙ held-remove_unsent pcb1.unsent pcb1 i.ackno s1 refl
      ∙ held-ack_cases (update_window pcb i) i edge s
      ∙ held-update_window pcb i s

  -- The first of the segments is not yet acknowledged, if there is one.
  abbrev pub Unacknowledged : ℕ → List Seg → Type 0
  Unacknowledged ackno [] = Unit {0}
  Unacknowledged ackno (seg ∷ segs) = seq_leq (seg_end seg) ackno ≡ false

  -- The loop over the unacknowledged segments removes those from the front whose ends are
  -- acknowledged, and stops at the first other one.
  pub remove_unacked_front :
      (segs : List Seg) (pcb : Pcb) (ackno : ℕ) (s : Buffers W)
      → pcb.unacked ≡ segs
      → let ys = (remove_unacked env tcp_ticks segs pcb ackno s).0.unacked in
        (xs : List Seg) × (segs ≡ xs ++ ys)
        × All (λ g. seq_leq (seg_end g) ackno ≡ true) xs
        × Unacknowledged ackno ys
  unfolding remove_unacked
  remove_unacked_front [] pcb ackno s e = ([], sym e, tt, subst (Unacknowledged ackno) (sym e) tt)
  remove_unacked_front (seg ∷ rest) pcb ackno s e =
      let next = record (forget pcb seg) { unacked = rest } in
      elim (Bool-cases (seq_leq (seg_end seg) ackno)) [
        | inl gone ↦
            let (xs, p, a, u) = remove_unacked_front rest next ackno (seg_free env s seg) refl in
            rw gone (seg ∷ xs, ap (◌∷◌ seg) p, (gone, a), u)
        | inr stays ↦ rw stays ([], sym e, tt, subst (Unacknowledged ackno) (sym e) stays)
      ]
