-- ===== src/Tcp/In/Process/After.antt =====
-- What `tcp_process` of src/tcp_in.c does once `tcp_receive` has received the segment, against the
-- state diagram of RFC 793.
use rudp.Tcp.Out.Output.{is_abrt}
use rudp.Tcp.In.Receive.Open.{StateKept, KeepsOpen}
use rudp.Tcp.In.Process.Rfc.{
  rcv_fin_closing, rcv_ack_closing, rcv_ack_last, rcv_ack_of_fin, rcv_fin_after_ack, rcv_fin, along,
  here, end_state, AcksFin, Arrows,
}
use rudp.Tcp.In.Receive.{Received}
use rudp.Tcp.In.Process.{to_time_wait, after_data, acks_all}
use rudp.Tcp.App.{App}
use rudp.Prelude.{refl, ◌∙◌, inr, inl, arith, Bool-cases, ap, sym, true, false, subst, ◌≡◌, ℕ, Bool}
use rudp.Tcp.Env.{Env}
use rudp.Tcp.Types.{
  closing, fin_wait_2, fin_wait_1, close_wait, last_ack, established, is_state, Seg, Pcb, TcpState,
}

acks_fin :
    (p q : Pcb) (i : Seg)
    → q.snd_nxt ≡ p.snd_nxt
    → p.snd_nxt ≡ p.snd_lbb
    → acks_all i q ≡ true
    → AcksFin p i
acks_fin p q i e f h = ground arith

kept_state :
    (st st' : TcpState) (got_fin : Bool)
    → is_state st established ≡ false
    → StateKept st got_fin st'
    → st' ≡ st
kept_state st st' got_fin n (inl e) = e
kept_state st st' got_fin n (inr (e, f, g)) = absurd (cc (n, ap (λ x. is_state x established) e))

-- Nothing moves.
pub stay :
    (p : Pcb) (i : Seg) (got_fin aborted : Bool) (a b : TcpState)
    → b ≡ a
    → Arrows p i got_fin aborted a b
stay p i got_fin aborted a b e = subst (λ st. Arrows p i got_fin aborted a st) (sym e) here

module _ {W : Type 0} (env : Env W) (tcp_ticks : ℕ) (app : App W) where
  -- A result of `tcp_receive` for the control block `p`.
  abbrev pub ReceivedFor : Pcb → Received W → Type 0
  ReceivedFor p r = KeepsOpen p r.delivery.got_fin r.pcb

  -- The result of the state `st` is allowed by the diagram.
  abbrev pub Follows : Pcb → Seg → Received W → TcpState → Type 0
  Follows p i r st =
      let x = after_data env tcp_ticks app st i r in
      Arrows p i x.delivery.got_fin (is_abrt x.err) st (end_state x)

  pub after_data-fin_wait_1 :
      (p : Pcb) (i : Seg) (r : Received W)
      → ReceivedFor p r
      → p.state ≡ fin_wait_1
      → p.snd_nxt ≡ p.snd_lbb
      → Follows p i r fin_wait_1
  unfolding after_data to_time_wait
  after_data-fin_wait_1 p i r k e f =
      let kept =
        kept_state p.state r.pcb.state r.delivery.got_fin (ap (λ st. is_state st established) e)
          k.0 in
      elim (Bool-cases r.delivery.got_fin) [
        | inl got ↦ elim (Bool-cases (acks_all i r.pcb)) [
          | inl acked ↦
              rw (got, acked)
                (along (rcv_ack_of_fin (acks_fin p r.pcb i k.1 f acked))
                  (along (rcv_fin_after_ack refl) here))
          | inr other ↦ rw (got, other) (along (rcv_fin_closing refl) here)
        ]
        | inr nothing_got ↦ elim (Bool-cases (acks_all i r.pcb)) [
          | inl acked ↦
              rw (nothing_got, acked) (along (rcv_ack_of_fin (acks_fin p r.pcb i k.1 f acked)) here)
          | inr other ↦ rw (nothing_got, other) (stay p i _ _ _ _ (kept ∙ e))
        ]
      ]

  pub after_data-fin_wait_2 :
      (p : Pcb) (i : Seg) (r : Received W)
      → ReceivedFor p r
      → p.state ≡ fin_wait_2
      → Follows p i r fin_wait_2
  unfolding after_data to_time_wait
  after_data-fin_wait_2 p i r k e =
      let kept =
        kept_state p.state r.pcb.state r.delivery.got_fin (ap (λ st. is_state st established) e)
          k.0 in
      elim (Bool-cases r.delivery.got_fin) [
        | inl got ↦ rw got (along (rcv_fin_after_ack refl) here)
        | inr nothing_got ↦ rw nothing_got (stay p i _ _ _ _ (kept ∙ e))
      ]

  pub after_data-closing :
      (p : Pcb) (i : Seg) (r : Received W)
      → ReceivedFor p r
      → p.state ≡ closing
      → p.snd_nxt ≡ p.snd_lbb
      → Follows p i r closing
  unfolding after_data to_time_wait
  after_data-closing p i r k e f =
      let kept =
        kept_state p.state r.pcb.state r.delivery.got_fin (ap (λ st. is_state st established) e)
          k.0 in
      elim (Bool-cases (acks_all i r.pcb)) [
        | inl acked ↦ rw acked (along (rcv_ack_closing (acks_fin p r.pcb i k.1 f acked)) here)
        | inr other ↦ rw other (stay p i _ _ _ _ (kept ∙ e))
      ]

  pub after_data-last_ack :
      (p : Pcb) (i : Seg) (r : Received W)
      → ReceivedFor p r
      → p.state ≡ last_ack
      → p.snd_nxt ≡ p.snd_lbb
      → Follows p i r last_ack
  unfolding after_data
  after_data-last_ack p i r k e f =
      let kept =
        kept_state p.state r.pcb.state r.delivery.got_fin (ap (λ st. is_state st established) e)
          k.0 in
      elim (Bool-cases (acks_all i r.pcb)) [
        | inl acked ↦ rw acked (along (rcv_ack_last (acks_fin p r.pcb i k.1 f acked)) here)
        | inr other ↦ rw other (stay p i _ _ _ _ (kept ∙ e))
      ]

  pub after_data-established :
      (p : Pcb) (i : Seg) (r : Received W)
      → ReceivedFor p r
      → p.state ≡ established
      → Follows p i r established
  unfolding after_data
  after_data-established p i r (inl kept, n) e = elim (Bool-cases r.delivery.got_fin) [
    | inl got ↦ rw got (along (rcv_fin refl) here)
    | inr nothing_got ↦ rw nothing_got (stay p i _ _ _ _ (kept ∙ e))
  ]
  after_data-established p i r (inr (x, y, got), n) e = rw got (along (rcv_fin refl) here)

  pub after_data-close_wait :
      (p : Pcb) (i : Seg) (r : Received W)
      → ReceivedFor p r
      → p.state ≡ close_wait
      → Follows p i r close_wait
  unfolding after_data
  after_data-close_wait p i r k e =
      let kept =
        kept_state p.state r.pcb.state r.delivery.got_fin (ap (λ st. is_state st established) e)
          k.0 in
      elim (Bool-cases r.delivery.got_fin) [
        | inl got ↦ rw got here
        | inr nothing_got ↦ rw nothing_got (stay p i _ _ _ _ (kept ∙ e))
      ]
