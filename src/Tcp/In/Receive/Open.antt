-- ===== src/Tcp/In/Receive/Open.antt =====
-- How `tcp_receive` of src/tcp_in.c changes the state of a connection.
use rudp.Tcp.In.Ack.{receive_ack}
use rudp.Tcp.Segs.{seg_free}
use rudp.Pbuf.{tot_len, u16_mod}
use rudp.Tcp.RcvWnd.{update_rcv_ann_wnd-keeps, update_rcv_ann_wnd}
use rudp.Tcp.Seq.{seq_lt, seq_sub, seq_between}
use rudp.Pbuf.Alloc.{Buffers}
use rudp.Tcp.In.Ooseq.{deliver, kept_bufs, advance, adjust, Delivery, dequeue}
use rudp.Tcp.In.Receive.{
  incoming, window_end, trim_wnd, out_of_window, out_of_order, data_part, in_order, receive,
  receive_data, receive_trimmed, ack_part,
}
use rudp.Tcp.In.Inseg.{ack_now, trim_front, seq_add, tcplen16, ack}
use rudp.Tcp.Env.{Env}
use rudp.Prelude.{
  or_of_left, or_of_right, subst, ap, [], ◌%◌, ◌-◌, ◌==◌, ◌+◌, refl, sym, inr, ◌∷◌, ◌∙◌, ltb, false,
  not, inl, Bool-cases, ◌&&◌, if◌then◌else◌, List, arith, true, ◌⊎◌, ℕ, ◌≡◌, Bool,
}
use rudp.Tcp.Types.{state_num, is_state, Seg, established, close_wait, Pcb, TcpState}
use rudp.Tcp.In.Receive.Keeps.{receive_ack-Keeps, send_empty_ack-Keeps, Keeps}

-- A state that is kept, but for a FIN in the state ESTABLISHED.
abbrev pub StateKept : TcpState → (got_fin : Bool) → TcpState → Type 0
StateKept st got_fin st' = (st' ≡ st) ⊎ ((st ≡ established) × (st' ≡ close_wait) × (got_fin ≡ true))

-- The same, for a part of `tcp_receive` that may dequeue a FIN.
abbrev pub KeepsOpen : Pcb → (got_fin : Bool) → Pcb → Type 0
KeepsOpen a got_fin b = StateKept a.state got_fin b.state × (b.snd_nxt ≡ a.snd_nxt)

Keeps-KeepsOpen :
    (a b c : Pcb) (got_fin : Bool) → Keeps a b → KeepsOpen b got_fin c → KeepsOpen a got_fin c
Keeps-KeepsOpen a b c got_fin h (inl e, n) = (inl (e ∙ h.0), n ∙ h.1)
Keeps-KeepsOpen a b c got_fin h (inr (x, y, z), n) = (inr (sym h.0 ∙ x, y, z), n ∙ h.1)

StateKept-close_wait :
    (got_fin : Bool) (st : TcpState)
    → got_fin ≡ true
    → StateKept close_wait got_fin st
    → StateKept established got_fin st
StateKept-close_wait got_fin st l (inl e) = inr (refl, e, l)
StateKept-close_wait got_fin st l (inr (x, y, z)) = cc

-- One more FIN, or none, in front.
StateKept-first :
    (a c : TcpState) (fin got_fin : Bool)
    → (fin ≡ true → got_fin ≡ true)
    → StateKept (if fin && is_state a established then close_wait else a) got_fin c
    → StateKept a got_fin c
StateKept-first a c false got_fin l k = k
StateKept-first established c true got_fin l k = StateKept-close_wait got_fin c (l refl) k
StateKept-first a c true got_fin l k = k

if-Keeps :
    {W : Type 0} (b : Bool) (pcb : Pcb) (x y : Pcb × Buffers W)
    → Keeps pcb x.0
    → Keeps pcb y.0
    → Keeps pcb (if b then x else y).0
if-Keeps true pcb x y h k = h
if-Keeps false pcb x y h k = k

ack-Keeps : (pcb : Pcb) → Keeps pcb (ack pcb)
ack-Keeps pcb = ground arith

module _ {W : Type 0} (env : Env W) (tcp_ticks : ℕ) where
  dequeue-KeepsOpen :
      (queue : List Seg) (pcb : Pcb) (d : Delivery) (s : Buffers W)
      → let (pcb', d', s') = dequeue env queue pcb d s in
        KeepsOpen pcb d'.got_fin pcb' × (d.got_fin ≡ true → d'.got_fin ≡ true)
  unfolding dequeue
  dequeue-KeepsOpen [] pcb d s = ((inl refl, refl), λ e. e)
  dequeue-KeepsOpen (cseg ∷ rest) pcb d s =
      let r = update_rcv_ann_wnd (advance pcb cseg) in
      let same = update_rcv_ann_wnd-keeps (advance pcb cseg) in
      let fin = cseg.tcphdr.flags.fin in
      let pcb2 = record r.1 {
        state = if fin && is_state pcb.state established then close_wait else pcb.state;
        ooseq = rest;
      } in
      let s1 = seg_free env s (record cseg { p = kept_bufs cseg.p }) in
      let ih = dequeue-KeepsOpen rest pcb2 (deliver d cseg) s1 in
      let out = dequeue env rest pcb2 (deliver d cseg) s1 in
      let n : r.1.snd_nxt ≡ pcb.snd_nxt = ap (λ p. p.snd_nxt) same in
      elim (Bool-cases (cseg.tcphdr.seqno == pcb.rcv_nxt)) [
        | inl at ↦ rw at (
          (
            StateKept-first pcb.state out.0.state fin out.1.got_fin
                (λ e. ih.1 (or_of_right d.got_fin e)) ih.0.0,
            ih.0.1 ∙ n,
          ),
          λ e. ih.1 (or_of_left fin e),
        )
        | inr off ↦ rw off ((inl refl, refl), λ e. e)
      ]

  in_order-KeepsOpen :
      (pcb : Pcb) (i : Seg) (s : Buffers W)
      → let r = in_order env pcb i s in KeepsOpen pcb r.delivery.got_fin r.pcb
  unfolding in_order
  in_order-KeepsOpen pcb i s =
      let (i1, s1) = trim_wnd env i pcb.rcv_wnd s in
      let (queue, i2, s2) = adjust env pcb.ooseq i1 s1 in
      let moved = record pcb {
        ooseq = queue;
        rcv_nxt = seq_add i2.tcphdr.seqno (tcplen16 i2);
        rcv_wnd = (pcb.rcv_wnd + u16_mod - tcplen16 i2) % u16_mod;
      } in
      let pcb1 = (update_rcv_ann_wnd moved).1 in
      let same = update_rcv_ann_wnd-keeps moved in
      let first : Delivery = record {
        recv_data = if tot_len i2.p == 0 then [] else i2.p;
        got_fin = i2.tcphdr.flags.fin;
      } in
      let out = dequeue env queue pcb1 first s2 in
      let k = (dequeue-KeepsOpen queue pcb1 first s2).0 in
      let a = ack-Keeps out.0 in
      let h =
        Keeps-KeepsOpen pcb pcb1 out.0 out.1.got_fin
          (ap (λ p. p.state) same, ap (λ p. p.snd_nxt) same) k in
      (subst (λ st. StateKept pcb.state out.1.got_fin st) (sym a.0) h.0, a.1 ∙ h.1)

  receive_trimmed-KeepsOpen :
      (pcb : Pcb) (i : Seg) (s : Buffers W)
      → let r = receive_trimmed env tcp_ticks pcb i s in KeepsOpen pcb r.delivery.got_fin r.pcb
  unfolding receive_trimmed out_of_order out_of_window
  receive_trimmed-KeepsOpen pcb i s =
      let k = send_empty_ack-Keeps env tcp_ticks pcb s in
      elim (Bool-cases (not (seq_between i.tcphdr.seqno pcb.rcv_nxt (window_end pcb)))) [
        | inl out ↦ rw out (inl k.0, k.1)
        | inr fits ↦ rw fits (elim (Bool-cases (pcb.rcv_nxt == i.tcphdr.seqno)) [
          | inl next ↦ rw next (in_order-KeepsOpen pcb i s)
          | inr later ↦ rw later (inl k.0, k.1)
        ])
      ]

  receive_data-KeepsOpen :
      (pcb : Pcb) (i : Seg) (s : Buffers W)
      → let r = receive_data env tcp_ticks pcb i s in KeepsOpen pcb r.delivery.got_fin r.pcb
  unfolding receive_data
  receive_data-KeepsOpen pcb i s =
      elim (Bool-cases (
        seq_between pcb.rcv_nxt (seq_add i.tcphdr.seqno 1)
          (seq_sub (seq_add i.tcphdr.seqno (tcplen16 i)) 1))) [
            | inl front ↦ rw front (receive_trimmed-KeepsOpen pcb (trim_front i pcb.rcv_nxt) s)
            | inr whole ↦ rw whole (elim (Bool-cases (seq_lt i.tcphdr.seqno pcb.rcv_nxt)) [
              | inl old ↦ rw old (receive_trimmed-KeepsOpen (ack_now pcb) i s)
              | inr new ↦ rw new (receive_trimmed-KeepsOpen pcb i s)
            ])
          ]

  data_part-KeepsOpen :
      (pcb : Pcb) (i : Seg) (s : Buffers W)
      → let r = data_part env tcp_ticks pcb i s in KeepsOpen pcb r.delivery.got_fin r.pcb
  unfolding data_part
  data_part-KeepsOpen pcb i s =
      elim (Bool-cases (ltb 0 (tcplen16 i) && ltb (state_num pcb.state) (state_num close_wait))) [
        | inl open_state ↦ rw open_state (receive_data-KeepsOpen pcb i s)
        | inr past ↦
            rw past (elim (Bool-cases (seq_between i.tcphdr.seqno pcb.rcv_nxt (window_end pcb))) [
              | inl inside ↦ rw inside (inl refl, refl)
              | inr outside ↦ rw outside (inl refl, refl)
            ])
      ]

  ack_part-Keeps :
      (pcb : Pcb) (i : Seg) (s : Buffers W) → Keeps pcb (ack_part env tcp_ticks pcb i s).0
  unfolding ack_part
  ack_part-Keeps pcb i s =
      if-Keeps i.tcphdr.flags.ack pcb (receive_ack env tcp_ticks pcb (incoming i) s) (pcb, s)
        (receive_ack-Keeps env tcp_ticks pcb (incoming i) s) (refl, refl)

  -- On each of its branches, `tcp_receive` keeps the next number to be sent, and the state, except
  -- that it moves from ESTABLISHED to CLOSE_WAIT where it reports a FIN.
  pub receive-KeepsOpen :
      (pcb : Pcb) (i : Seg) (s : Buffers W)
      → let r = receive env tcp_ticks pcb i s in KeepsOpen pcb r.delivery.got_fin r.pcb
  unfolding receive
  receive-KeepsOpen pcb i s =
      let (pcb1, s1) = ack_part env tcp_ticks pcb i s in
      let r = data_part env tcp_ticks pcb1 i s1 in
      Keeps-KeepsOpen pcb pcb1 r.pcb r.delivery.got_fin (ack_part-Keeps pcb i s)
        (data_part-KeepsOpen pcb1 i s1)
