-- ===== src/Tcp/Recved.antt =====
-- src/tcp.c: `tcp_recved`, by which the application opens the receive window again.
use rudp.Tcp.Out.Wire.{Records, Posted}
use rudp.Prelude.{
  append-nil, if_elim, [], ◌⊎◌, ◌++◌, ◌/◌, Option, List, min, le→not_ltb, subst, ℕ, ◌+◌, ◌%◌, ◌≤◌,
  ◌<◌, ◌≡◌, refl, sym, ap, ◌∙◌, Bool, true, false, ◌&&◌, ◌||◌, ltb, leb, if◌then◌else◌, ◌==◌, arith,
  inl, inr,
}
use rudp.Pbuf.{ram, ip, Chain, u16_mod}
use rudp.Pbuf.Alloc.{alloc, Buffers}
use rudp.Tcp.Seq.{u32_mod, half}
use rudp.Tcp.Types.{tcp_hlen, Pcb, is_state, close_wait, last_ack, tcp_wnd, wnd_update_threshold}
use rudp.Tcp.Env.{Env}
use rudp.Tcp.Out.Receiver.{output-Answers, PutOff, Answers, Tells, KeepsRcv}
use rudp.Tcp.RcvWnd.{Announced, update_rcv_ann_wnd, StandsAt, update_rcv_ann_wnd-Announced}
use rudp.Tcp.Out.Output.{output}

-- The bytes that the application has processed, added to the window in its u16_t.
unfoldable pub credit : Pcb → (len : ℕ) → Pcb
credit pcb len =
    let wnd = (pcb.rcv_wnd + len) % u16_mod in
    let passive = is_state pcb.state close_wait || is_state pcb.state last_ack in
    record pcb {
      rcv_wnd = if ltb tcp_wnd wnd then tcp_wnd else if wnd == 0 && passive then tcp_wnd else wnd;
    }

-- `tcp_recved`. The result of the update is read as an int.
unfoldable pub recved :
    {W : Type 0}
    → Env W
    → (tcp_ticks : ℕ) → (is_input_pcb : Bool) → Pcb
    → (len : ℕ) → Buffers W
    → Pcb × Buffers W
unfolding credit update_rcv_ann_wnd output
recved env tcp_ticks is_input_pcb pcb len s =
    let (more, pcb1) = update_rcv_ann_wnd (credit pcb len) in
    let now = record pcb1 { flags = record pcb1.flags { ack_now = true } } in
    let (err, pcb2, s') = output env tcp_ticks is_input_pcb now s in
    if leb wnd_update_threshold more && ltb more half then (pcb2, s') else (pcb1, s)

-- The window of size `wnd` reaches beyond the announced one by the smaller of half of TCP_WND and
-- the mss, and by the threshold of an update.
abbrev pub is_due : Pcb → (nxt edge wnd : ℕ) → Bool
is_due pcb nxt edge wnd =
    leb (edge + min (tcp_wnd / 2) pcb.mss) (nxt + wnd)
    && leb (edge + wnd_update_threshold) (nxt + wnd)

-- The window has the size `wnd`. The announced window ends at `edge`, as before, or further on,
-- where one of the packets that were handed over tells it. If the update is due, all of the window
-- is announced, and a packet tells it, or ACK_NOW is set and the packet put off; else no packet is
-- handed over.
abbrev pub Opened :
    (due is_input_pcb : Bool)
    → (e : Option Chain) → Pcb
    → (nxt edge wnd : ℕ) → (before after : List Posted) → Type 0
Opened due is_input_pcb e pcb nxt edge wnd before after =
    (pcb.rcv_wnd ≡ wnd)
    × ((edge' : ℕ) × (ps : List Posted) × (edge ≤ edge')
        × StandsAt pcb nxt edge'
        × (after ≡ before ++ ps)
        × ((edge' ≡ edge)
            ⊎ ((edge' ≡ nxt + pcb.rcv_ann_wnd) × Tells pcb.rcv_nxt pcb.rcv_ann_wnd ps))
        × (if due
            then (pcb.rcv_ann_wnd ≡ wnd)
              × (Tells pcb.rcv_nxt pcb.rcv_ann_wnd ps
                  ⊎ ((pcb.flags.ack_now ≡ true) × PutOff is_input_pcb e pcb))
            else ps ≡ []))

credited :
    (wnd len : ℕ) (passive : Bool)
    → 0 < wnd + len
    → wnd + len ≤ tcp_wnd
    → let w = (wnd + len) % u16_mod in
      (if ltb tcp_wnd w then tcp_wnd else if w == 0 && passive then tcp_wnd else w) ≡ wnd + len
credited wnd len passive z h =
    let e : (wnd + len) % u16_mod ≡ wnd + len = omega arith in
    let f : (wnd + len == 0) ≡ false = ground arith in
    rw (e, le→not_ltb (wnd + len) tcp_wnd h, f) refl

credit-rcv_wnd :
    (pcb : Pcb) (len : ℕ)
    → 0 < pcb.rcv_wnd + len
    → pcb.rcv_wnd + len ≤ tcp_wnd
    → (credit pcb len).rcv_wnd ≡ pcb.rcv_wnd + len
unfolding credit
credit-rcv_wnd pcb len z h =
    credited pcb.rcv_wnd len (is_state pcb.state close_wait || is_state pcb.state last_ack) z h

credit-StandsAt :
    (pcb : Pcb) (nxt edge len : ℕ)
    → StandsAt pcb nxt edge
    → 0 < pcb.rcv_wnd + len
    → pcb.rcv_wnd + len ≤ tcp_wnd
    → StandsAt (credit pcb len) nxt edge
unfolding credit
credit-StandsAt pcb nxt edge len s z h =
    let c = credit-rcv_wnd pcb len z h in
    record {
      nxt_low = s.nxt_low;
      edge_low = s.edge_low;
      wnd_le = subst (λ (w : ℕ). w ≤ tcp_wnd) (sym c) h;
      mss_lt = s.mss_lt;
      edge_le = subst (λ (w : ℕ). edge ≤ nxt + w) (sym c) (omega (arith, s.edge_le));
      nxt_le = s.nxt_le;
    }

Tells-subst : (m n v w : ℕ) (ps : List Posted) → n ≡ m → w ≡ v → Tells m v ps → Tells n w ps
Tells-subst m n v w ps e f t =
    subst (λ (n : ℕ). Tells n w ps) (sym e) (subst (λ (w : ℕ). Tells m w ps) (sym f) t)

-- The control block after an output that answers stands where the announced window ends.
KeepsRcv-StandsAt :
    (a b : Pcb) (nxt edge edge' : ℕ)
    → StandsAt a nxt edge
    → KeepsRcv a b
    → b.rcv_ann_right_edge ≡ edge' % u32_mod
    → edge ≤ edge'
    → edge' ≤ nxt + a.rcv_wnd
    → StandsAt b nxt edge'
KeepsRcv-StandsAt a b nxt edge edge' s (n, w, x, m) low l h = record {
  nxt_low = n ∙ s.nxt_low;
  edge_low = low;
  wnd_le = omega (arith, s.wnd_le, w);
  mss_lt = omega (arith, s.mss_lt, m);
  edge_le = omega (arith, h, w);
  nxt_le = omega (arith, s.nxt_le, l);
}

Answers-Opened :
    {W : Type 0} (env : Env W) (wire : W → List Posted) (records : Records env wire) (tcp_ticks : ℕ)
    (is_input_pcb : Bool) (e : Option Chain) (a b : Pcb) (nxt edge : ℕ) (before after : List Posted)
    → StandsAt a nxt edge
    → a.rcv_ann_wnd ≡ a.rcv_wnd
    → edge ≤ nxt + a.rcv_ann_wnd
    → Answers env wire records tcp_ticks is_input_pcb e a b before after
    → Opened true is_input_pcb e b nxt edge a.rcv_wnd before after
Answers-Opened env wire records tcp_ticks is_input_pcb e a b nxt edge before after s l g
      (k, (ps, p, inl (low, told))) =
    let t = Tells-subst a.rcv_nxt b.rcv_nxt a.rcv_ann_wnd b.rcv_ann_wnd ps k.0 k.2 told in
    (
      k.1,
      (
        nxt + a.rcv_ann_wnd,
        ps,
        g,
        KeepsRcv-StandsAt a b nxt edge (nxt + a.rcv_ann_wnd) s k (low ∙ omega (arith, s.nxt_low)) g
            (omega (arith, l)),
        p,
        inr (omega (arith, k.2), t),
        (k.2 ∙ l, inl t),
      ),
    )
Answers-Opened env wire records tcp_ticks is_input_pcb e a b nxt edge before after s l g
      (k, (ps, p, inr (low, now, off))) =
    (
      k.1,
      (
        edge,
        ps,
        omega arith,
        KeepsRcv-StandsAt a b nxt edge edge s k (low ∙ s.edge_low) (omega arith) s.edge_le,
        p,
        inl refl,
        (k.2 ∙ l, inr (now, off)),
      ),
    )

-- Whether `tcp_recved` sends an update is read off what the update of the window returns.
due-is_due :
    (c : Pcb) (nxt edge wnd : ℕ)
    → StandsAt c nxt edge
    → c.rcv_wnd ≡ wnd
    → let (more, pcb1) = update_rcv_ann_wnd c in
      Announced c nxt edge (more, pcb1)
      → (leb wnd_update_threshold more && ltb more half) ≡ is_due c nxt edge wnd
due-is_due c nxt edge wnd s w a = ground (arith, s.nxt_le, s.edge_le, s.wnd_le, a.3, w)

update-StandsAt :
    (c q : Pcb) (nxt edge : ℕ)
    → q ≡ record c { rcv_ann_wnd = q.rcv_ann_wnd }
    → StandsAt c nxt edge
    → StandsAt q nxt edge
update-StandsAt c q nxt edge e s =
    subst (λ p. StandsAt p nxt edge) (sym e)
      (record {
        nxt_low = s.nxt_low;
        edge_low = s.edge_low;
        wnd_le = s.wnd_le;
        mss_lt = s.mss_lt;
        edge_le = s.edge_le;
        nxt_le = s.nxt_le;
      })

-- An update that is due announces all of the window.
large_window :
    (c : Pcb) (nxt edge wnd : ℕ)
    → c.rcv_wnd ≡ wnd
    → let (more, pcb1) = update_rcv_ann_wnd c in
      Announced c nxt edge (more, pcb1) → is_due c nxt edge wnd ≡ true → pcb1.rcv_ann_wnd ≡ wnd
large_window c nxt edge wnd w a d = ground (arith, a.3, w, d)

-- When the announced window ends neither behind the available one nor a whole window before the
-- next byte, and the application gives back `len` bytes of the window, and the window is then not
-- empty and no larger than TCP_WND, `tcp_recved` grows the window by exactly these bytes, and the
-- announced right edge does not move back: it stays, or it moves to the end of the announced window
-- and a packet that is handed to `ip_output_if` meanwhile tells it. If the window then reaches
-- beyond the announced one by the threshold of an update and by the smaller of half of TCP_WND and
-- the mss, all of it is announced, and a packet tells it, or ACK_NOW is set and the packet put off:
-- because `tcp_input` is working on the control block, there is no memory for an acknowledgement,
-- or the Nagle algorithm holds back the next segment. Else no packet is handed over. `malloc` and
-- `free` hand over none.
pub recved-Opened :
    {W : Type 0} (env : Env W) (wire : W → List Posted) (records : Records env wire) (tcp_ticks : ℕ)
    (is_input_pcb : Bool) (pcb : Pcb) (nxt edge len : ℕ) (s : Buffers W)
    → StandsAt pcb nxt edge
    → 0 < pcb.rcv_wnd + len
    → pcb.rcv_wnd + len ≤ tcp_wnd
    → let (pcb', s') = recved env tcp_ticks is_input_pcb pcb len s in
      let due = is_due pcb nxt edge (pcb.rcv_wnd + len) in
      let e = (alloc env.mem_malloc s ip ((tcp_hlen + 0 + 0) % u16_mod) ram).0 in
      Opened due is_input_pcb e pcb' nxt edge (pcb.rcv_wnd + len) (wire s.heap) (wire s'.heap)
unfolding recved credit
recved-Opened {W = W} env wire records tcp_ticks is_input_pcb pcb nxt edge len s st z h =
    let c = credit pcb len in
    let stc = credit-StandsAt pcb nxt edge len st z h in
    let a = update_rcv_ann_wnd-Announced c nxt edge stc in
    let (more, pcb1) = update_rcv_ann_wnd c in
    let now = record pcb1 { flags = record pcb1.flags { ack_now = true } } in
    let st1 = update-StandsAt c pcb1 nxt edge a.0 stc in
    let size0 = credit-rcv_wnd pcb len z h in
    let same : pcb1.rcv_wnd ≡ c.rcv_wnd = ap (λ p. p.rcv_wnd) a.0 in
    let size : pcb1.rcv_wnd ≡ pcb.rcv_wnd + len = same ∙ size0 in
    let e = (alloc env.mem_malloc s ip ((tcp_hlen + 0 + 0) % u16_mod) ram).0 in
    let sent = output env tcp_ticks is_input_pcb now s in
    let due = is_due pcb nxt edge (pcb.rcv_wnd + len) in
    let test = leb wnd_update_threshold more && ltb more half in
    let same_test : test ≡ due = due-is_due c nxt edge (pcb.rcv_wnd + len) stc size0 a in
    let shown : Pcb × Buffers W → Type 0 = λ r.
      Opened due is_input_pcb e r.0 nxt edge (pcb.rcv_wnd + len) (wire s.heap) (wire r.1.heap) in
    if_elim shown test (sent.1, sent.2) (pcb1, s)
      (λ large.
        subst
          (λ (d : Bool).
            Opened d is_input_pcb e sent.1 nxt edge (pcb.rcv_wnd + len) (wire s.heap)
              (wire sent.2.heap))
          (sym large ∙ same_test)
          (subst
            (λ (w : ℕ).
              Opened true is_input_pcb e sent.1 nxt edge w (wire s.heap) (wire sent.2.heap))
            size
            (Answers-Opened env wire records tcp_ticks is_input_pcb e now sent.1 nxt edge
              (wire s.heap) (wire sent.2.heap)
              (record {
                nxt_low = st1.nxt_low;
                edge_low = st1.edge_low;
                wnd_le = st1.wnd_le;
                mss_lt = st1.mss_lt;
                edge_le = st1.edge_le;
                nxt_le = st1.nxt_le;
              })
              (large_window c nxt edge (pcb.rcv_wnd + len) size0 a (sym same_test ∙ large)
                ∙ sym size)
              a.2 (output-Answers env wire records tcp_ticks is_input_pcb now s refl))))
      (λ small.
        subst
          (λ (d : Bool).
            Opened d is_input_pcb e pcb1 nxt edge (pcb.rcv_wnd + len) (wire s.heap) (wire s.heap))
          (sym small ∙ same_test)
          (size, (edge, [], omega arith, st1, sym (append-nil (wire s.heap)), inl refl, refl)))
