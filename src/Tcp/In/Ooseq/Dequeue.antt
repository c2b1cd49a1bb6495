-- ===== src/Tcp/In/Ooseq/Dequeue.antt =====
-- What the loop of src/tcp_in.c that dequeues segments from `ooseq` hands to the application.
use rudp.Tcp.Segs.{seg_free}
use rudp.Tcp.RcvWnd.{update_rcv_ann_wnd-keeps, update_rcv_ann_wnd}
use rudp.Tcp.Seq.{u32_mod}
use rudp.Pbuf.Alloc.{Buffers}
use rudp.Tcp.Env.{Env}
use rudp.Pbuf.Cat.{cat-append}
use rudp.Tcp.In.Ooseq.{kept_bufs, advance, deliver, dequeue, Delivery, join}
use rudp.Tcp.In.Inseg.{seq_add}
use rudp.Pbuf.{length-bytes, u16_mod, tot_len, bytes, IsChain, Chain}
use rudp.Tcp.Types.{close_wait, established, is_state, Pcb, tcplen, Seg}
use rudp.Prelude.{
  ◌%◌, ◌-◌, ◌&&◌, if◌then◌else◌, or_false, or_assoc, append_assoc, ◌≤◌, ap, subst, All, refl, ◌∙◌,
  length_zero, inr, ==_iff, inl, ◌==◌, Bool-cases, arith, append-nil, sym, ◌≢◌, [], ◌<◌, ◌+◌, ◌||◌,
  ◌≡◌, ◌++◌, false, Bool, ◌∷◌, List, ℕ,
}

-- The pbufs hold the data of the segment, and nothing else.
abbrev pub IsWhole : Seg → Type 0
IsWhole seg = IsChain seg.p × (tot_len seg.p ≡ seg.len)

-- How many numbers of the sequence space the segments take.
abbrev pub seq_len : List Seg → ℕ
seq_len [] = 0
seq_len (seg ∷ segs) = tcplen seg + seq_len segs

-- Their data.
abbrev pub stream : List Seg → List ℕ
stream [] = []
stream (seg ∷ segs) = bytes seg.p ++ stream segs

abbrev pub any_fin : List Seg → Bool
any_fin [] = false
any_fin (seg ∷ segs) = seg.tcphdr.flags.fin || any_fin segs

-- Each segment starts where the one before it ends, the first one at `n`, and the rest does not go
-- on.
abbrev pub Contiguous : (n : ℕ) → (done rest : List Seg) → Type 0
Contiguous n [] [] = Unit {0}
Contiguous n [] (seg ∷ rest) = seg.tcphdr.seqno ≢ n
Contiguous n (seg ∷ done) rest =
    (seg.tcphdr.seqno ≡ n) × Contiguous (seq_add n (tcplen seg)) done rest

no_bytes : (p : Chain) → IsChain p → tot_len p ≡ 0 → bytes p ≡ []
no_bytes p c e = length_zero (bytes p) (length-bytes p c ∙ e)

join-bytes :
    (a b : Chain)
    → IsChain a
    → IsChain b
    → tot_len a + tot_len b < u16_mod
    → (bytes (join a b) ≡ bytes a ++ bytes b)
      × IsChain (join a b)
      × (tot_len (join a b) ≡ tot_len a + tot_len b)
join-bytes a [] ca cb h = (sym (append-nil (bytes a)), ca, omega arith)
join-bytes [] (q ∷ t) ca cb h = elim (Bool-cases (q.tot_len == 0)) [
  | inl e ↦
      let z : q.tot_len ≡ 0 = (==_iff _ _).0 e in
      rw e (sym (no_bytes (q ∷ t) cb z), tt, omega arith)
  | inr e ↦ rw e (refl, cb, omega arith)
]
join-bytes (p ∷ h) (q ∷ t) ca cb k = elim (Bool-cases (q.tot_len == 0)) [
  | inl e ↦
      let z : q.tot_len ≡ 0 = (==_iff _ _).0 e in
      rw (e, no_bytes (q ∷ t) cb z) (sym (append-nil (bytes (p ∷ h))), ca, omega arith)
  | inr e ↦ rw e (cat-append p q h t ca cb k)
]

len-le-tcplen : (seg : Seg) → seg.len ≤ tcplen seg
unfolding tcplen
len-le-tcplen seg = omega arith

-- From the queue `done ++ rest`, the segments `done` are dequeued: their data is behind what there
-- was to hand over, and they take their numbers of the receive window.
abbrev pub Takes : Pcb → Delivery → (done rest : List Seg) → Pcb → Delivery → Type 0
Takes pcb d done rest pcb' d' =
    Contiguous pcb.rcv_nxt done rest
    × (pcb'.ooseq ≡ rest)
    × (pcb'.rcv_nxt ≡ seq_add pcb.rcv_nxt (seq_len done))
    × (pcb'.rcv_wnd + seq_len done ≡ pcb.rcv_wnd)
    × (bytes d'.recv_data ≡ bytes d.recv_data ++ stream done)
    × IsChain d'.recv_data
    × (d'.got_fin ≡ (d.got_fin || any_fin done))

abbrev pub Dequeued : List Seg → Pcb → Delivery → Pcb → Delivery → Type 0
Dequeued queue pcb d pcb' d' =
    (done : List Seg) × (rest : List Seg) × (queue ≡ done ++ rest) × Takes pcb d done rest pcb' d'

-- One more segment in front.
Takes-first :
    (cseg : Seg) (pcb pcb2 pcb' : Pcb) (d d' : Delivery) (done rest : List Seg)
    → cseg.tcphdr.seqno ≡ pcb.rcv_nxt
    → pcb2.rcv_nxt ≡ seq_add pcb.rcv_nxt (tcplen cseg)
    → pcb2.rcv_wnd + tcplen cseg ≡ pcb.rcv_wnd
    → bytes (join d.recv_data cseg.p) ≡ bytes d.recv_data ++ bytes cseg.p
    → Takes pcb2 (deliver d cseg) done rest pcb' d'
    → Takes pcb d (cseg ∷ done) rest pcb' d'
Takes-first cseg pcb pcb2 pcb' d d' done rest at n w b (c, o, n', w', b', ch, f) = (
  (at, subst (λ k. Contiguous k done rest) n c),
  o,
  omega (arith, n, n'),
  omega (arith, w, w'),
  b'
      ∙ ap (λ xs. xs ++ stream done) b
      ∙ append_assoc (bytes d.recv_data) (bytes cseg.p) (stream done),
  ch,
  f ∙ or_assoc d.got_fin cseg.tcphdr.flags.fin (any_fin done),
)

module _ {W : Type 0} (env : Env W) where
  -- If the queued segments hold their data and nothing else, fit in the receive window, and have a
  -- total that with that of the data to hand over fits in 16 bits, the loop takes the segments from the front of the queue that follow each other from `rcv_nxt` on,
  -- and stops at the first one that does not: their data is appended to what is handed to the
  -- application, a FIN among them is reported, and the window shrinks by as much as `rcv_nxt`
  -- advances, so that its right edge stays.
  pub dequeue-Dequeued :
      (queue : List Seg) (pcb : Pcb) (d : Delivery) (s : Buffers W)
      → All IsWhole queue
      → IsChain d.recv_data
      → tot_len d.recv_data + seq_len queue < u16_mod
      → seq_len queue ≤ pcb.rcv_wnd
      → pcb.rcv_wnd < u16_mod
      → pcb.rcv_nxt < u32_mod
      → Dequeued queue pcb d (dequeue env queue pcb d s).0 (dequeue env queue pcb d s).1
  unfolding dequeue
  dequeue-Dequeued [] pcb d s w c t q v n =
      ([], [], refl, (tt, refl, omega arith, omega arith, sym (append-nil _), c, sym (or_false _)))
  dequeue-Dequeued (cseg ∷ rest) pcb d s w c t q v n =
      let r = update_rcv_ann_wnd (advance pcb cseg) in
      let keeps = update_rcv_ann_wnd-keeps (advance pcb cseg) in
      let pcb2 = record r.1 {
        state =
            if cseg.tcphdr.flags.fin && is_state pcb.state established
            then close_wait
            else pcb.state;
        ooseq = rest;
      } in
      let s1 = seg_free env s (record cseg { p = kept_bufs cseg.p }) in
      let out = dequeue env rest pcb2 (deliver d cseg) s1 in
      let n2 : r.1.rcv_nxt ≡ seq_add pcb.rcv_nxt (tcplen cseg) = ap (λ p. p.rcv_nxt) keeps in
      let w2 : r.1.rcv_wnd ≡ (pcb.rcv_wnd + u16_mod - tcplen cseg) % u16_mod =
        ap (λ p. p.rcv_wnd) keeps in
      let j = join-bytes d.recv_data cseg.p c w.0.0 (omega (arith, w.0.1, len-le-tcplen cseg)) in
      let ih =
        dequeue-Dequeued rest pcb2 (deliver d cseg) s1 w.1 j.1
          (omega (arith, j.2, w.0.1, len-le-tcplen cseg)) (omega (arith, w2)) (omega (arith, w2))
          (omega (arith, n2)) in
      elim (Bool-cases (cseg.tcphdr.seqno == pcb.rcv_nxt)) [
        | inl at ↦ rw at (
          cseg ∷ ih.0,
          ih.1,
          ap (λ segs. cseg ∷ segs) ih.2,
          Takes-first cseg pcb pcb2 out.0 d out.1 ih.0 ih.1 ((==_iff _ _).0 at) n2
              (omega (arith, w2)) j.0 ih.3,
        )
        | inr off ↦ rw off (
          [],
          cseg ∷ rest,
          refl,
          (
            λ e. absurd (cc (off, (==_iff cseg.tcphdr.seqno pcb.rcv_nxt).1 e)),
            refl,
            omega arith,
            omega arith,
            sym (append-nil _),
            c,
            sym (or_false _),
          ),
        )
      ]
