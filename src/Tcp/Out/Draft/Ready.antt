-- ===== src/Tcp/Out/Draft/Ready.antt =====
-- When the unsent queue of src/tcp_out.c is one that `tcp_write` may append to, and what it holds.
use rudp.Tcp.Seq.{u32_mod}
use rudp.Tcp.Out.Draft.Grows.{Grows, Room}
use rudp.Pbuf.{length-bytes, bytes, tot_len, IsChain}
use rudp.Tcp.Out.Draft.{on_last, last_seg}
use rudp.Tcp.Types.{opt_length, tcplen, Seg}
use rudp.Prelude.{
  append_assoc, drop-append_left, ap₂, append-nil, arith, sym, subst, ◌∙◌, none, ◌%◌, refl, suc,
  ◌-◌, [], ap, ◌++◌, ◌+◌, some, ◌≤◌, All, length, ◌∷◌, drop, ◌≡◌, Option, List, ℕ,
}

-- The data of a segment is at the end of its pbufs, behind the header and the option.
abbrev pub seg_bytes : Seg → List ℕ
seg_bytes seg = drop (tot_len seg.p - seg.len) (bytes seg.p)

abbrev pub queued_bytes : List Seg → List ℕ
queued_bytes [] = []
queued_bytes (seg ∷ segs) = seg_bytes seg ++ queued_bytes segs

-- The pbufs hold at most a header and an option in front of the data.
abbrev pub IsFilled : Seg → Type 0
IsFilled seg = IsChain seg.p × (seg.len ≤ tot_len seg.p) × (tot_len seg.p ≤ seg.len + 24)

-- Each segment starts where the one before it ends, the first one at `n`, and the last one ends at
-- `m`.
abbrev pub Runs : (n : ℕ) → List Seg → (m : ℕ) → Type 0
Runs n [] m = n ≡ m
Runs n (seg ∷ segs) m = (seg.tcphdr.seqno ≡ n) × Runs ((n + tcplen seg) % u32_mod) segs m

-- At the end of the last segment are `oversize` bytes to spare, which fit in the segment size
-- `mss`.
abbrev pub Spares : (mss oversize : ℕ) → Option Seg → Type 0
Spares mss oversize none = Unit {0}
Spares mss oversize (some last) =
    Room last.p oversize × (last.len + opt_length last.opt_mss + oversize ≤ mss)

pub record IsReady (mss oversize n m : ℕ) (segs : List Seg) : Type 0 where
  pub runs : Runs n segs m
  pub filled : All IsFilled segs
  pub spares : Spares mss oversize (last_seg segs)

last_seg-cons :
    (seg : Seg) (segs : List Seg) (last : Seg)
    → last_seg segs ≡ some last
    → last_seg (seg ∷ segs) ≡ some last
last_seg-cons seg [] last e = absurd (cc e)
last_seg-cons seg (next ∷ segs) last e = e

pub last_seg-on_last :
    (f : Seg → Seg) (segs : List Seg) (last : Seg)
    → last_seg segs ≡ some last
    → last_seg (on_last f segs) ≡ some (f last)
last_seg-on_last f [] last e = cc
last_seg-on_last f (seg ∷ []) last e = let same : seg ≡ last = cc e in ap (λ l. some (f l)) same
last_seg-on_last f (seg ∷ (next ∷ segs)) last e =
    last_seg-cons seg (on_last f (next ∷ segs)) (f last) (last_seg-on_last f (next ∷ segs) last e)

pub last_seg-push : (segs : List Seg) (seg : Seg) → last_seg (segs ++ (seg ∷ [])) ≡ some seg
last_seg-push [] seg = refl
last_seg-push (s ∷ []) seg = refl
last_seg-push (s ∷ (next ∷ segs)) seg = last_seg-push (next ∷ segs) seg

pub length-on_last : (f : Seg → Seg) (segs : List Seg) → length (on_last f segs) ≡ length segs
length-on_last f [] = refl
length-on_last f (seg ∷ []) = refl
length-on_last f (seg ∷ (next ∷ segs)) = ap suc (length-on_last f (next ∷ segs))

seg_bytes-Grows :
    (a b : Seg) (xs : List ℕ) → IsFilled a → Grows a b xs → seg_bytes b ≡ seg_bytes a ++ xs
seg_bytes-Grows a b xs w g =
    let k : tot_len b.p - b.len ≡ tot_len a.p - a.len = omega (arith, g.grown_tot, g.grown_len) in
    ap₂ (λ (i : ℕ) ys. drop i ys) k g.grown_bytes
    ∙ drop-append_left (tot_len a.p - a.len) (bytes a.p) xs (omega (arith, length-bytes a.p w.0))

IsFilled-Grows : (a b : Seg) (xs : List ℕ) → IsFilled a → Grows a b xs → IsFilled b
IsFilled-Grows a b xs w g = (
  g.grown_chain,
  omega (arith, w, g.grown_tot, g.grown_len),
  omega (arith, w, g.grown_tot, g.grown_len),
)

tcplen-Grows : (a b : Seg) (xs : List ℕ) → Grows a b xs → tcplen b ≡ tcplen a + length xs
unfolding tcplen
tcplen-Grows a b xs g = rw (g.same_fin, g.same_syn) (omega (arith, g.grown_len))

-- The change of the last segment in its queue.
on_last-Grows :
    (f : Seg → Seg) (xs : List ℕ) (segs : List Seg) (last : Seg) (n m : ℕ)
    → last_seg segs ≡ some last
    → Grows last (f last) xs
    → Runs n segs m
    → All IsFilled segs
    → Runs n (on_last f segs) ((m + length xs) % u32_mod)
      × All IsFilled (on_last f segs)
      × (queued_bytes (on_last f segs) ≡ queued_bytes segs ++ xs)
on_last-Grows f xs [] last n m e g r w = absurd (cc e)
on_last-Grows f xs (seg ∷ []) last n m e g r w =
    let same : seg ≡ last = cc e in
    let g' : Grows seg (f seg) xs = subst (λ l. Grows l (f l) xs) (sym same) g in
    (
      (g'.same_seqno ∙ r.0, omega (arith, r.1, tcplen-Grows seg (f seg) xs g')),
      (IsFilled-Grows seg (f seg) xs w.0 g', tt),
      append-nil (seg_bytes (f seg))
          ∙ seg_bytes-Grows seg (f seg) xs w.0 g'
          ∙ ap (λ ys. ys ++ xs) (sym (append-nil (seg_bytes seg))),
    )
on_last-Grows f xs (seg ∷ (next ∷ segs)) last n m e g r w =
    let later = on_last-Grows f xs (next ∷ segs) last ((n + tcplen seg) % u32_mod) m e g r.1 w.1 in
    (
      (r.0, later.0),
      (w.0, later.1),
      ap (◌++◌ (seg_bytes seg)) later.2
          ∙ sym (append_assoc (seg_bytes seg) (queued_bytes (next ∷ segs)) xs),
    )

-- The last segment of the queue grows by `xs`, and leaves `oversize'` bytes to spare.
pub IsReady-on_last :
    (mss oversize oversize' n m : ℕ) (f : Seg → Seg) (xs : List ℕ) (segs : List Seg) (last : Seg)
    → IsReady mss oversize n m segs
    → last_seg segs ≡ some last
    → Grows last (f last) xs
    → Room (f last).p oversize'
    → last.len + opt_length last.opt_mss + length xs + oversize' ≤ mss
    → IsReady mss oversize' n ((m + length xs) % u32_mod) (on_last f segs)
      × (queued_bytes (on_last f segs) ≡ queued_bytes segs ++ xs)
IsReady-on_last mss oversize oversize' n m f xs segs last r e g room fits =
    let o = on_last-Grows f xs segs last n m e g r.runs r.filled in
    let small : (f last).len + opt_length (f last).opt_mss + oversize' ≤ mss =
      omega (arith, g.grown_len, ap opt_length g.same_opt) in
    (
      record {
        runs = o.0;
        filled = o.1;
        spares = subst (Spares mss oversize') (sym (last_seg-on_last f segs last e)) (room, small);
      },
      o.2,
    )

push_lem :
    (segs : List Seg) (seg : Seg) (n m : ℕ)
    → Runs n segs m
    → All IsFilled segs
    → seg.tcphdr.seqno ≡ m
    → IsFilled seg
    → Runs n (segs ++ (seg ∷ [])) ((m + tcplen seg) % u32_mod)
      × All IsFilled (segs ++ (seg ∷ []))
      × (queued_bytes (segs ++ (seg ∷ [])) ≡ queued_bytes segs ++ seg_bytes seg)
push_lem [] seg n m r w s f = ((s ∙ sym r, omega (arith, r)), (f, tt), append-nil (seg_bytes seg))
push_lem (x ∷ segs) seg n m r w s f =
    let later = push_lem segs seg ((n + tcplen x) % u32_mod) m r.1 w.1 s f in
    (
      (r.0, later.0),
      (w.0, later.1),
      ap (◌++◌ (seg_bytes x)) later.2
          ∙ sym (append_assoc (seg_bytes x) (queued_bytes segs) (seg_bytes seg)),
    )

-- A segment is added behind the others.
pub IsReady-push :
    (mss oversize oversize' n m : ℕ) (segs : List Seg) (seg : Seg)
    → IsReady mss oversize n m segs
    → seg.tcphdr.seqno ≡ m
    → IsFilled seg
    → Spares mss oversize' (some seg)
    → IsReady mss oversize' n ((m + tcplen seg) % u32_mod) (segs ++ (seg ∷ []))
      × (queued_bytes (segs ++ (seg ∷ [])) ≡ queued_bytes segs ++ seg_bytes seg)
IsReady-push mss oversize oversize' n m segs seg r s f sp =
    let o = push_lem segs seg n m r.runs r.filled s f in
    (
      record {
        runs = o.0;
        filled = o.1;
        spares = subst (Spares mss oversize') (sym (last_seg-push segs seg)) sp;
      },
      o.2,
    )
