-- ===== src/Tcp/Out/Write/Grown.antt =====
-- How the first two phases of `tcp_write` of src/tcp_out.c let the last unsent segment grow.
use rudp.Tcp.Seq.{u32_mod}
use rudp.Tcp.Out.Write.Pieces.{IsPiece}
use rudp.Tcp.Out.Draft.Grows.{
  Grows-trans, Room-ne, commit2-Grows, Room-le, commit1-Grows, Grows, Room,
}
use rudp.Tcp.Out.Draft.Ready.{IsReady-on_last, queued_bytes, Spares, IsFilled, IsReady}
use rudp.Tcp.Types.{opt_length, Seg}
use rudp.Pbuf.{IsChain, length-bytes, Chain}
use rudp.Tcp.Out.Draft.{on_last, last_seg, commit1, commit2}
use rudp.Prelude.{
  append-nil, ◌%◌, refl, inr, inl, ◌⊎◌, ap, ◌∙◌, sym, length-take, arith, ◌++◌, ◌-◌, [], take, ◌∷◌,
  subst, All, some, length, ◌+◌, ◌≤◌, ◌≡◌, ◌<◌, List, ℕ,
}

-- What the commit makes of the last unsent segment.
abbrev pub grow : (concat_p : Chain) → (used : ℕ) → List ℕ → Seg → Seg
grow concat_p used data_bytes last = commit2 concat_p (commit1 used data_bytes last)

-- A segment that the phases may append to.
pub record HasRoom (mss oversize : ℕ) (last : Seg) : Type 0 where
  pub room_filled : IsFilled last
  pub room_spare : Room last.p oversize
  pub room_fits : last.len + opt_length last.opt_mss + oversize ≤ mss

All-last_seg :
    (segs : List Seg) (last : Seg) → last_seg segs ≡ some last → All IsFilled segs → IsFilled last
All-last_seg [] last e w = absurd (cc e)
All-last_seg (seg ∷ []) last e w = let same : seg ≡ last = cc e in subst IsFilled same w.0
All-last_seg (seg ∷ (next ∷ segs)) last e w = All-last_seg (next ∷ segs) last e w.1

last_seg-cases : (segs : List Seg) → (segs ≡ []) ⊎ ((last : Seg) × (last_seg segs ≡ some last))
last_seg-cases [] = inl refl
last_seg-cases (seg ∷ []) = inr (seg, refl)
last_seg-cases (seg ∷ (next ∷ segs)) = elim (last_seg-cases (next ∷ segs)) [
  | inl absent ↦ absurd (cc absent)
  | inr (last, e) ↦ inr (last, e)
]

-- The last segment of a queue that is ready.
pub last_seg-HasRoom :
    (mss oversize n m : ℕ) (segs : List Seg) (last : Seg)
    → IsReady mss oversize n m segs
    → last_seg segs ≡ some last
    → HasRoom mss oversize last
last_seg-HasRoom mss oversize n m segs last r e =
    let sp : Spares mss oversize (some last) = subst (Spares mss oversize) e r.spares in
    record { room_filled = All-last_seg segs last e r.filled; room_spare = sp.0; room_fits = sp.1 }

commit1-HasRoom :
    (mss oversize used : ℕ) (data_bytes : List ℕ) (last : Seg)
    → HasRoom mss oversize last
    → mss < 1000
    → used ≤ oversize
    → used ≤ length data_bytes
    → Grows last (commit1 used data_bytes last) (take used data_bytes)
      × Room (commit1 used data_bytes last).p (oversize - used)
commit1-HasRoom mss oversize used data_bytes last h m u l =
    commit1-Grows used (oversize - used) data_bytes last h.room_filled.0 l
      (Room-le last.p (used + (oversize - used)) oversize (omega arith) h.room_spare)
      (omega (arith, h.room_filled, h.room_fits)) (omega (arith, h.room_fits))

-- Phase 1 alone.
pub grow-phase1 :
    (mss oversize used : ℕ) (data_bytes : List ℕ) (last : Seg)
    → HasRoom mss oversize last
    → mss < 1000
    → used ≤ oversize
    → used ≤ length data_bytes
    → Grows last (grow [] used data_bytes last) (take used data_bytes)
      × Room (grow [] used data_bytes last).p (oversize - used)
unfolding commit2
grow-phase1 mss oversize used data_bytes last h m u l =
    commit1-HasRoom mss oversize used data_bytes last h m u l

-- Phase 1 and phase 2.
pub grow-phase2 :
    (mss oversize used oversize' : ℕ) (data_bytes xs : List ℕ) (last : Seg) (concat_p : Chain)
    → HasRoom mss oversize last
    → mss < 1000
    → used ≤ oversize
    → used ≤ length data_bytes
    → IsPiece 0 oversize' xs concat_p
    → length xs < 1000
    → Grows last (grow concat_p used data_bytes last) (take used data_bytes ++ xs)
      × Room (grow concat_p used data_bytes last).p oversize'
grow-phase2 mss oversize used oversize' data_bytes xs last [] h m u l q k = absurd q.piece_head
grow-phase2 mss oversize used oversize' data_bytes xs last (p ∷ ps) h m u l q k =
    let mid = commit1 used data_bytes last in
    let first = commit1-HasRoom mss oversize used data_bytes last h m u l in
    let n : length (take used data_bytes) ≤ used = omega (arith, length-take used data_bytes) in
    let size : p.tot_len ≡ length xs =
      sym (length-bytes (p ∷ ps) q.piece_chain) ∙ ap length q.piece_bytes in
    let second =
      commit2-Grows p ps oversize' mid first.0.grown_chain (Room-ne mid.p (oversize - used) first.1)
        q.piece_chain q.piece_room
        (omega (arith, first.0.grown_tot, n, size, h.room_filled, h.room_fits))
        (omega (arith, first.0.grown_len, n, size, h.room_fits)) in
    (
      Grows-trans last mid (commit2 (p ∷ ps) mid) (take used data_bytes) xs first.0
          (subst (Grows mid (commit2 (p ∷ ps) mid)) q.piece_bytes second.0),
      second.1,
    )

-- The last segment changes neither in its data nor in its pbufs.
pub IsReady-same :
    (mss oversize n m : ℕ) (f : Seg → Seg) (segs : List Seg)
    → ((seg : Seg) → IsChain seg.p → Grows seg (f seg) [])
    → ((seg : Seg) → (f seg).p ≡ seg.p)
    → m < u32_mod
    → IsReady mss oversize n m segs
    → IsReady mss oversize n m (on_last f segs)
      × (queued_bytes (on_last f segs) ≡ queued_bytes segs)
IsReady-same mss oversize n m f segs g p l r =
    let end : (m + 0) % u32_mod ≡ m = omega (arith, l) in
    elim (last_seg-cases segs) [
      | inl nothing ↦
          subst
            (λ xs.
              IsReady mss oversize n m (on_last f xs)
              × (queued_bytes (on_last f xs) ≡ queued_bytes xs))
            (sym nothing) (subst (IsReady mss oversize n m) nothing r, refl)
      | inr (last, e) ↦
          let room = last_seg-HasRoom mss oversize n m segs last r e in
          let ready =
            IsReady-on_last mss oversize oversize n m f [] segs last r e (g last room.room_filled.0)
              (subst (λ ps. Room ps oversize) (sym (p last)) room.room_spare)
              (omega (arith, room.room_fits)) in
          (
            subst (λ (k : ℕ). IsReady mss oversize n k (on_last f segs)) end ready.0,
            ready.1 ∙ append-nil (queued_bytes segs),
          )
    ]
