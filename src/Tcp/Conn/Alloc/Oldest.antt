-- ===== src/Tcp/Conn/Alloc/Oldest.antt =====
-- Which connection the loops of src/tcp.c kill when a control block is needed.
use rudp.Tcp.Conn.Alloc.{oldest}
use rudp.Tcp.Conn.{age}
use rudp.Tcp.Types.{Pcb}
use rudp.Prelude.{
  refl, arith, ◌∙◌, leb, [], ap, ◌&&◌, inr, Bool-cases, inl, ◌≤◌, length, ◌+◌, some, ◌∷◌, ◌++◌, ◌⊎◌,
  ◌<◌, true, All, ◌≡◌, List, Option, Bool, ℕ,
}

-- The result `r` of the loop over `pcbs`, the first of which has the index `n`, when the oldest one
-- before them, if there is one, is `best` and as old as `least`.
abbrev pub IsOldest :
    (tcp_ticks : ℕ)
    → (Pcb → Bool)
    → (least : ℕ) → (best : Option ℕ) → (n : ℕ) → List Pcb
    → Option ℕ
    → Type 0
IsOldest tcp_ticks chosen least best n pcbs r =
    ((r ≡ best) × All (λ pcb. chosen pcb ≡ true → age tcp_ticks pcb < least) pcbs)
    ⊎ ((before : List Pcb) × (pcb : Pcb) × (behind : List Pcb) × (pcbs ≡ before ++ (pcb ∷ behind))
        × (r ≡ some (n + length before))
        × (chosen pcb ≡ true)
        × (least ≤ age tcp_ticks pcb)
        × All (λ other. chosen other ≡ true → age tcp_ticks other ≤ age tcp_ticks pcb) before
        × All (λ other. chosen other ≡ true → age tcp_ticks other < age tcp_ticks pcb) behind)

-- The first one is older than all before it.
IsOldest-take :
    (tcp_ticks : ℕ) (chosen : Pcb → Bool) (least : ℕ) (best : Option ℕ) (n : ℕ) (pcb : Pcb)
    (pcbs : List Pcb) (r : Option ℕ)
    → chosen pcb ≡ true
    → least ≤ age tcp_ticks pcb
    → IsOldest tcp_ticks chosen (age tcp_ticks pcb) (some n) (n + 1) pcbs r
    → IsOldest tcp_ticks chosen least best n (pcb ∷ pcbs) r
IsOldest-take tcp_ticks chosen least best n pcb pcbs r c l (inl (e, all)) =
    inr ([], pcb, pcbs, refl, e ∙ ap some (omega arith), c, l, tt, all)
IsOldest-take tcp_ticks chosen least best n pcb pcbs r c l
      (inr (before, q, behind, e, f, d, m, x, y)) =
    inr (
      pcb ∷ before,
      q,
      behind,
      ap (λ xs. pcb ∷ xs) e,
      f ∙ ap some (omega arith),
      d,
      omega arith,
      (λ h. m, x),
      y,
    )

-- The first one is not chosen, or not as old.
IsOldest-skip :
    (tcp_ticks : ℕ) (chosen : Pcb → Bool) (least : ℕ) (best : Option ℕ) (n : ℕ) (pcb : Pcb)
    (pcbs : List Pcb) (r : Option ℕ)
    → (chosen pcb ≡ true → age tcp_ticks pcb < least)
    → IsOldest tcp_ticks chosen least best (n + 1) pcbs r
    → IsOldest tcp_ticks chosen least best n (pcb ∷ pcbs) r
IsOldest-skip tcp_ticks chosen least best n pcb pcbs r c (inl (e, all)) = inl (e, (c, all))
IsOldest-skip tcp_ticks chosen least best n pcb pcbs r c
      (inr (before, q, behind, e, f, d, m, x, y)) =
    inr (
      pcb ∷ before,
      q,
      behind,
      ap (λ xs. pcb ∷ xs) e,
      f ∙ ap some (omega arith),
      d,
      m,
      (λ h. let l = c h in omega arith, x),
      y,
    )

-- The loop of `tcp_kill_timewait` and of `tcp_kill_state` finds, of those control blocks that are
-- chosen, one that has been inactive for the longest time, the last such one on the list; it finds
-- none exactly if none is chosen that has been inactive for as long as is asked.
pub oldest-IsOldest :
    (tcp_ticks : ℕ) (chosen : Pcb → Bool) (least : ℕ) (best : Option ℕ) (n : ℕ) (pcbs : List Pcb)
    → IsOldest tcp_ticks chosen least best n pcbs (oldest tcp_ticks chosen least best n pcbs)
unfolding oldest
oldest-IsOldest tcp_ticks chosen least best n [] = inl (refl, tt)
oldest-IsOldest tcp_ticks chosen least best n (pcb ∷ pcbs) =
    elim (Bool-cases (chosen pcb && leb least (age tcp_ticks pcb))) [
      | inl older ↦ rw older (
          IsOldest-take tcp_ticks chosen least best n pcb pcbs _ (ground arith) (ground arith)
            (oldest-IsOldest tcp_ticks chosen (age tcp_ticks pcb) (some n) (n + 1) pcbs))
      | inr newer ↦ rw newer (
          IsOldest-skip tcp_ticks chosen least best n pcb pcbs _ (λ c. ground arith)
            (oldest-IsOldest tcp_ticks chosen least best (n + 1) pcbs))
    ]
