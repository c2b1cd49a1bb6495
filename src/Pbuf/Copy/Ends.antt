-- ===== src/Pbuf/Copy/Ends.antt =====
-- That the loop of `pbuf_copy` of src/pbuf.c ends.
use rudp.Tcp.Out.Make.{is_empty}
use rudp.Pbuf.Write.{write_payload}
use rudp.Err.{ok, val, arg, Err}
use rudp.Prelude.{
  zero, ◌||◌, not, ◌&&◌, ◌==◌, drop, take, ap, none, refl, some, ◌-◌, leb, ltb, min, suc, ◌+◌,
  if_elim, [], arith, Option, length, ◌≡◌, ◌≤◌, ◌∷◌, ℕ,
}
use rudp.Pbuf.{Chain, Pbuf}
use rudp.Pbuf.Copy.{is_queue, copy, copy_rounds, next_from, filled}

-- An offset in the first pbuf.
abbrev Within : Chain → ℕ → Type 0
Within [] offset = Unit {0}
Within (p ∷ ps) offset = offset ≤ p.len

-- There is a result, with as many pbufs in the target.
abbrev pub Ended : (count : ℕ) → Option (Chain × Err) → Type 0
Ended count none = ⊥
Ended count (some (to, err)) = length to ≡ count

Ended-filled :
    (count : ℕ) (q : Pbuf) (r : Option (Chain × Err))
    → Ended count r
    → Ended (suc count) (filled q r)
Ended-filled count q none e = e
Ended-filled count q (some (to, err)) e = ap suc e

Within-zero : (ps : Chain) → Within ps 0
Within-zero [] = tt
Within-zero (p ∷ ps) = omega arith

next_from-Within :
    (p : Pbuf) (ps : Chain) (offset : ℕ)
    → offset ≤ p.len
    → let (from, at) = next_from p ps offset in Within from at × (length from ≤ suc (length ps))
next_from-Within p ps offset h =
    if_elim (λ (x : Chain × ℕ). Within x.0 x.1 × (length x.0 ≤ suc (length ps))) (leb p.len offset)
      (ps, 0) (p ∷ ps, offset) (λ t. (Within-zero ps, omega arith)) (λ t. (h, omega arith))

next_from-less :
    (p : Pbuf) (ps : Chain) (offset : ℕ)
    → offset ≡ p.len
    → length (next_from p ps offset).0 ≡ length ps
next_from-less p ps offset h =
    if_elim (λ (x : Chain × ℕ). length x.0 ≡ length ps) (leb p.len offset) (ps, 0) (p ∷ ps, offset)
      (λ t. refl) (λ t. let clash : ⊥ = ground arith in absurd clash)

copy_rounds-Ended :
    (f : ℕ) (to from : Chain) (i j : ℕ)
    → Within to i
    → Within from j
    → length to + length from ≤ f
    → 1 ≤ f
    → Ended (length to) (copy_rounds f to i from j)
unfolding copy_rounds
copy_rounds-Ended zero to from i j a b h l = let clash : ⊥ = omega (arith, l) in absurd clash
copy_rounds-Ended (suc f) [] from i j a b h l = refl
copy_rounds-Ended (suc f) (q ∷ qs) [] i j a b h l = refl
copy_rounds-Ended (suc f) (q ∷ qs) (p ∷ ps) i j a b h l =
    let n = min (p.len - j) (q.len - i) in
    let q' = write_payload q i (take n (drop (p.payload + j) p.block)) in
    let (from', at) = next_from p ps (j + n) in
    let w = next_from-Within p ps (j + n) (omega (arith, b)) in
    let onward = filled q' (copy_rounds f qs 0 from' at) in
    let stay = copy_rounds f (q' ∷ qs) (i + n) from' at in
    if_elim (Ended (suc (length qs))) (i + n == q.len) _ _
      (λ t.
        if_elim (Ended (suc (length qs))) (is_empty qs && not (is_empty from'))
          (some (q' ∷ qs, arg)) _ (λ u. refl)
          (λ u.
            if_elim (Ended (suc (length qs))) (is_queue from' || is_queue qs) (some (q' ∷ qs, val))
              _ (λ v. refl)
              (λ v.
                if_elim (Ended (suc (length qs))) (is_empty from') (some (q' ∷ qs, ok)) onward
                  (λ x. refl)
                  (λ x. Ended-filled (length qs) q' (copy_rounds f qs 0 from' at) (
                    copy_rounds-Ended f qs from' 0 at (Within-zero qs) w.0 (omega (arith, w.1, h))
                      (omega (arith, h)))))))
      (λ t.
        let full : j + n ≡ p.len = ground arith in
        if_elim (Ended (suc (length qs))) (is_queue from' || is_queue (q' ∷ qs))
          (some (q' ∷ qs, val)) stay (λ u. refl)
          (λ u.
            copy_rounds-Ended f (q' ∷ qs) from' (i + n) at (omega arith) w.0
              (omega (arith, next_from-less p ps (j + n) full, h)) (omega (arith, h))))

-- The loop of `pbuf_copy` ends after at most as many rounds as both chains have pbufs, whatever their
-- lengths say, and the target keeps its number of pbufs.
pub copy-Ended : (to from : Chain) → Ended (length to) (copy to from)
unfolding copy
copy-Ended [] from = refl
copy-Ended (q ∷ qs) [] = refl
copy-Ended (q ∷ qs) (p ∷ ps) =
    if_elim (Ended (length (q ∷ qs))) (ltb q.tot_len p.tot_len) (some (q ∷ qs, arg))
      (copy_rounds (length (q ∷ qs) + length (p ∷ ps)) (q ∷ qs) 0 (p ∷ ps) 0) (λ t. refl)
      (λ t.
        copy_rounds-Ended (length (q ∷ qs) + length (p ∷ ps)) (q ∷ qs) (p ∷ ps) 0 0 (omega arith)
          (omega arith) (omega arith) (omega arith))
