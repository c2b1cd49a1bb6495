-- ===== src/Pbuf/Read/Find.antt =====
-- What the searches of src/pbuf.c, `pbuf_memcmp` and `pbuf_memfind`, say of the bytes of the chain.
use rudp.Prelude.{
  lt→ltb, ℕ, zero, suc, ◌+◌, ◌-◌, ◌%◌, ◌≤◌, ◌<◌, ◌≡◌, refl, sym, ap, ◌∙◌, List, [], ◌∷◌, arith, leb,
  ◌==◌, if◌then◌else◌, drop, get_or, length, Bool-cases, inl, inr, ◌↔◌, ◌⊎◌, leb→le, leb→lt, subst,
}
use rudp.Pbuf.{Chain, u16_mod, bytes, tot_len, IsChain, length-bytes}
use rudp.Pbuf.Read.{skip, memcmp_loop, memcmp, compare_at, memfind, memfind_loop}
use rudp.Pbuf.Read.Bytes.{get_at-bytes, Skipped, skip-Skipped}

-- That `xs` begins with the first list.
abbrev pub IsPrefix : List ℕ → List ℕ → Type 0
IsPrefix [] xs = Unit {0}
IsPrefix (b ∷ s) [] = ⊥
IsPrefix (b ∷ s) (x ∷ xs) = (x ≡ b) × IsPrefix s xs

drop-get_or : (xs : List ℕ) (n : ℕ) → n < length xs → drop n xs ≡ get_or xs n 0 ∷ drop (n + 1) xs
drop-get_or [] n h = elim h [ ]
drop-get_or (x ∷ xs) zero h = refl
drop-get_or (x ∷ xs) (suc n) h =
    let e : suc (n + 1) ≡ suc n + 1 = omega arith in
    drop-get_or xs n (omega arith) ∙ ap (λ (k : ℕ). get_or xs n 0 ∷ drop k (x ∷ xs)) e

-- One round of the loop of `pbuf_memcmp`.
round_iff :
    (g b rest i : ℕ) (T : Type 0)
    → i + 1 < u16_mod
    → (rest ≡ 0) ↔ T
    → ((if g == b then rest else (i + 1) % u16_mod) ≡ 0) ↔ ((g ≡ b) × T)
round_iff g b rest i T h r = ground arith

memcmp_loop-IsPrefix :
    (q : Chain) (start i : ℕ) (s : List ℕ)
    → IsChain q
    → start + i + length s ≤ tot_len q
    → tot_len q < u16_mod
    → (memcmp_loop q start i s ≡ 0) ↔ IsPrefix s (drop (start + i) (bytes q))
unfolding memcmp_loop
memcmp_loop-IsPrefix q start i [] c h k = (λ e. tt, λ e. refl)
memcmp_loop-IsPrefix q start i (b ∷ s) c h k =
    let e : (start + i) % u16_mod ≡ start + i = omega arith in
    let f : start + (i + 1) ≡ start + i + 1 = omega arith in
    let rest = memcmp_loop-IsPrefix q start (i + 1) s c (omega arith) k in
    rw
      (
        e,
        get_at-bytes q (start + i) c,
        drop-get_or (bytes q) (start + i) (omega (arith, length-bytes q c)),
      )
      (round_iff (get_or (bytes q) (start + i) 0) b (memcmp_loop q start (i + 1) s) i
        (IsPrefix s (drop (start + i + 1) (bytes q))) (omega arith)
        (subst (λ (n : ℕ). (memcmp_loop q start (i + 1) s ≡ 0) ↔ IsPrefix s (drop n (bytes q))) f
          rest))

-- The comparison from where `pbuf_skip` ended.
compare_at-IsPrefix :
    (ps : Chain) (offset : ℕ) (s : List ℕ) (r : Chain × ℕ)
    → IsChain ps
    → offset + length s ≤ tot_len ps
    → 0 < length s
    → Skipped ps offset r
    → (compare_at r s ≡ 0) ↔ IsPrefix s (drop offset (bytes ps))
unfolding compare_at
compare_at-IsPrefix ps offset s ([], i) c h k t = absurd (omega arith)
compare_at-IsPrefix ps offset s (q ∷ rest, i) c h k t =
    let e : i + 0 ≡ i = omega arith in
    let there = memcmp_loop-IsPrefix (q ∷ rest) i 0 s t.1 (omega arith) t.1.2 in
    rw (lt→ltb i q.len t.0) (
      subst (λ xs. (memcmp_loop (q ∷ rest) i 0 s ≡ 0) ↔ IsPrefix s xs) t.3
        (subst
          (λ (n : ℕ). (memcmp_loop (q ∷ rest) i 0 s ≡ 0) ↔ IsPrefix s (drop n (bytes (q ∷ rest)))) e
          there))

-- For a string that is not empty and fits in a well-formed chain from the offset on, `pbuf_memcmp`
-- returns 0 exactly if the bytes of the chain at the offset are the string.
pub memcmp-IsPrefix :
    (ps : Chain) (offset : ℕ) (s : List ℕ)
    → IsChain ps
    → offset + length s ≤ tot_len ps
    → 0 < length s
    → (memcmp ps offset s ≡ 0) ↔ IsPrefix s (drop offset (bytes ps))
unfolding memcmp
memcmp-IsPrefix ps offset s c h k =
    compare_at-IsPrefix ps offset s (skip ps offset) c h k (skip-Skipped ps offset c)

-- No match at a place from `i` on and before `n`.
abbrev pub NoMatch : Chain → List ℕ → (i n : ℕ) → Type 0
NoMatch ps s i n = (j : ℕ) → i ≤ j → j < n → ¬ IsPrefix s (drop j (bytes ps))

-- The result `r` of a search among the places from `i` on and before `n`.
abbrev pub Search : Chain → List ℕ → (i n r : ℕ) → Type 0
Search ps s i n r =
    ((r ≡ 0xffff) × NoMatch ps s i n)
    ⊎ ((i ≤ r) × (r < n) × IsPrefix s (drop r (bytes ps)) × NoMatch ps s i r)

NoMatch-cons :
    (ps : Chain) (s : List ℕ) (i n : ℕ)
    → ¬ IsPrefix s (drop i (bytes ps))
    → NoMatch ps s (i + 1) n
    → NoMatch ps s i n
NoMatch-cons ps s i n differs later j h k = elim (Bool-cases (j == i)) [
  | inl e ↦
      let f : j ≡ i = ground arith in
      subst (λ (m : ℕ). ¬ IsPrefix s (drop m (bytes ps))) (sym f) differs
  | inr e ↦ let ne : i + 1 ≤ j = ground arith in later j ne k
]

memfind_loop-Search :
    (k : ℕ) (ps : Chain) (s : List ℕ) (i n : ℕ)
    → IsChain ps
    → 0 < length s
    → n + length s ≡ tot_len ps + 1
    → i + k ≡ n
    → Search ps s i n (memfind_loop k ps s i)
unfolding memfind_loop
memfind_loop-Search zero ps s i n c z e h = inl (refl, λ j a b. absurd (omega arith))
memfind_loop-Search (suc k) ps s i n c z e h =
    let iff = memcmp-IsPrefix ps i s c (omega arith) z in
    elim (Bool-cases (memcmp ps i s == 0)) [
      | inl hit ↦
          let eq : memcmp ps i s ≡ 0 = ground arith in
          rw hit (inr (omega arith, omega arith, iff.0 eq, λ j a b. absurd (omega arith)))
      | inr miss ↦
          let differs : ¬ IsPrefix s (drop i (bytes ps)) = λ y. let eq = iff.1 y in ground arith in
          rw miss (elim (memfind_loop-Search k ps s (i + 1) n c z e (omega arith)) [
            | inl none ↦ inl (none.0, NoMatch-cons ps s i n differs none.1)
            | inr found ↦ inr (
              omega (arith, found.0),
              found.1,
              found.2,
              NoMatch-cons ps s i (memfind_loop k ps s (i + 1)) differs found.3,
            )
          ])
    ]

-- In a well-formed chain of less than 2^16 bytes, and for a string that is not empty,
-- `pbuf_memfind` returns the first place, from the start on, where the whole string stands in the
-- chain, and 0xffff if there is none.
pub memfind-Search :
    (ps : Chain) (s : List ℕ) (start_offset : ℕ)
    → IsChain ps
    → tot_len ps < u16_mod
    → 0 < length s
    → Search ps s start_offset (tot_len ps + 1 - length s) (memfind ps s start_offset)
unfolding memfind
memfind-Search ps s start_offset c small z =
    elim (Bool-cases (leb (length s + start_offset) (tot_len ps))) [
      | inl fits ↦
          let h = leb→le (length s + start_offset) (tot_len ps) fits in
          let e : (tot_len ps + u16_mod - length s) % u16_mod ≡ tot_len ps - length s =
            omega arith in
          rw (fits, e)
            (memfind_loop-Search (tot_len ps - length s + 1 - start_offset) ps s start_offset
              (tot_len ps + 1 - length s) c z (omega arith) (omega arith))
      | inr short ↦
          let h = leb→lt (length s + start_offset) (tot_len ps) short in
          rw short (inl (refl, λ j a b. absurd (omega arith)))
    ]
