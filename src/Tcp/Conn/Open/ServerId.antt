-- ===== src/Tcp/Conn/Open/ServerId.antt =====
-- That the search of `tcp_new_server_id` of src/tcp.c ends.
use rudp.Tcp.Seq.{u32_mod}
use rudp.Prelude.{
  ◌∙◌, sym, ap, refl, zero, suc, inr, inl, none, false, some, [], if_elim, zero, ◌==◌, Bool-cases,
  arith, suc, length, ◌≤◌, if◌then◌else◌, true, Option, ◌≢◌, ◌<◌, ◌≡◌, ◌%◌, ◌∷◌, List, ◌+◌, ℕ,
}
use rudp.Tcp.Conn.Open.{counted_on, new_server_id, server_id_loop}
use rudp.Tcp.Ports.{contains}

-- The first element `n` is removed.
remove_first : ℕ → List ℕ → List ℕ
remove_first n [] = []
remove_first n (m ∷ ms) = let rest = m ∷ remove_first n ms in if m == n then ms else rest

length-remove_first :
    (n : ℕ) (ms : List ℕ) → contains n ms ≡ true → length (remove_first n ms) + 1 ≡ length ms
unfolding remove_first
length-remove_first n [] h = absurd (cc h)
length-remove_first n (m ∷ ms) h = elim (Bool-cases (m == n)) [
  | inl same ↦ rw same (omega arith)
  | inr other ↦
      let later : contains n ms ≡ true = cc (h, other) in
      rw other (omega (arith, length-remove_first n ms later))
]

contains-remove_first :
    (a n : ℕ) (ms : List ℕ) → a ≢ n → contains a ms ≡ true → contains a (remove_first n ms) ≡ true
unfolding remove_first
contains-remove_first a n [] e h = absurd (cc h)
contains-remove_first a n (m ∷ ms) e h = elim (Bool-cases (m == n)) [
  | inl same ↦
      let other : (m == a) ≡ false = ground arith in
      let later : contains a ms ≡ true = cc (h, other) in rw same later
  | inr other ↦ elim (Bool-cases (m == a)) [
    | inl here ↦ rw (other, here) refl
    | inr there ↦
        let later : contains a ms ≡ true = cc (h, there) in
        rw (other, there) (contains-remove_first a n ms e later)
  ]
]

-- A list has room for no more than its length of different elements.
different_elements :
    (k : ℕ) (f : ℕ → ℕ) (ms : List ℕ)
    → ((i j : ℕ) → i < k → j < k → f i ≡ f j → i ≡ j)
    → ((i : ℕ) → i < k → contains (f i) ms ≡ true)
    → k ≤ length ms
different_elements zero f ms inj h = omega arith
different_elements (suc k) f ms inj h =
    let last = h k (omega arith) in
    let rest =
      different_elements k f (remove_first (f k) ms)
        (λ i j a b e. inj i j (omega arith) (omega arith) e)
        (λ i a.
          contains-remove_first (f i) (f k) ms
            (λ e. let same : i ≡ k = inj i k (omega arith) (omega arith) e in omega arith)
            (h i (omega arith))) in
    omega (arith, rest, length-remove_first (f k) ms last)

-- There are so many ids, from 1 on.
abbrev id_count : ℕ
id_count = 0xffffffff

-- The id that is tried `i` rounds behind `id`.
abbrev id_behind : ℕ → ℕ → ℕ
id_behind id i = (id + i) % id_count + 1

-- What `k` rounds find: an id that is not in use, or that all that were tried are in use.
abbrev Tried : ℕ → List ℕ → ℕ → Option ℕ → Type 0
Tried k used id none = (i : ℕ) → i < k → contains (id_behind id i) used ≡ true
Tried k used id (some found) = (0 < found) × (found < u32_mod) × (contains found used ≡ false)

tried_behind :
    (k : ℕ) (used : List ℕ) (id next i : ℕ)
    → next ≡ id % id_count + 1
    → contains next used ≡ true
    → ((j : ℕ) → j < k → contains (id_behind next j) used ≡ true)
    → i < suc k
    → contains (id_behind id i) used ≡ true
tried_behind k used id next zero e c t l =
    let same : next ≡ id_behind id 0 = omega (arith, e) in
    ap (λ (n : ℕ). contains n used) (sym same) ∙ c
tried_behind k used id next (suc i) e c t l =
    let same : id_behind next i ≡ id_behind id (suc i) = omega (arith, e) in
    ap (λ (n : ℕ). contains n used) (sym same) ∙ t i (omega arith)

Tried-later :
    (k : ℕ) (used : List ℕ) (id next : ℕ) (r : Option ℕ)
    → next ≡ id % id_count + 1
    → contains next used ≡ true
    → Tried k used next r
    → Tried (suc k) used id r
Tried-later k used id next none e c t = λ i l. tried_behind k used id next i e c t l
Tried-later k used id next (some found) e c t = t

server_id_loop-Tried :
    (k : ℕ) (used : List ℕ) (id : ℕ) → id < u32_mod → Tried k used id (server_id_loop k used id)
unfolding server_id_loop
server_id_loop-Tried zero used id h = λ i l. absurd (omega arith)
server_id_loop-Tried (suc k) used id h =
    let next = if (id + 1) % u32_mod == 0 then 1 else (id + 1) % u32_mod in
    let e : next ≡ id % id_count + 1 = ground arith in
    if_elim (Tried (suc k) used id) (contains next used) (server_id_loop k used next) (some next)
      (λ c.
        Tried-later k used id next (server_id_loop k used next) e c
          (server_id_loop-Tried k used next (omega (arith, e))))
      (λ c. (omega (arith, e), omega (arith, e), c))

Tried-ends :
    (used : List ℕ) (id : ℕ) (r : Option ℕ)
    → length used + 1 < id_count
    → id < u32_mod
    → Tried (suc (length used)) used id r
    → (found : ℕ) × (counted_on r ≡ some ((found + 1) % u32_mod))
      × (0 < found)
      × (found < u32_mod)
      × (contains found used ≡ false)
Tried-ends used id none l h t =
    let full =
      different_elements (suc (length used)) (id_behind id) used (λ i j a b e. omega (arith, e))
        t in
    let clash : ⊥ = omega (arith, full) in absurd clash
Tried-ends used id (some found) l h t = (found, refl, t.0, t.1, t.2)

-- If less than 2^32 - 2 ids are in use, the search of `tcp_new_server_id` ends after at most one
-- round more than there are ids in use: it finds an id that is not 0 and not in use, and the
-- function returns the number behind it.
pub new_server_id-ends :
    (used : List ℕ) (server_id : ℕ)
    → length used + 1 < id_count
    → server_id < u32_mod
    → (found : ℕ) × (new_server_id used server_id ≡ some ((found + 1) % u32_mod))
      × (0 < found)
      × (found < u32_mod)
      × (contains found used ≡ false)
unfolding new_server_id
new_server_id-ends used server_id l h =
    Tried-ends used server_id (server_id_loop (suc (length used)) used server_id) l h
      (server_id_loop-Tried (suc (length used)) used server_id h)
