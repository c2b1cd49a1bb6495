-- ===== src/Pbuf/Free.antt =====
-- src/pbuf.c: `pbuf_free`, `pbuf_ref` and `pbuf_clen`.
use rudp.Prelude.{
  ℕ, ◌+◌, ◌-◌, ◌%◌, ◌<◌, ◌≡◌, ◌∙◌, [], ◌∷◌, ◌++◌, arith, ◌==◌, if◌then◌else◌, length, All,
}
use rudp.Pbuf.{Pbuf, Chain, u8_mod, u16_mod}

-- The loop of `pbuf_free`: the chain that is left, and how many pbufs went back to their pools.
-- `--(p->ref)` is on a u16_t.
pub free_loop : Chain → ℕ × Chain
free_loop [] = (0, [])
free_loop (p ∷ ps) =
    let rest = free_loop ps in
    let refs = (p.refs + u16_mod - 1) % u16_mod in
    if refs == 0 then ((rest.0 + 1) % u8_mod, rest.1) else (0, record p { refs = refs } ∷ ps)

-- The count that is returned is a u8_t; a null pointer gives 0.
unfoldable pub free : Chain → ℕ × Chain
unfolding free_loop
free ps = free_loop ps

-- `pbuf_ref`.
unfoldable pub add_ref : Chain → Chain
add_ref [] = []
add_ref (p ∷ ps) = record p { refs = (p.refs + 1) % u16_mod } ∷ ps

clen_loop : ℕ → Chain → ℕ
clen_loop len [] = len
clen_loop len (p ∷ ps) = clen_loop ((len + 1) % u8_mod) ps

-- `pbuf_clen`, which counts in a u8_t.
unfoldable pub clen : Chain → ℕ
unfolding clen_loop
clen = clen_loop 0

clen_loop-length : (n : ℕ) (ps : Chain) → n < u8_mod → clen_loop n ps ≡ (n + length ps) % u8_mod
unfolding clen_loop
clen_loop-length n [] h = omega arith
clen_loop-length n (p ∷ ps) h = clen_loop-length ((n + 1) % u8_mod) ps (omega arith) ∙ omega arith

-- The count is the length of the chain modulo 256.
pub clen-length : (ps : Chain) → clen ps ≡ length ps % u8_mod
unfolding clen
clen-length ps = clen_loop-length 0 ps (omega arith) ∙ omega arith

-- A front of the chain that nothing but the chain refers to.
abbrev pub Unshared : Chain → Type 0
Unshared = All (λ p. p.refs ≡ 1)

-- A pbuf that keeps a reference when one is dropped.
abbrev pub IsShared : Pbuf → Type 0
IsShared p = (1 < p.refs) × (p.refs < u16_mod)

-- Freeing stops at the first pbuf that is still referenced, which loses one reference; all pbufs
-- in front of it are given back, and they are counted modulo 256.
free-stop :
    (xs : Chain) (p : Pbuf) (ps : Chain)
    → Unshared xs
    → IsShared p
    → free (xs ++ p ∷ ps) ≡ (length xs % u8_mod, record p { refs = p.refs - 1 } ∷ ps)
unfolding free
free-stop [] p ps u s = ground arith
free-stop (x ∷ xs) p ps u s = ground (arith, free-stop xs p ps u.1 s)

-- A chain that nobody else refers to is given back whole.
pub free-all : (ps : Chain) → Unshared ps → free ps ≡ (length ps % u8_mod, [])
unfolding free
free-all [] u = ground arith
free-all (p ∷ ps) u = ground (arith, free-all ps u.1)

-- With at least one reference and room for another, a reference that is taken and dropped again
-- leaves the chain as it was, and frees nothing.
free-add_ref :
    (p : Pbuf) (ps : Chain)
    → 0 < p.refs
    → p.refs + 1 < u16_mod
    → free (add_ref (p ∷ ps)) ≡ (0, p ∷ ps)
unfolding free add_ref
free-add_ref p ps h k = ground arith
