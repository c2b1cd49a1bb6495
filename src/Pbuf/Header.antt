-- ===== src/Pbuf/Header.antt =====
-- src/pbuf.c: `pbuf_header_impl`, `pbuf_header` and `pbuf_header_force`.
use rudp.Prelude.{
  ℕ, zero, ◌⊎◌, le→leb, le→not_ltb, suc, ◌+◌, ◌-◌, ◌%◌, ◌≤◌, ◌<◌, ◌≡◌, refl, sym, ap, ◌∙◌, Bool,
  true, false, [], ◌∷◌, ◌++◌, arith, leb, ltb, if◌then◌else◌, take, drop, drop-take, drop-drop, inr,
  drop-append_left,
}
use rudp.Prelude.Int.{ℤ, pos, negsuc}
use rudp.Pbuf.{
  length-payload_bytes, Pbuf, PbufType, ram, rom, ref, pool, Chain, u16_mod, bytes, payload_bytes,
  tot_len, IsChain,
}

-- Whether the type stores its payload behind the struct, and not in memory of somebody else.
abbrev pub owns_payload : PbufType → Bool
owns_payload ram = true
owns_payload pool = true
owns_payload rom = false
owns_payload ref = false

-- The payload pointer moves on by `m`, and the lengths shrink.
abbrev pub hide_bytes : Pbuf → ℕ → Pbuf
hide_bytes p m = record p {
  payload = p.payload + m;
  len = (p.len + u16_mod - m) % u16_mod;
  tot_len = (p.tot_len + u16_mod - m) % u16_mod;
}

-- The payload pointer moves back by `n`, and the lengths grow.
abbrev pub reveal_bytes : Pbuf → ℕ → Pbuf
reveal_bytes p n = record p {
  payload = p.payload - n;
  len = (p.len + n) % u16_mod;
  tot_len = (p.tot_len + n) % u16_mod;
}

-- `pbuf_header_impl`, with the result 1 for failure. Offset 0 of the block of a pbuf that owns its
-- payload is the first byte behind the struct, in front of which the pointer must not move.
header_impl : Chain → ℤ → Bool → Chain × ℕ
header_impl [] inc force = ([], 0)
header_impl (p ∷ ps) (pos zero) force = (p ∷ ps, 0)
header_impl (p ∷ ps) (pos (suc n)) force =
    if owns_payload p.kind
    then (if ltb p.payload (suc n) then (p ∷ ps, 1) else (reveal_bytes p (suc n) ∷ ps, 0))
    else (if force then (reveal_bytes p (suc n) ∷ ps, 0) else (p ∷ ps, 1))
header_impl (p ∷ ps) (negsuc m) force =
    if leb (suc m) p.len then (hide_bytes p (suc m) ∷ ps, 0) else (p ∷ ps, 1)

-- `pbuf_header`.
unfoldable pub header : Chain → ℤ → Chain × ℕ
unfolding header_impl
header ps inc = header_impl ps inc false

-- `pbuf_header_force`.
unfoldable pub header_force : Chain → ℤ → Chain × ℕ
unfolding header_impl
header_force ps inc = header_impl ps inc true

-- A refused adjustment changes nothing, and the result is 0 or 1.
pub header_refused :
    (ps : Chain) (inc : ℤ)
    → (((header ps inc).1 ≡ 1) × ((header ps inc).0 ≡ ps)) ⊎ ((header ps inc).1 ≡ 0)
unfolding header
header_refused [] inc = inr refl
header_refused (p ∷ ps) (pos zero) = inr refl
header_refused (p ∷ ps) (pos (suc n)) = ground arith
header_refused (p ∷ ps) (negsuc m) = ground arith

payload_bytes-hide :
    (p : Pbuf) (m : ℕ)
    → m ≤ p.len
    → p.len < u16_mod
    → payload_bytes (hide_bytes p m) ≡ drop m (payload_bytes p)
payload_bytes-hide p m h k =
    let e : (p.len + u16_mod - m) % u16_mod ≡ p.len - m = omega arith in
    ap (λ (i : ℕ). take i (drop (p.payload + m) p.block)) e
    ∙ ap (take (p.len - m)) (sym (drop-drop m p.payload p.block))
    ∙ sym (drop-take m p.len (drop p.payload p.block))

-- If the first pbuf of a well-formed chain holds `suc m` bytes, hiding that many succeeds: the
-- chain loses its first `suc m` bytes and keeps its invariant.
pub header_hide :
    (p : Pbuf) (ps : Chain) (m : ℕ)
    → IsChain (p ∷ ps)
    → suc m ≤ p.len
    → ((header (p ∷ ps) (negsuc m)).1 ≡ 0)
      × (bytes (header (p ∷ ps) (negsuc m)).0 ≡ drop (suc m) (bytes (p ∷ ps)))
      × IsChain (header (p ∷ ps) (negsuc m)).0
      × (tot_len (header (p ∷ ps) (negsuc m)).0 + suc m ≡ p.tot_len)
unfolding header
header_hide p ps m c h = rw (le→leb (suc m) p.len h) (
  refl,
  ap (λ xs. xs ++ bytes ps) (payload_bytes-hide p (suc m) h (omega arith))
      ∙ sym (
          drop-append_left (suc m) (payload_bytes p) (bytes ps)
            (omega (arith, length-payload_bytes p c.1))),
  (omega arith, omega arith, omega arith, c.3),
  omega arith,
)

pub header_hide-eq :
    (p : Pbuf) (ps : Chain) (m : ℕ)
    → suc m ≤ p.len
    → header (p ∷ ps) (negsuc m) ≡ (hide_bytes p (suc m) ∷ ps, 0)
unfolding header
header_hide-eq p ps m h = rw (le→leb (suc m) p.len h)

hide-reveal :
    (p : Pbuf) (n : ℕ)
    → p.len < u16_mod
    → p.tot_len < u16_mod
    → n ≤ p.payload
    → p.len + n < u16_mod
    → p.tot_len + n < u16_mod
    → hide_bytes (reveal_bytes p n) n ≡ p
hide-reveal p n h k room a b = ground arith

-- If the first pbuf of a well-formed chain owns its payload and has room for `suc n` bytes in front
-- of it, and the total stays below 2^16, revealing them succeeds: the chain begins with `suc n`
-- bytes more and keeps its invariant, and hiding them again restores it.
pub header_reveal :
    (p : Pbuf) (ps : Chain) (n : ℕ)
    → IsChain (p ∷ ps)
    → owns_payload p.kind ≡ true
    → p.tot_len + suc n < u16_mod
    → suc n ≤ p.payload
    → ((header (p ∷ ps) (pos (suc n))).1 ≡ 0)
      × (drop (suc n) (bytes (header (p ∷ ps) (pos (suc n))).0) ≡ bytes (p ∷ ps))
      × IsChain (header (p ∷ ps) (pos (suc n))).0
      × (header (header (p ∷ ps) (pos (suc n))).0 (negsuc n) ≡ (p ∷ ps, 0))
unfolding header
header_reveal p ps n c own small room =
    let grown : IsChain (reveal_bytes p (suc n) ∷ ps) =
      (omega arith, omega arith, omega arith, c.3) in
    let fits : suc n ≤ (p.len + suc n) % u16_mod = omega arith in
    let hidden = header_hide-eq (reveal_bytes p (suc n)) ps n fits in
    let back =
      hidden
      ∙ ap (λ q. (q ∷ ps, 0)) (hide-reveal p (suc n) (omega arith) c.2 room (omega arith) small) in
    rw (own, le→not_ltb (suc n) p.payload room)
      (
        refl,
        sym (header_hide (reveal_bytes p (suc n)) ps n grown fits).1 ∙ ap (λ r. bytes r.0) back,
        grown,
        back,
      )

-- How the header is revealed.
pub header_reveal-eq :
    (p : Pbuf) (ps : Chain) (n : ℕ)
    → owns_payload p.kind ≡ true
    → suc n ≤ p.payload
    → header (p ∷ ps) (pos (suc n)) ≡ (reveal_bytes p (suc n) ∷ ps, 0)
unfolding header
header_reveal-eq p ps n own room = rw (own, le→not_ltb (suc n) p.payload room)
