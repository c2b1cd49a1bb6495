-- ===== src/Pbuf/Read/Bytes.antt =====
-- What the readers of src/pbuf.c return, in terms of the bytes of the chain.
use rudp.Prelude.{
  drop-take, take-nil, drop-append_left, take_to_min, take-append, get_or-append_left, drop-nil,
  drop-drop, get_or-take, get_or-drop, lt→ltb, leb→lt, get_or_out, leb→le, drop-append_right, ℕ,
  ◌+◌, ◌-◌, ◌≤◌, ◌<◌, ◌≡◌, refl, sym, ap, ◌∙◌, [], ◌∷◌, ◌++◌, arith, leb, take, drop, get_or,
  length, Bool-cases, inl, inr, min, length-drop,
}
use rudp.Pbuf.{
  Pbuf, Chain, bytes, payload_bytes, tot_len, IsChain, length-payload_bytes, length-bytes,
}
use rudp.Pbuf.Read.{skip, get_at, copy_partial, read_byte}

-- Where `pbuf_skip` ends: it has passed `offset - i` bytes, and stands in a pbuf that has byte `i`.
abbrev pub Skipped : Chain → ℕ → Chain × ℕ → Type 0
Skipped ps offset ([], i) = i + tot_len ps ≡ offset
Skipped ps offset (q ∷ rest, i) =
    (i < q.len)
    × IsChain (q ∷ rest)
    × (i + tot_len ps ≡ offset + q.tot_len)
    × (drop i (bytes (q ∷ rest)) ≡ drop offset (bytes ps))

skip_further :
    (q : Pbuf) (ps : Chain) (offset : ℕ) (r : Chain × ℕ)
    → IsChain (q ∷ ps)
    → q.len ≤ offset
    → Skipped ps (offset - q.len) r
    → Skipped (q ∷ ps) offset r
skip_further q ps offset ([], i) c h s = omega arith
skip_further q ps offset (p ∷ rest, i) c h s = (
  s.0,
  s.1,
  omega arith,
  s.3
      ∙ ap (λ (k : ℕ). drop (offset - k) (bytes ps)) (sym (length-payload_bytes q c.1))
      ∙ sym (
          drop-append_right offset (payload_bytes q) (bytes ps)
            (omega (arith, length-payload_bytes q c.1))),
)

-- `pbuf_skip` finds the pbuf that holds the offset, and runs off the end only past the last byte.
pub skip-Skipped : (ps : Chain) (offset : ℕ) → IsChain ps → Skipped ps offset (skip ps offset)
unfolding skip
skip-Skipped [] offset c = omega arith
skip-Skipped (q ∷ ps) offset c = elim (Bool-cases (leb q.len offset)) [
  | inl past ↦
      let le = leb→le q.len offset past in
      rw past (
        skip_further q ps offset (skip ps (offset - q.len)) c le
          (skip-Skipped ps (offset - q.len) c.3))
  | inr here ↦ rw here (leb→lt q.len offset here, c, omega arith, refl)
]

read_byte-get_or :
    (ps : Chain) (offset : ℕ) (r : Chain × ℕ)
    → IsChain ps
    → Skipped ps offset r
    → read_byte r ≡ get_or (bytes ps) offset 0
unfolding read_byte
read_byte-get_or ps offset ([], i) c s =
    sym (get_or_out (bytes ps) offset 0 (omega (arith, length-bytes ps c)))
read_byte-get_or ps offset (q ∷ rest, i) c s =
    let e : offset + 0 ≡ offset = omega arith in
    let f : i + 0 ≡ i = omega arith in
    rw (lt→ltb i q.len s.0) (
      sym (get_or-drop q.payload i q.block 0)
      ∙ sym (get_or-take q.len i (drop q.payload q.block) 0 s.0)
      ∙ sym (
          get_or-append_left (payload_bytes q) (bytes rest) i 0
            (omega (arith, length-payload_bytes q s.1.1)))
      ∙ ap (λ (k : ℕ). get_or (bytes (q ∷ rest)) k 0) (sym f)
      ∙ sym (get_or-drop i 0 (bytes (q ∷ rest)) 0)
      ∙ ap (λ xs. get_or xs 0 0) s.3
      ∙ get_or-drop offset 0 (bytes ps) 0
      ∙ ap (λ (k : ℕ). get_or (bytes ps) k 0) e)

-- In a well-formed chain, `pbuf_get_at` is the byte at the offset, and 0 behind the end.
pub get_at-bytes :
    (ps : Chain) (offset : ℕ) → IsChain ps → get_at ps offset ≡ get_or (bytes ps) offset 0
unfolding get_at
get_at-bytes ps offset c = read_byte-get_or ps offset (skip ps offset) c (skip-Skipped ps offset c)

-- The part of one pbuf that is copied.
copy_here :
    (p : Pbuf) (len offset : ℕ)
    → take (min (p.len - offset) len) (drop (p.payload + offset) p.block)
      ≡ take len (drop offset (payload_bytes p))
copy_here p len offset =
    ap (take (min (p.len - offset) len)) (sym (drop-drop offset p.payload p.block))
    ∙ sym (take_to_min len (p.len - offset) (drop offset (drop p.payload p.block)))
    ∙ ap (take len) (sym (drop-take offset p.len (drop p.payload p.block)))

copy_step :
    (p : Pbuf) (ps : Chain) (len offset : ℕ)
    → p.payload + p.len ≤ length p.block
    → offset ≤ p.len
    → take (min (p.len - offset) len) (drop (p.payload + offset) p.block)
        ++ take (len - min (p.len - offset) len) (bytes ps)
      ≡ take len (drop offset (bytes (p ∷ ps)))
copy_step p ps len offset c h =
    let own = length-payload_bytes p c in
    let size : len - length (drop offset (payload_bytes p)) ≡ len - min (p.len - offset) len =
      omega (arith, own, length-drop offset (payload_bytes p)) in
    ap (λ xs. xs ++ take (len - min (p.len - offset) len) (bytes ps)) (copy_here p len offset)
    ∙ ap (λ (k : ℕ). take len (drop offset (payload_bytes p)) ++ take k (bytes ps)) (sym size)
    ∙ sym (take-append len (drop offset (payload_bytes p)) (bytes ps))
    ∙ ap (take len) (sym (drop-append_left offset (payload_bytes p) (bytes ps) (omega arith)))

copy_past :
    (p : Pbuf) (ps : Chain) (len offset : ℕ)
    → p.payload + p.len ≤ length p.block
    → p.len ≤ offset
    → take len (drop (offset - p.len) (bytes ps)) ≡ take len (drop offset (bytes (p ∷ ps)))
copy_past p ps len offset c h =
    let own = length-payload_bytes p c in
    ap (λ (k : ℕ). take len (drop (offset - k) (bytes ps))) (sym own)
    ∙ ap (take len) (sym (drop-append_right offset (payload_bytes p) (bytes ps) (omega arith)))

-- From a well-formed chain, `pbuf_copy_partial` copies the `len` bytes from the offset on, or as
-- many as there are.
pub copy_partial-bytes :
    (ps : Chain) (len offset : ℕ)
    → IsChain ps
    → copy_partial ps len offset ≡ take len (drop offset (bytes ps))
unfolding copy_partial
copy_partial-bytes [] len offset c = sym (ap (take len) (drop-nil offset) ∙ take-nil len)
copy_partial-bytes (p ∷ ps) len offset c = ground (
  arith,
  copy_partial-bytes ps len (offset - p.len) c.3,
  copy_partial-bytes ps (len - min (p.len - offset) len) 0 c.3,
  copy_step p ps len offset c.1,
  copy_past p ps len offset c.1,
)
