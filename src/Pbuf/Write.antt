-- ===== src/Pbuf/Write.antt =====
-- src/pbuf.c, the writers: `pbuf_put_at`, `pbuf_take` and `pbuf_take_at`.
use rudp.Err.{Err, ok, mem, arg}
use rudp.Prelude.{
  ltb→le, ltb→lt, ap₂, ◌⊎◌, drop-take, drop-drop, take-append_right, drop-append_right, ℕ, ◌+◌, ◌-◌,
  ◌≤◌, ◌<◌, ◌≡◌, refl, sym, ap, ◌∙◌, List, [], ◌∷◌, ◌++◌, arith, leb, ltb, if◌then◌else◌, take,
  drop, length, Bool-cases, inl, inr, min, length-take, length-drop,
}
use rudp.Pbuf.{
  length-append, Pbuf, Chain, bytes, payload_bytes, tot_len, IsChain, length-payload_bytes,
}

-- `MEMCPY` of `data_bytes` to an offset of a block.
abbrev pub copy_to : List ℕ → ℕ → List ℕ → List ℕ
copy_to block at data_bytes = take at block ++ (data_bytes ++ drop (at + length data_bytes) block)

abbrev pub write_payload : Pbuf → ℕ → List ℕ → Pbuf
write_payload p at data_bytes = record p { block = copy_to p.block (p.payload + at) data_bytes }

-- `pbuf_put_at`: the walk of `pbuf_skip`, and the write of one byte.
unfoldable pub put_at : Chain → (offset byte : ℕ) → Chain
put_at [] offset byte = []
put_at (q ∷ ps) offset byte =
    let rest = q ∷ put_at ps (offset - q.len) byte in
    if leb q.len offset then rest else write_payload q offset (byte ∷ []) ∷ ps

-- The loop of `pbuf_take`: each pbuf takes what fits, until nothing is left.
take_loop : Chain → List ℕ → Chain
take_loop [] data_bytes = []
take_loop (p ∷ ps) [] = p ∷ ps
take_loop (p ∷ ps) (b ∷ data_bytes) =
    write_payload p 0 (take p.len (b ∷ data_bytes)) ∷ take_loop ps (drop p.len (b ∷ data_bytes))

-- `pbuf_take`.
unfoldable pub pbuf_take : Chain → List ℕ → Chain × Err
unfolding take_loop
pbuf_take [] data_bytes = ([], ok)
pbuf_take (p ∷ ps) data_bytes =
    if ltb p.tot_len (length data_bytes) then (p ∷ ps, arg) else (take_loop (p ∷ ps) data_bytes, ok)

-- The writes of `pbuf_take_at` at offset `at` of the pbuf `q`, where the skipping ended.
take_from : Pbuf → Chain → ℕ → List ℕ → Chain × Err
unfolding pbuf_take
take_from q ps at data_bytes =
    let first = min (q.len - at) (length data_bytes) in
    let (rest, err) = pbuf_take ps (drop first data_bytes) in
    if leb (at + length data_bytes) q.tot_len
    then (if ltb first (length data_bytes)
        then (write_payload q at (take first data_bytes) ∷ rest, err)
        else (write_payload q at (take first data_bytes) ∷ ps, ok))
    else (q ∷ ps, mem)

-- `pbuf_take_at`.
unfoldable pub take_at : Chain → List ℕ → (offset : ℕ) → Chain × Err
unfolding take_from
take_at [] data_bytes offset = ([], mem)
take_at (q ∷ ps) data_bytes offset =
    let (rest, err) = take_at ps data_bytes (offset - q.len) in
    if leb q.len offset then (q ∷ rest, err) else take_from q ps offset data_bytes

-- Only the contents of the blocks differ.
abbrev pub SameShape : Chain → Chain → Type 0
SameShape [] [] = Unit {0}
SameShape [] (q ∷ qs) = ⊥
SameShape (p ∷ ps) [] = ⊥
SameShape (p ∷ ps) (q ∷ qs) =
    (p ≡ record q { block = p.block }) × (length p.block ≡ length q.block) × SameShape ps qs

pub SameShape-refl : (ps : Chain) → SameShape ps ps
SameShape-refl [] = tt
SameShape-refl (p ∷ ps) = (refl, refl, SameShape-refl ps)

pub length-copy_to :
    (block : List ℕ) (at : ℕ) (xs : List ℕ)
    → at + length xs ≤ length block
    → length (copy_to block at xs) ≡ length block
length-copy_to block at xs h = omega (
  arith,
  length-append (take at block) (xs ++ drop (at + length xs) block),
  length-append xs (drop (at + length xs) block),
  length-take at block,
  length-drop (at + length xs) block,
)

-- A write within the payload shows in the bytes at the same place.
payload_bytes-write :
    (p : Pbuf) (xs : List ℕ)
    → p.payload + p.len ≤ length p.block
    → length xs ≤ p.len
    → payload_bytes (write_payload p 0 xs) ≡ xs ++ drop (length xs) (payload_bytes p)
payload_bytes-write p xs c h =
    let e : p.payload + 0 ≡ p.payload = omega arith in
    let there = length-take p.payload p.block in
    let zeroed : p.payload - length (take p.payload p.block) ≡ 0 = omega (arith, there) in
    rw e (
      ap (take p.len) (
        drop-append_right p.payload (take p.payload p.block)
          (xs ++ drop (p.payload + length xs) p.block) (omega (arith, there))
        ∙ ap (λ (k : ℕ). drop k (xs ++ drop (p.payload + length xs) p.block)) zeroed)
      ∙ take-append_right p.len xs (drop (p.payload + length xs) p.block) h
      ∙ ap (λ ys. xs ++ take (p.len - length xs) ys) (sym (drop-drop (length xs) p.payload p.block))
      ∙ ap (◌++◌ xs) (sym (drop-take (length xs) p.len (drop p.payload p.block))))

-- `data_bytes` over the first bytes of `xs`.
abbrev pub overlay : List ℕ → List ℕ → List ℕ
overlay data_bytes xs = data_bytes ++ drop (length data_bytes) xs

overlay-append :
    (xs pb bs : List ℕ)
    → overlay (take (length pb) xs) pb ++ overlay (drop (length pb) xs) bs ≡ overlay xs (pb ++ bs)
overlay-append xs [] bs = refl
overlay-append [] (y ∷ pb) bs = refl
overlay-append (x ∷ xs) (y ∷ pb) bs = ap (◌∷◌ x) (overlay-append xs pb bs)

take_loop-bytes :
    (ps : Chain) (xs : List ℕ)
    → IsChain ps
    → length xs ≤ tot_len ps
    → (bytes (take_loop ps xs) ≡ overlay xs (bytes ps)) × SameShape (take_loop ps xs) ps
unfolding take_loop
take_loop-bytes [] [] c h = (refl, tt)
take_loop-bytes [] (x ∷ xs) c h = absurd (omega arith)
take_loop-bytes (p ∷ ps) [] c h = (refl, SameShape-refl (p ∷ ps))
take_loop-bytes (p ∷ ps) (x ∷ xs) c h =
    let data_bytes = x ∷ xs in
    let rest =
      take_loop-bytes ps (drop p.len data_bytes) c.3
        (omega (arith, length-drop p.len data_bytes)) in
    let short : length (take p.len data_bytes) ≤ p.len =
      omega (arith, length-take p.len data_bytes) in
    let own = length-payload_bytes p c.1 in
    (
      ap₂ ◌++◌ (payload_bytes-write p (take p.len data_bytes) c.1 short) rest.0
          ∙ ap
              (λ (k : ℕ).
                overlay (take k data_bytes) (payload_bytes p)
                ++ overlay (drop k data_bytes) (bytes ps))
              (sym own)
          ∙ overlay-append data_bytes (payload_bytes p) (bytes ps),
      (refl, length-copy_to p.block (p.payload + 0) (take p.len data_bytes) (omega arith), rest.1),
    )

-- For a well-formed chain, `pbuf_take` refuses data that is longer than the chain with ERR_ARG, and
-- changes nothing then; else the chain begins with the data, followed by its old bytes from there on, and
-- only contents have changed.
pub pbuf_take-bytes :
    (p : Pbuf) (ps : Chain) (xs : List ℕ)
    → IsChain (p ∷ ps)
    → ((p.tot_len < length xs) × (pbuf_take (p ∷ ps) xs ≡ (p ∷ ps, arg)))
      ⊎ (((pbuf_take (p ∷ ps) xs).1 ≡ ok)
          × (bytes (pbuf_take (p ∷ ps) xs).0 ≡ xs ++ drop (length xs) (bytes (p ∷ ps)))
          × SameShape (pbuf_take (p ∷ ps) xs).0 (p ∷ ps))
unfolding pbuf_take
pbuf_take-bytes p ps xs c = elim (Bool-cases (ltb p.tot_len (length xs))) [
  | inl long ↦ inl (ltb→lt p.tot_len (length xs) long, rw long)
  | inr fits ↦
      let done = take_loop-bytes (p ∷ ps) xs c (ltb→le p.tot_len (length xs) fits) in
      inr (rw fits refl, rw fits done.0, rw fits done.1)
]
