-- ===== src/Pbuf/Read.antt =====
-- src/pbuf.c, the readers: `pbuf_skip`, `pbuf_get_at`, `pbuf_copy_partial`, `pbuf_memcmp`,
-- `pbuf_memfind` and `pbuf_strstr`. Lengths and offsets are u16_t.
pub mod Bytes
pub mod Find
use rudp.Prelude.{
  ℕ, zero, suc, ◌+◌, ◌-◌, ◌%◌, ◌≤◌, ◌<◌, ◌≡◌, refl, sym, ap, ◌∙◌, Bool, true, false, List, [], ◌∷◌,
  ◌++◌, arith, leb, ltb, ◌==◌, ◌&&◌, not, if◌then◌else◌, take, drop, get_or, length, Bool-cases,
  inl, inr, min, length-take, length-drop,
}
use rudp.Pbuf.{
  Pbuf, Chain, u16_mod, bytes, payload_bytes, tot_len, IsChain, length-payload_bytes, length-bytes,
}

-- `pbuf_skip`: the chain from the pbuf that holds the offset on, and the offset in that pbuf.
unfoldable pub skip : Chain → ℕ → Chain × ℕ
skip [] offset = ([], offset)
skip (q ∷ ps) offset =
    let rest = skip ps (offset - q.len) in if leb q.len offset then rest else (q ∷ ps, offset)

-- The byte `i` behind the payload pointer.
abbrev pub byte_at : Pbuf → ℕ → ℕ
byte_at q i = get_or q.block (q.payload + i) 0

-- The byte at an offset in the first pbuf, or 0.
read_byte : Chain × ℕ → ℕ
read_byte ([], i) = 0
read_byte (q ∷ rest, i) = if ltb i q.len then byte_at q i else 0

-- `pbuf_get_at`: the byte at an offset, or 0.
unfoldable pub get_at : Chain → ℕ → ℕ
unfolding skip read_byte
get_at ps offset = read_byte (skip ps offset)

-- The loop of `pbuf_copy_partial`: the bytes that are copied, in order.
copy_loop : Chain → (len offset : ℕ) → List ℕ
copy_loop [] len offset = []
copy_loop (p ∷ ps) len offset =
    let onward = copy_loop ps len (offset - p.len) in
    let here = min (p.len - offset) len in
    let rest = copy_loop ps (len - here) 0 in
    if len == 0
    then []
    else if not (offset == 0) && leb p.len offset
    then onward
    else take here (drop (p.payload + offset) p.block) ++ rest

-- `pbuf_copy_partial`: what the caller's buffer receives. The number of these bytes is returned.
unfoldable pub copy_partial : Chain → (len offset : ℕ) → List ℕ
unfolding copy_loop
copy_partial = copy_loop

-- The loop of `pbuf_memcmp` over the bytes of `s2`; `q` and `start` are where the skipping ended.
memcmp_loop : Chain → (start i : ℕ) → List ℕ → ℕ
memcmp_loop q start i [] = 0
memcmp_loop q start i (b ∷ s2) =
    let rest = memcmp_loop q start (i + 1) s2 in
    if get_at q ((start + i) % u16_mod) == b then rest else (i + 1) % u16_mod

-- The comparison from where the skipping ended.
compare_at : Chain × ℕ → List ℕ → ℕ
unfolding memcmp_loop
compare_at ([], start) s2 = 0xffff
compare_at (q ∷ rest, start) s2 =
    if ltb start q.len then memcmp_loop (q ∷ rest) start 0 s2 else 0xffff

-- `pbuf_memcmp` with the bytes `s2`.
unfoldable pub memcmp : Chain → (offset : ℕ) → List ℕ → ℕ
unfolding skip compare_at
memcmp ps offset s2 = compare_at (skip ps offset) s2

-- The loop of `pbuf_memfind` over the `k` places from `i` on that are not above `max`.
memfind_loop : ℕ → Chain → List ℕ → ℕ → ℕ
memfind_loop zero ps s i = 0xffff
memfind_loop (suc k) ps s i =
    let rest = memfind_loop k ps s (i + 1) in if memcmp ps i s == 0 then i else rest

-- `pbuf_memfind` for the bytes `s`. `max` is computed in a u16_t, and is used only if it did not
-- wrap. The index wraps only for an empty string in a chain of 65535 bytes, which is left out.
unfoldable pub memfind : Chain → List ℕ → (start_offset : ℕ) → ℕ
unfolding memfind_loop memcmp
memfind ps s start_offset =
    let max = (tot_len ps + u16_mod - length s) % u16_mod in
    if leb (length s + start_offset) (tot_len ps)
    then memfind_loop (max + 1 - start_offset) ps s start_offset
    else 0xffff

-- `pbuf_strstr` for a string without its final zero.
unfoldable pub strstr : Chain → List ℕ → ℕ
unfolding memfind
strstr ps [] = 0xffff
strstr ps (c ∷ s) =
    if (tot_len ps == 0xffff)
    then 0xffff
    else if leb 0xffff (length (c ∷ s))
    then 0xffff
    else memfind ps (c ∷ s) 0
