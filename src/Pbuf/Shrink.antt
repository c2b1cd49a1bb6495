-- ===== src/Pbuf/Shrink.antt =====
-- src/pbuf.c: `pbuf_realloc`.
use rudp.Prelude.{
  ℕ, ◌+◌, ◌-◌, ◌%◌, ◌≤◌, ◌≡◌, refl, ap, ◌∙◌, [], ◌∷◌, ◌++◌, arith, leb, if◌then◌else◌, length, take,
  drop, take_all, take-nil, Bool-cases, inl, inr, min, take-take, take-append_left,
  take-append_right, append-nil, leb→le, leb→lt, sym, take-nil,
}
use rudp.Pbuf.{
  Pbuf, Chain, u16_mod, bytes, payload_bytes, tot_len, IsChain, length-payload_bytes, length-bytes,
}
use rudp.Pbuf.Free.{free}

-- The loop over the pbufs that stay, each with a total that is smaller by `cut`, up to the new last
-- one; and the pbufs behind that, which the chain gives up. `mem_trim` leaves the block as it is.
realloc_loop : (cut rem_len : ℕ) → Chain → Chain × Chain
realloc_loop cut rem_len [] = ([], [])
realloc_loop cut rem_len (q ∷ ps) =
    let (kept, gone) = realloc_loop cut (rem_len - q.len) ps in
    if leb rem_len q.len
    then (record q { len = rem_len; tot_len = rem_len } ∷ [], ps)
    else (record q { tot_len = (q.tot_len + u16_mod - cut) % u16_mod } ∷ kept, gone)

-- `pbuf_realloc`: the chain, and what is left of the freed part for those who share it.
unfoldable pub realloc : Chain → ℕ → Chain × Chain
unfolding realloc_loop free
realloc [] new_len = ([], [])
realloc (p ∷ ps) new_len =
    let (kept, gone) = realloc_loop (p.tot_len - new_len) new_len (p ∷ ps) in
    if leb p.tot_len new_len then (p ∷ ps, []) else (kept, (free gone).1)

-- The pbufs that `pbuf_realloc` hands to `pbuf_free`.
unfoldable pub cut_off : Chain → ℕ → Chain
unfolding realloc_loop
cut_off [] new_len = []
cut_off (p ∷ ps) new_len =
    if leb p.tot_len new_len then [] else (realloc_loop (p.tot_len - new_len) new_len (p ∷ ps)).1

realloc_loop-last :
    (n : ℕ) (q : Pbuf) (ps : Chain)
    → n ≤ q.len
    → q.payload + q.len ≤ length q.block
    → take n (drop q.payload q.block) ++ [] ≡ take n (bytes (q ∷ ps))
realloc_loop-last n q ps h k =
    append-nil (take n (drop q.payload q.block))
    ∙ sym (take-take n q.len (drop q.payload q.block) h)
    ∙ sym
        (take-append_left n (payload_bytes q) (bytes ps) (omega (arith, length-payload_bytes q k)))

realloc_loop-more :
    (n : ℕ) (q : Pbuf) (ps : Chain)
    → q.len ≤ n
    → q.payload + q.len ≤ length q.block
    → payload_bytes q ++ take (n - q.len) (bytes ps) ≡ take n (bytes (q ∷ ps))
realloc_loop-more n q ps h k = sym (
    take-append_right n (payload_bytes q) (bytes ps) (omega (arith, length-payload_bytes q k))
    ∙ ap (λ (i : ℕ). payload_bytes q ++ take (n - i) (bytes ps)) (length-payload_bytes q k))

-- The kept chain holds `n` bytes, when the chain held `n + cut` of them.
abbrev Kept : (n : ℕ) → Chain → Chain → Type 0
Kept n ps kept = (bytes kept ≡ take n (bytes ps)) × IsChain kept × (tot_len kept ≡ n)

realloc_loop-Kept :
    (cut n : ℕ) (ps : Chain)
    → IsChain ps
    → tot_len ps ≡ n + cut
    → Kept n ps (realloc_loop cut n ps).0
unfolding realloc_loop
realloc_loop-Kept cut n [] c e = (sym (take-nil n), tt, omega arith)
realloc_loop-Kept cut n (q ∷ ps) c e = elim (Bool-cases (leb n q.len)) [
  | inl last ↦
      let short = leb→le n q.len last in
      rw last (
        realloc_loop-last n q ps (leb→le n q.len last) c.1,
        (omega arith, omega arith, omega arith, tt),
        refl,
      )
  | inr more ↦
      let rest = realloc_loop-Kept cut (n - q.len) ps c.3 (omega (arith, leb→lt n q.len more)) in
      rw more (
        ap (◌++◌ (payload_bytes q)) rest.0
            ∙ realloc_loop-more n q ps (omega (arith, leb→lt n q.len more)) c.1,
        (omega (arith, rest.2, leb→lt n q.len more), c.1, omega arith, rest.1),
        omega arith,
      )
]

-- `pbuf_realloc` cuts a well-formed chain down to its first `n` bytes and keeps the invariant of a
-- chain; a chain that has no more than `n` bytes stays as it is.
pub realloc-take :
    (ps : Chain) (n : ℕ)
    → IsChain ps
    → (bytes (realloc ps n).0 ≡ take n (bytes ps))
      × IsChain (realloc ps n).0
      × (tot_len (realloc ps n).0 ≡ min n (tot_len ps))
unfolding realloc
realloc-take [] n c = (sym (take-nil n), tt, omega arith)
realloc-take (p ∷ ps) n c = elim (Bool-cases (leb p.tot_len n)) [
  | inl fits ↦ rw fits (
    sym (
        take_all n (bytes (p ∷ ps))
          (omega (arith, length-bytes (p ∷ ps) c, leb→le p.tot_len n fits))),
    c,
    omega (arith, leb→le p.tot_len n fits),
  )
  | inr cuts ↦
      let less = leb→lt p.tot_len n cuts in
      let kept = realloc_loop-Kept (p.tot_len - n) n (p ∷ ps) c (omega arith) in
      rw cuts (kept.0, kept.1, kept.2 ∙ omega arith)
]
