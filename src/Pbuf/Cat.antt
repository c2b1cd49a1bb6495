-- ===== src/Pbuf/Cat.antt =====
-- src/pbuf.c: `pbuf_cat`, `pbuf_chain` and `pbuf_dechain`.
use rudp.Prelude.{
  ℕ, ◌+◌, ◌-◌, ◌%◌, ◌<◌, ◌≡◌, refl, sym, ap, ◌∙◌, [], ◌∷◌, ◌++◌, arith, ltb, if◌then◌else◌, ◌==◌,
  length, append_assoc,
}
use rudp.Pbuf.{Pbuf, Chain, u8_mod, u16_mod, bytes, payload_bytes, tot_len, IsChain}
use rudp.Pbuf.Free.{free, add_ref, Unshared, free-all}

-- The walk to the last pbuf of `h`; every total on the way grows by that of `t`.
unfoldable pub cat_loop : Chain → ℕ → Chain → Chain
cat_loop [] n t = t
cat_loop (p ∷ h) n t = record p { tot_len = (p.tot_len + n) % u16_mod } ∷ cat_loop h n t

-- `pbuf_cat`. A null argument breaks the contract and changes nothing.
unfoldable pub cat : Chain → Chain → Chain
unfolding cat_loop
cat [] t = []
cat (p ∷ h) [] = p ∷ h
cat (p ∷ h) (q ∷ t) = cat_loop (p ∷ h) q.tot_len (q ∷ t)

length-cat_loop : (ps : Chain) (n : ℕ) (t : Chain) → length (cat_loop ps n t) ≡ length ps + length t
unfolding cat_loop
length-cat_loop [] n t = omega arith
length-cat_loop (p ∷ ps) n t = omega (arith, length-cat_loop ps n t)

pub length-cat :
    (p : Pbuf) (ps : Chain) (q : Pbuf) (t : Chain)
    → length (cat (p ∷ ps) (q ∷ t)) ≡ length (p ∷ ps) + length (q ∷ t)
unfolding cat
length-cat p ps q t = length-cat_loop (p ∷ ps) q.tot_len (q ∷ t)

-- `pbuf_chain`: the caller keeps its own reference to `t`.
unfoldable pub chain : Chain → Chain → Chain
chain h t = cat h (add_ref t)

-- What `pbuf_dechain` returns: a null pointer, the rest of the chain, or a pointer to memory that
-- it has given back.
pub data Rest : Type 0 where
  null freed : Rest
  live : Chain → Rest

-- `pbuf_dechain` of the pbuf `p` with successors `ps`: the pbuf, now alone, and what is returned.
-- The test is on the u8_t that `pbuf_free` returns.
unfoldable pub dechain : Pbuf → Chain → Pbuf × Rest
unfolding free
dechain p [] = (p, null)
dechain p (q ∷ ps) =
    let (count, left) =
      free (record q { tot_len = (p.tot_len + u16_mod - p.len) % u16_mod } ∷ ps) in
    (
      record p { tot_len = p.len },
      if ltb 0 count then null else if q.refs == 1 then freed else live left,
    )

bytes-cat_loop : (h : Chain) (n : ℕ) (t : Chain) → bytes (cat_loop h n t) ≡ bytes h ++ bytes t
unfolding cat_loop
bytes-cat_loop [] n t = refl
bytes-cat_loop (p ∷ h) n t =
    ap (◌++◌ (payload_bytes p)) (bytes-cat_loop h n t)
    ∙ sym (append_assoc (payload_bytes p) (bytes h) (bytes t))

tot_len-cat_loop :
    (h : Chain) (t : Chain)
    → tot_len h + tot_len t < u16_mod
    → tot_len (cat_loop h (tot_len t) t) ≡ tot_len h + tot_len t
unfolding cat_loop
tot_len-cat_loop [] t k = omega arith
tot_len-cat_loop (p ∷ h) t k = omega arith

cat_loop-IsChain :
    (h : Chain) (t : Chain)
    → IsChain h
    → IsChain t
    → tot_len h + tot_len t < u16_mod
    → IsChain (cat_loop h (tot_len t) t)
unfolding cat_loop
cat_loop-IsChain [] t ch ct k = ct
cat_loop-IsChain (p ∷ h) t ch ct k =
    let small : tot_len h + tot_len t < u16_mod = omega arith in
    (
      omega (arith, tot_len-cat_loop h t small),
      ch.1,
      omega arith,
      cat_loop-IsChain h t ch.3 ct small,
    )

-- Of two well-formed chains that are not null, the bytes of the joined chain are those of the first
-- chain and then those of the second; it is well-formed, provided that the two lengths together fit
-- in 16 bits.
pub cat-append :
    (p q : Pbuf) (h t : Chain)
    → IsChain (p ∷ h)
    → IsChain (q ∷ t)
    → p.tot_len + q.tot_len < u16_mod
    → (bytes (cat (p ∷ h) (q ∷ t)) ≡ bytes (p ∷ h) ++ bytes (q ∷ t))
      × IsChain (cat (p ∷ h) (q ∷ t))
      × (tot_len (cat (p ∷ h) (q ∷ t)) ≡ p.tot_len + q.tot_len)
unfolding cat
cat-append p q h t ch ct k = (
  bytes-cat_loop (p ∷ h) q.tot_len (q ∷ t),
  cat_loop-IsChain (p ∷ h) (q ∷ t) ch ct k,
  tot_len-cat_loop (p ∷ h) (q ∷ t) k,
)

-- Dechaining undoes the chaining of a single pbuf `p` in front of `q ∷ t`: `p` is as before, and
-- the rest that is returned is `q ∷ t`, with the reference that chaining had added dropped again.
-- Both are well-formed, their lengths together fit in 16 bits, and `q` has at least one reference
-- and room for another.
pub dechain-chain :
    (p q : Pbuf) (t : Chain)
    → IsChain (p ∷ [])
    → IsChain (q ∷ t)
    → p.tot_len + q.tot_len < u16_mod
    → 0 < q.refs
    → q.refs + 1 < u16_mod
    → (a : Pbuf) × (b : Chain) × (chain (p ∷ []) (q ∷ t) ≡ a ∷ b)
      × (dechain a b ≡ (p, live (q ∷ t)))
unfolding chain cat add_ref dechain
dechain-chain p q t cp cq k r s =
    (record p { tot_len = (p.tot_len + q.tot_len) % u16_mod }, add_ref (q ∷ t), refl, ground arith)

-- When nobody else refers to the rest, `pbuf_free`, to which it is handed with its new total, gives
-- back all of it and leaves nothing, and the result of `pbuf_dechain` is a null pointer exactly if
-- the length of the rest is no multiple of 256; else it is a dangling pointer.
pub dechain-Unshared :
    (p q : Pbuf) (t : Chain)
    → Unshared (q ∷ t)
    → let rest = record q { tot_len = (p.tot_len + u16_mod - p.len) % u16_mod } ∷ t in
      (free rest ≡ (length (q ∷ t) % u8_mod, []))
      × ((dechain p (q ∷ t)).1 ≡ (if length (q ∷ t) % u8_mod == 0 then freed else null))
unfolding dechain
dechain-Unshared p q t u =
    let all = free-all (record q { tot_len = (p.tot_len + u16_mod - p.len) % u16_mod } ∷ t) u in
    (all, ground (arith, all))
