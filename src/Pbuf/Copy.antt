-- ===== src/Pbuf/Copy.antt =====
-- src/pbuf.c: `pbuf_copy` and `pbuf_coalesce`. Offsets are u16_t, and stay within the lengths.
pub mod Ends
use rudp.Pbuf.Release.{release}
use rudp.Tcp.Out.Make.{is_empty}
use rudp.Pbuf.Alloc.{alloc, Buffers}
use rudp.Pbuf.Write.{write_payload}
use rudp.Prelude.{
  zero, ◌||◌, not, ◌&&◌, drop, take, List, ◌-◌, min, suc, ltb, ◌+◌, [], ◌==◌, length, ◌∷◌, some,
  false, leb, none, if◌then◌else◌, Option, Bool, ℕ,
}
use rudp.Pbuf.{ram, PbufLayer, Pbuf, Chain}
use rudp.Err.{Err, ok, arg, val}

-- Whether a pbuf says that its packet ends with it, but others follow.
abbrev pub is_queue : Chain → Bool
is_queue [] = false
is_queue (p ∷ []) = false
is_queue (p ∷ (q ∷ ps)) = p.len == p.tot_len

-- The source behind a part of `n` bytes, and the offset in its first pbuf.
abbrev pub next_from : Pbuf → Chain → (offset : ℕ) → Chain × ℕ
next_from p ps offset = if leb p.len offset then (ps, 0) else (p ∷ ps, offset)

-- The result of what follows, with the pbufs that are filled in front.
abbrev pub filled : Pbuf → Option (Chain × Err) → Option (Chain × Err)
filled q none = none
filled q (some (qs, err)) = some (q ∷ qs, err)

-- The rounds of `pbuf_copy`, whose source is not at its end; none if there are more than `f`. Each round uses up a pbuf
-- of the source or fills one of the target.
unfoldable pub copy_rounds :
    (f : ℕ)
    → (to : Chain) → (offset_to : ℕ) → (from : Chain) → (offset_from : ℕ) → Option (Chain × Err)
copy_rounds zero to offset_to from offset_from = none
copy_rounds (suc f) [] offset_to from offset_from = some ([], arg)
copy_rounds (suc f) (q ∷ qs) offset_to [] offset_from = some (q ∷ qs, ok)
copy_rounds (suc f) (q ∷ qs) offset_to (p ∷ ps) offset_from =
    let n = min (p.len - offset_from) (q.len - offset_to) in
    let q' = write_payload q offset_to (take n (drop (p.payload + offset_from) p.block)) in
    let (from', at) = next_from p ps (offset_from + n) in
    let stay = copy_rounds f (q' ∷ qs) (offset_to + n) from' at in
    let onward = filled q' (copy_rounds f qs 0 from' at) in
    if offset_to + n == q.len
    then (if is_empty qs && not (is_empty from')
        then some (q' ∷ qs, arg)
        else if is_queue from' || is_queue qs
        then some (q' ∷ qs, val)
        else if is_empty from'
        then some (q' ∷ qs, ok)
        else onward)
    else if is_queue from' || is_queue (q' ∷ qs)
    then some (q' ∷ qs, val)
    else stay

-- `pbuf_copy`: the target, and the result.
unfoldable pub copy : (to from : Chain) → Option (Chain × Err)
unfolding copy_rounds
copy [] from = some ([], arg)
copy (q ∷ qs) [] = some (q ∷ qs, arg)
copy (q ∷ qs) (p ∷ ps) =
    let copied = copy_rounds (length (q ∷ qs) + length (p ∷ ps)) (q ∷ qs) 0 (p ∷ ps) 0 in
    if ltb q.tot_len p.tot_len then some (q ∷ qs, arg) else copied

module _ {W : Type 0} (mem_malloc : W → ℕ → Option (List ℕ) × W) (mem_free : W → List ℕ → W) where
  -- The new pbuf of `pbuf_coalesce`, once it is allocated, or not.
  abbrev pub coalesce_into : Option Chain → Chain → Buffers W → Option (Chain × Buffers W)
  coalesce_into none ps s = some (ps, s)
  coalesce_into (some new) ps s = elim (copy new ps) [
    | none ↦ none
    | some (filled_in, err) ↦ some (filled_in, release mem_free s ps)
  ]

  -- `pbuf_coalesce`; there is no result for a null pointer.
  unfoldable pub coalesce : Chain → PbufLayer → Buffers W → Option (Chain × Buffers W)
  unfolding alloc copy release
  coalesce [] layer s = none
  coalesce (p ∷ []) layer s = some (p ∷ [], s)
  coalesce (p ∷ (q ∷ ps)) layer s =
      let (e, s') = alloc mem_malloc s layer p.tot_len ram in coalesce_into e (p ∷ (q ∷ ps)) s'
