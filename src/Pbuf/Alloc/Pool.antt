-- ===== src/Pbuf/Alloc/Pool.antt =====
-- `pbuf_alloc` of src/pbuf.c from the pool: the chain it builds, and what it does when it runs dry.
use rudp.Prelude.{
  or_true, refl, ℕ, zero, suc, List, arith, Option, none, some, ◌+◌, ◌≡◌, ◌||◌, Bool, true, false,
  if◌then◌else◌, is_none, length, ◌-◌, ◌<◌, ◌≤◌, min, [], ◌∷◌,
}
use rudp.Memp.{MempTab, memp_malloc, memp_free, pbuf_pool}
use rudp.Pbuf.{transport, ip, raw, pool, PbufLayer, Chain, u16_mod, tot_len, IsChain}
use rudp.Pbuf.Free.{Unshared}
use rudp.Pbuf.Alloc.{
  alloc_tail, give_back, alloc_pool, pool_bufsize, new_pbuf, alloc, Buffers, header_offset, IsSized,
}

-- What is left of the pool, and that nothing is lost.
record Tail (rem_len : ℕ) (m : MempTab (List ℕ)) (ps : Chain) (got : Bool) (m' : MempTab (List ℕ))
    : Type 0 where
  sized : IsSized m'
  kept : length ps + length m'.pbuf_pools ≡ length m.pbuf_pools
  unshared : Unshared ps
  chain : got ≡ true → IsChain ps × (tot_len ps ≡ rem_len)
  dry : got ≡ false → length m'.pbuf_pools ≡ 0

abbrev TailOf : ℕ → MempTab (List ℕ) → Chain × Bool × MempTab (List ℕ) → Type 0
TailOf rem_len m (ps, got, m') = Tail rem_len m ps got m'

tail_cons :
    (b : List ℕ) (bs : List (List ℕ)) (m : MempTab (List ℕ)) (rem_len at len : ℕ)
    (r : Chain × Bool × MempTab (List ℕ))
    → IsSized (record m { pbuf_pools = b ∷ bs })
    → rem_len < u16_mod
    → len ≤ rem_len
    → at + len ≤ pool_bufsize
    → TailOf (rem_len - len) (record m { pbuf_pools = bs }) r
    → TailOf rem_len
        (record m { pbuf_pools = b ∷ bs })
        (new_pbuf pool b at len rem_len ∷ r.0, r.1, r.2)
tail_cons b bs m rem_len at len (ps, got, m') s h le fit t = record {
  sized = t.sized;
  kept = omega (arith, t.kept);
  unshared = (refl, t.unshared);
  chain = λ e. ((omega (arith, (t.chain e).1), omega (arith, s.0), h, (t.chain e).0), refl);
  dry = t.dry;
}

alloc_tail-Tail :
    (f rem_len : ℕ) (bs : List (List ℕ)) (m : MempTab (List ℕ))
    → IsSized (record m { pbuf_pools = bs })
    → rem_len < u16_mod
    → rem_len ≤ f
    → TailOf rem_len
        (record m { pbuf_pools = bs })
        (alloc_tail f (record m { pbuf_pools = bs }) rem_len)
unfolding alloc_tail memp_malloc
alloc_tail-Tail zero zero bs m s h k = record {
  sized = s;
  kept = omega arith;
  unshared = tt;
  chain = λ e. (tt, refl);
  dry = λ e. ground arith;
}
alloc_tail-Tail zero (suc n) bs m s h k = absurd (omega arith)
alloc_tail-Tail (suc f) zero bs m s h k = record {
  sized = s;
  kept = omega arith;
  unshared = tt;
  chain = λ e. (tt, refl);
  dry = λ e. ground arith;
}
alloc_tail-Tail (suc f) (suc n) [] m s h k = record {
  sized = s;
  kept = omega arith;
  unshared = tt;
  chain = λ e. ground arith;
  dry = λ e. refl;
}
alloc_tail-Tail (suc f) (suc n) (b ∷ bs) m s h k =
    let len = min (suc n) pool_bufsize in
    tail_cons b bs m (suc n) 0 len (alloc_tail f (record m { pbuf_pools = bs }) (suc n - len)) s h
      (omega arith) (omega arith)
      (alloc_tail-Tail f (suc n - len) bs m s.1 (omega arith) (omega arith))

give_back-length :
    (ps : Chain) (m : MempTab (List ℕ))
    → length (give_back m ps).pbuf_pools ≡ length ps + length m.pbuf_pools
unfolding give_back memp_free
give_back-length [] m = omega arith
give_back-length (p ∷ ps) m = omega (arith, give_back-length ps (memp_free m pbuf_pool p.block))

-- What a call for `length` bytes from the pool leaves behind, with the new flag `pending`.
abbrev pub Allocated :
    (len : ℕ) → (m : MempTab (List ℕ)) → Option Chain → MempTab (List ℕ) → Bool → Type 0
Allocated len m none m' pending = (length m'.pbuf_pools ≡ length m.pbuf_pools) × (pending ≡ true)
Allocated len m (some ps) m' pending =
    IsChain ps
    × (tot_len ps ≡ len)
    × Unshared ps
    × (length ps + length m'.pbuf_pools ≡ length m.pbuf_pools)

alloc_pool-cons :
    (b : List ℕ) (bs : List (List ℕ)) (m : MempTab (List ℕ)) (len : ℕ) (ps : Chain) (got : Bool)
    (m' : MempTab (List ℕ)) (pending : Bool)
    → Tail len (record m { pbuf_pools = b ∷ bs }) ps got m'
    → let r : Option Chain × MempTab (List ℕ) =
        if got then (some ps, m') else (none, give_back m' ps) in
      Allocated len (record m { pbuf_pools = b ∷ bs }) r.0 r.1 (pending || is_none r.0)
alloc_pool-cons b bs m len ps true m' pending t =
    ((t.chain refl).0, (t.chain refl).1, t.unshared, t.kept)
alloc_pool-cons b bs m len ps false m' pending t =
    (omega (arith, give_back-length ps m', t.kept, t.dry refl), or_true pending)

alloc_pool-Allocated :
    (bs : List (List ℕ)) (m : MempTab (List ℕ)) (offset len : ℕ) (pending : Bool)
    → IsSized (record m { pbuf_pools = bs })
    → offset ≤ pool_bufsize
    → len < u16_mod
    → let r = alloc_pool (record m { pbuf_pools = bs }) offset len in
      Allocated len (record m { pbuf_pools = bs }) r.0 r.1 (pending || is_none r.0)
unfolding alloc_pool memp_malloc
alloc_pool-Allocated [] m offset len pending s h k = (refl, or_true pending)
alloc_pool-Allocated (b ∷ bs) m offset len pending s h k =
    let first = min len (pool_bufsize - offset) in
    let r = alloc_tail (len - first) (record m { pbuf_pools = bs }) (len - first) in
    let t =
      tail_cons b bs m len offset first r s k (omega arith) (omega arith)
        (alloc_tail-Tail (len - first) (len - first) bs m s.1 (omega arith) (omega arith)) in
    alloc_pool-cons b bs m len (new_pbuf pool b offset first len ∷ r.0) r.1 r.2 pending t

header_offset-bound : (l : PbufLayer) → header_offset l ≤ pool_bufsize
header_offset-bound transport = omega arith
header_offset-bound ip = omega arith
header_offset-bound raw = omega arith

-- With pool elements of the configured size and a length below 2^16, a call for `len` bytes from
-- the pool either gives a well-formed chain of total length `len`, nobody else's, made of as many
-- elements as the pool has lost, or gives null, with as many elements free as before the call and
-- the flag that asks for out-of-sequence data to be freed raised.
pub alloc-Allocated :
    {W : Type 0} (mem_malloc : W → ℕ → Option (List ℕ) × W) (s : Buffers W) (l : PbufLayer)
    (len : ℕ)
    → IsSized s.memp
    → len < u16_mod
    → let (ps, s') = alloc mem_malloc s l len pool in
      Allocated len s.memp ps s'.memp s'.free_ooseq_pending
unfolding alloc
alloc-Allocated mem_malloc s l len z k =
    alloc_pool-Allocated s.memp.pbuf_pools s.memp (header_offset l) len s.free_ooseq_pending z
      (header_offset-bound l) k
