-- ===== src/Pbuf/Alloc.antt =====
-- src/pbuf.c: `pbuf_alloc`. The C library's `malloc` is a parameter: it answers a request for a
-- number of bytes by a null pointer or by memory, shown as its bytes.
pub mod Pool
use mathlib.Core.Option
use rudp.Memp.{pbuf, pbuf_pool}
use rudp.Pbuf.{ram, rom, ref, pool, transport, ip, raw}
use rudp.Prelude.{
  refl, ℕ, zero, suc, List, arith, Option, none, some, ◌+◌, ◌≡◌, ◌||◌, Bool, true, false,
  if◌then◌else◌, ◌==◌, is_none, All, length, ◌-◌, ◌<◌, ◌≤◌, min, [], ◌∷◌,
}
use rudp.Memp.{MempTab, memp_malloc, memp_free}
use rudp.Pbuf.{Pbuf, PbufType, PbufLayer, PbufFlags, Chain, u16_mod, tot_len, IsChain}
use rudp.Pbuf.Free.{Unshared}

-- The payload size of a pool element, TCP_MSS + 20, and PBUF_TRANSPORT_HLEN.
abbrev pub pool_bufsize : ℕ
pool_bufsize = 556

abbrev pub transport_hlen : ℕ
transport_hlen = 20

abbrev pub header_offset : PbufLayer → ℕ
header_offset transport = transport_hlen
header_offset ip = 0
header_offset raw = 0

abbrev pub no_flags : PbufFlags
no_flags = record { push = false; tcp_fin = false }

-- The pools, the C library's heap, and `pbuf_free_ooseq_pending`.
pub record Buffers (W : Type 0) : Type 0 where
  pub memp : MempTab (List ℕ)
  pub heap : W
  pub free_ooseq_pending : Bool

abbrev pub new_pbuf : PbufType → List ℕ → (payload len tot_len : ℕ) → Pbuf
new_pbuf kind block payload len tot_len = record {
  block = block;
  payload = payload;
  tot_len = tot_len;
  len = len;
  kind = kind;
  flags = no_flags;
  refs = 1;
}

-- The tail of a pool chain, with whether all of it was got. One round of the loop takes at least a
-- byte, so `rem_len` rounds are enough.
alloc_tail : ℕ → MempTab (List ℕ) → (rem_len : ℕ) → Chain × Bool × MempTab (List ℕ)
alloc_tail f m zero = ([], true, m)
alloc_tail zero m (suc n) = ([], false, m)
alloc_tail (suc f) m (suc n) =
    let (e, m') = memp_malloc m pbuf_pool in
    elim e [
      | none ↦ ([], false, m')
      | some b ↦
          let len = min (suc n) pool_bufsize in
          let (rest, got, m'') = alloc_tail f m' (suc n - len) in
          (new_pbuf pool b 0 len (suc n) ∷ rest, got, m'')
    ]

-- `pbuf_free` of a chain of pool pbufs that nobody else refers to.
give_back : MempTab (List ℕ) → Chain → MempTab (List ℕ)
give_back m [] = m
give_back m (p ∷ ps) = give_back (memp_free m pbuf_pool p.block) ps

-- The case PBUF_POOL. When the pool runs dry, what was got is freed and the flag is raised.
alloc_pool : MempTab (List ℕ) → (offset length : ℕ) → Option Chain × MempTab (List ℕ)
unfolding alloc_tail give_back memp_malloc memp_free
alloc_pool m offset length =
    let (e, m') = memp_malloc m pbuf_pool in
    elim e [
      | none ↦ (none, m')
      | some b ↦
          let len = min length (pool_bufsize - offset) in
          let (rest, got, m'') = alloc_tail (length - len) m' (length - len) in
          let ps = new_pbuf pool b offset len length ∷ rest in
          if got then (some ps, m'') else (none, give_back m'' ps)
    ]

module _ {W : Type 0} (mem_malloc : W → ℕ → Option (List ℕ) × W) where
  -- The case PBUF_RAM.
  alloc_ram : Buffers W → (offset length : ℕ) → Option Chain × Buffers W
  alloc_ram s offset length =
      let (e, heap) = mem_malloc s.heap (offset + length) in
      (Option.map (λ b. new_pbuf ram b offset length length ∷ []) e, record s { heap = heap })

  -- The cases PBUF_ROM and PBUF_REF, whose payload pointer the caller sets. The pool's element
  -- holds only the struct, so its contents do not matter.
  alloc_ref : Buffers W → PbufType → ℕ → Option Chain × Buffers W
  unfolding memp_malloc
  alloc_ref s kind length =
      let (e, m) = memp_malloc s.memp pbuf in
      (Option.map (λ b. new_pbuf kind [] 0 length length ∷ []) e, record s { memp = m })

  -- `pbuf_alloc`.
  unfoldable pub alloc : Buffers W → PbufLayer → ℕ → PbufType → Option Chain × Buffers W
  unfolding alloc_pool alloc_ram alloc_ref
  alloc s layer length pool =
      let (ps, m) = alloc_pool s.memp (header_offset layer) length in
      (ps, record s { memp = m; free_ooseq_pending = s.free_ooseq_pending || is_none ps })
  alloc s layer length ram = alloc_ram s (header_offset layer) length
  alloc s layer length rom = alloc_ref s rom length
  alloc s layer length ref = alloc_ref s ref length

-- The free elements of the pool have the size of its elements.
abbrev pub IsSized : MempTab (List ℕ) → Type 0
IsSized m = All (λ b. length b ≡ pool_bufsize) m.pbuf_pools

-- The heap is no part of the pools.
pub alloc-ram_memp :
    {W : Type 0} (mem_malloc : W → ℕ → Option (List ℕ) × W) (s : Buffers W) (layer : PbufLayer)
    (length : ℕ)
    → (alloc mem_malloc s layer length ram).1.memp ≡ s.memp
unfolding alloc
alloc-ram_memp mem_malloc s layer length = refl

-- A chain of total length `n`, if there is one.
abbrev pub HasLength : ℕ → Option Chain → Type 0
HasLength n none = Unit {0}
HasLength n (some p) = tot_len p ≡ n

ram-HasLength :
    (e : Option (List ℕ)) (offset n : ℕ)
    → HasLength n (Option.map (λ b. new_pbuf ram b offset n n ∷ []) e)
ram-HasLength none offset n = tt
ram-HasLength (some b) offset n = refl

pub alloc-ram_HasLength :
    {W : Type 0} (mem_malloc : W → ℕ → Option (List ℕ) × W) (s : Buffers W) (layer : PbufLayer)
    (length : ℕ)
    → HasLength length (alloc mem_malloc s layer length ram).0
unfolding alloc
alloc-ram_HasLength mem_malloc s layer length =
    ram-HasLength (mem_malloc s.heap (header_offset layer + length)).0 (header_offset layer) length
