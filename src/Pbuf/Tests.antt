-- ===== src/Pbuf/Tests.antt =====
-- Runs of the packet buffers on concrete chains.
use rudp.Pbuf.Copy.{copy}
use rudp.Pbuf.Copy.Ends.{copy-Ended, Ended}
use rudp.Prelude.{
  ◌%◌, ◌-◌, ℕ, refl, ◌≡◌, ◌+◌, List, [], ◌∷◌, Option, some, ◌⊎◌, false, replicate, arith, drop, ◌<◌,
  ◌↔◌,
}
use rudp.Prelude.Int.{pos, negsuc}
use rudp.Err.{ok, arg}
use rudp.Pbuf.{Pbuf, PbufType, ram, rom, pool, transport, raw, Chain, bytes, IsChain, u8_mod}
use rudp.Pbuf.Free.{free, add_ref}
use rudp.Pbuf.Cat.{cat, cat-append, chain, dechain, dechain-chain, live, null, dechain-Unshared}
use rudp.Pbuf.Shrink.{realloc, realloc-take}
use rudp.Pbuf.Header.{header, header_reveal}
use rudp.Pbuf.Read.{get_at, copy_partial, memcmp, memfind}
use rudp.Pbuf.Read.Bytes.{copy_partial-bytes}
use rudp.Pbuf.Read.Find.{memcmp-IsPrefix, memfind-Search, IsPrefix, Search}
use rudp.Pbuf.Write.{pbuf_take, pbuf_take-bytes, SameShape}
use rudp.Pbuf.Alloc.{alloc, new_pbuf, Buffers}
use rudp.Pbuf.Alloc.Pool.{alloc-Allocated, Allocated}

abbrev front : Pbuf
front = new_pbuf ram (0 ∷ 0 ∷ 1 ∷ 2 ∷ 3 ∷ []) 2 3 5

abbrev back : Pbuf
back = new_pbuf ram (4 ∷ 5 ∷ []) 0 2 2

-- The bytes 1 to 5 in two pbufs, the first with two bytes to spare in front.
abbrev two : Chain
two = front ∷ back ∷ []

back-IsChain : IsChain (back ∷ [])
back-IsChain = (refl, omega arith, omega arith, tt)

two-IsChain : IsChain two
two-IsChain = (refl, omega arith, omega arith, back-IsChain)

abbrev single : Pbuf
single = new_pbuf ram (7 ∷ 8 ∷ []) 0 2 2

single-IsChain : IsChain (single ∷ [])
single-IsChain = (refl, omega arith, omega arith, tt)

abbrev shared : Pbuf
shared = record back { refs = 2 }

stop_run : free (front ∷ shared ∷ []) ≡ (1, back ∷ [])
unfolding free
stop_run = refl

add_ref_run : free (add_ref two) ≡ (0, two)
unfolding free add_ref
add_ref_run = refl

cat-append_example :
    (bytes (cat (single ∷ []) two) ≡ 7 ∷ 8 ∷ 1 ∷ 2 ∷ 3 ∷ 4 ∷ 5 ∷ [])
    × IsChain (cat (single ∷ []) two)
    × (rudp.Pbuf.tot_len (cat (single ∷ []) two) ≡ 7)
cat-append_example = cat-append single front [] (back ∷ []) single-IsChain two-IsChain (omega arith)

dechain-chain_example :
    (a : Pbuf) × (b : Chain) × (chain (single ∷ []) two ≡ a ∷ b)
    × (dechain a b ≡ (single, live two))
dechain-chain_example =
    dechain-chain single front (back ∷ []) single-IsChain two-IsChain (omega arith) (omega arith)
      (omega arith)

dechain-Unshared_example :
    (free (record back { tot_len = (front.tot_len + 65536 - front.len) % 65536 } ∷ []) ≡ (1, []))
    × ((dechain front (back ∷ [])).1 ≡ null)
dechain-Unshared_example = dechain-Unshared front back [] (refl, tt)

header_reveal_example :
    ((header two (pos 2)).1 ≡ 0)
    × (drop 2 (bytes (header two (pos 2)).0) ≡ bytes two)
    × IsChain (header two (pos 2)).0
    × (header (header two (pos 2)).0 (negsuc 1) ≡ (two, 0))
header_reveal_example =
    header_reveal front (back ∷ []) 1 two-IsChain refl (omega arith) (omega arith)

copy_partial-bytes_example : copy_partial two 3 1 ≡ 2 ∷ 3 ∷ 4 ∷ []
copy_partial-bytes_example = copy_partial-bytes two 3 1 two-IsChain

memcmp-IsPrefix_example : (memcmp two 2 (3 ∷ 4 ∷ []) ≡ 0) ↔ IsPrefix (3 ∷ 4 ∷ []) (3 ∷ 4 ∷ 5 ∷ [])
memcmp-IsPrefix_example = memcmp-IsPrefix two 2 (3 ∷ 4 ∷ []) two-IsChain (omega arith) (omega arith)

memfind-Search_example : Search two (3 ∷ 4 ∷ []) 0 4 (memfind two (3 ∷ 4 ∷ []) 0)
memfind-Search_example = memfind-Search two (3 ∷ 4 ∷ []) 0 two-IsChain (omega arith) (omega arith)

realloc-take_example :
    (bytes (realloc two 4).0 ≡ 1 ∷ 2 ∷ 3 ∷ 4 ∷ [])
    × IsChain (realloc two 4).0
    × (rudp.Pbuf.tot_len (realloc two 4).0 ≡ 4)
realloc-take_example = realloc-take two 4 two-IsChain

pbuf_take-bytes_example :
    ((5 < 2) × (pbuf_take two (7 ∷ 8 ∷ []) ≡ (two, arg)))
    ⊎ (((pbuf_take two (7 ∷ 8 ∷ [])).1 ≡ ok)
        × (bytes (pbuf_take two (7 ∷ 8 ∷ [])).0 ≡ 7 ∷ 8 ∷ 3 ∷ 4 ∷ 5 ∷ [])
        × SameShape (pbuf_take two (7 ∷ 8 ∷ [])).0 two)
pbuf_take-bytes_example = pbuf_take-bytes front (back ∷ []) (7 ∷ 8 ∷ []) two-IsChain

-- A pool with two free elements.
abbrev small_pool : Buffers ℕ
small_pool = record {
  memp = record {
    tcp_pcbs = [];
    tcp_pcb_listens = [];
    tcp_segs = [];
    pbufs = [];
    pbuf_pools = replicate 556 0 ∷ replicate 556 0 ∷ [];
  };
  heap = 0;
  free_ooseq_pending = false;
}

-- A heap that gives out zeroed memory, and counts the calls.
abbrev zero_malloc : ℕ → ℕ → Option (List ℕ) × ℕ
zero_malloc w n = (some (replicate n 0), w + 1)

alloc-Allocated_example :
    Allocated 600 small_pool.memp
      (alloc zero_malloc small_pool transport 600 pool).0
      (alloc zero_malloc small_pool transport 600 pool).1.memp
      (alloc zero_malloc small_pool transport 600 pool).1.free_ooseq_pending
alloc-Allocated_example =
    alloc-Allocated zero_malloc small_pool transport 600 (refl, (refl, tt)) (omega arith)

memfind_test : memfind two (3 ∷ 4 ∷ []) 0 ≡ 2
unfolding memfind memcmp get_at
memfind_test = refl

copy-Ended_example : Ended 2 (copy two (single ∷ []))
copy-Ended_example = copy-Ended two (single ∷ [])
