-- ===== src/Memp.antt =====
-- src/memp.c: the pools of fixed-size elements, each a list of free elements (`memp_tab`). An
-- element is a value of `E`, such as the bytes of its memory. The checks for overflow and for
-- cycles are off in this configuration.
mod Tests
use rudp.Prelude.{arith, ap, length, ℕ, ◌+◌, ◌≡◌, refl, Option, none, some, List, [], ◌∷◌}

-- The pools of include/lwip/memp_std.h that the TCP code draws from.
pub data MempType : Type 0 where
  tcp_pcb tcp_pcb_listen tcp_seg pbuf pbuf_pool : MempType

-- `memp_tab`: the free elements of each pool.
pub record MempTab (E : Type 0) : Type 0 where
  pub tcp_pcbs : List E
  pub tcp_pcb_listens : List E
  pub tcp_segs : List E
  pub pbufs : List E
  pub pbuf_pools : List E

module _ {E : Type 0} where
  abbrev pub pool_of : MempTab E → MempType → List E
  pool_of m tcp_pcb = m.tcp_pcbs
  pool_of m tcp_pcb_listen = m.tcp_pcb_listens
  pool_of m tcp_seg = m.tcp_segs
  pool_of m pbuf = m.pbufs
  pool_of m pbuf_pool = m.pbuf_pools

  abbrev pub set_pool : MempTab E → MempType → List E → MempTab E
  set_pool m tcp_pcb es = record m { tcp_pcbs = es }
  set_pool m tcp_pcb_listen es = record m { tcp_pcb_listens = es }
  set_pool m tcp_seg es = record m { tcp_segs = es }
  set_pool m pbuf es = record m { pbufs = es }
  set_pool m pbuf_pool es = record m { pbuf_pools = es }

  -- The first of the free elements `es`, or a null pointer.
  abbrev pub first_free : List E → MempTab E → MempType → Option E × MempTab E
  first_free [] m t = (none, m)
  first_free (e ∷ es) m t = (some e, set_pool m t es)

  -- `memp_malloc`.
  unfoldable pub memp_malloc : MempTab E → MempType → Option E × MempTab E
  memp_malloc m t = first_free (pool_of m t) m t

  -- `memp_free`: the element becomes the first free one.
  unfoldable pub memp_free : MempTab E → MempType → E → MempTab E
  memp_free m t e = set_pool m t (e ∷ pool_of m t)

  pool_of-set_pool : (m : MempTab E) (t : MempType) (es : List E) → pool_of (set_pool m t es) t ≡ es
  pool_of-set_pool m tcp_pcb es = refl
  pool_of-set_pool m tcp_pcb_listen es = refl
  pool_of-set_pool m tcp_seg es = refl
  pool_of-set_pool m pbuf es = refl
  pool_of-set_pool m pbuf_pool es = refl

  -- How many elements a result holds.
  abbrev pub count : Option E → ℕ
  count none = 0
  count (some e) = 1

  first_free-count :
      (es : List E) (m : MempTab E) (t : MempType)
      → pool_of m t ≡ es
      → let (e, m') = first_free es m t in count e + length (pool_of m' t) ≡ length (pool_of m t)
  first_free-count [] m t h = omega arith
  first_free-count (e ∷ es) m t h = omega (arith, ap length (pool_of-set_pool m t es), ap length h)

  -- `memp_malloc` takes one element from its pool, or none if the pool is empty, and the pool has
  -- one element less for it.
  pub memp_malloc-count :
      (m : MempTab E) (t : MempType)
      → let (e, m') = memp_malloc m t in count e + length (pool_of m' t) ≡ length (pool_of m t)
  unfolding memp_malloc
  memp_malloc-count m t = first_free-count (pool_of m t) m t refl

  first_free-pbuf : (es : List E) (m : MempTab E) → (first_free es m pbuf).1.tcp_segs ≡ m.tcp_segs
  first_free-pbuf [] m = refl
  first_free-pbuf (e ∷ es) m = refl

  -- The other pools keep their elements.
  pub memp_malloc-pbuf : (m : MempTab E) → (memp_malloc m pbuf).1.tcp_segs ≡ m.tcp_segs
  unfolding memp_malloc
  memp_malloc-pbuf m = first_free-pbuf m.pbufs m

  -- An element that is freed is the next one to be allocated, and allocating it leaves the pools as
  -- they were before it was freed.
  memp_malloc-memp_free :
      (m : MempTab E) (t : MempType) (e : E) → memp_malloc (memp_free m t e) t ≡ (some e, m)
  unfolding memp_malloc memp_free
  memp_malloc-memp_free m tcp_pcb e = refl
  memp_malloc-memp_free m tcp_pcb_listen e = refl
  memp_malloc-memp_free m tcp_seg e = refl
  memp_malloc-memp_free m pbuf e = refl
  memp_malloc-memp_free m pbuf_pool e = refl
