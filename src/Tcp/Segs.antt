-- ===== src/Tcp/Segs.antt =====
-- The queues of segments: `tcp_seg_free` and `tcp_segs_free` of src/tcp.c, and the sorted insertion
-- that stands in `tcp_output` and in `tcp_rexmit` of src/tcp_out.c.
pub mod Sorted
use rudp.Prelude.{ℕ, ◌+◌, ◌≡◌, refl, ap, ◌∙◌, Bool, List, [], ◌∷◌, arith, if◌then◌else◌, length}
use rudp.Memp.{tcp_seg, memp_free}
use rudp.Pbuf.Alloc.{Buffers}
use rudp.Pbuf.Release.{release, release-tcp_segs}
use rudp.Tcp.Seq.{seq_lt}
use rudp.Tcp.Types.{Seg}
use rudp.Tcp.Env.{Env}

-- The number of free segments in their pool.
abbrev pub free_segs : {W : Type 0} → Buffers W → ℕ
free_segs s = length s.memp.tcp_segs

module _ {W : Type 0} (env : Env W) where
  -- `tcp_seg_free`. The contents of a free element do not matter.
  unfoldable pub seg_free : Buffers W → Seg → Buffers W
  unfolding release memp_free
  seg_free s seg =
      let s' = release env.mem_free s seg.p in record s' { memp = memp_free s'.memp tcp_seg [] }

  -- `tcp_segs_free`.
  unfoldable pub segs_free : Buffers W → List Seg → Buffers W
  unfolding seg_free
  segs_free s [] = s
  segs_free s (seg ∷ segs) = segs_free (seg_free s seg) segs

  pub seg_free-free_segs :
      (s : Buffers W) (seg : Seg) → free_segs (seg_free s seg) ≡ free_segs s + 1
  unfolding seg_free memp_free
  seg_free-free_segs s seg = omega (arith, ap length (release-tcp_segs env.mem_free seg.p s))

  -- Freeing a queue puts each of its segments back into the pool.
  pub segs_free-free_segs :
      (segs : List Seg) (s : Buffers W) → free_segs (segs_free s segs) ≡ free_segs s + length segs
  unfolding segs_free
  segs_free-free_segs [] s = omega arith
  segs_free-free_segs (seg ∷ segs) s =
      omega (arith, segs_free-free_segs segs (seg_free s seg), seg_free-free_segs s seg)

-- The walk behind the segments with a smaller sequence number.
unfoldable pub insert_seg : List Seg → Seg → List Seg
unfolding seq_lt
insert_seg [] seg = seg ∷ []
insert_seg (cur ∷ segs) seg =
    let onward = cur ∷ insert_seg segs seg in
    if seq_lt cur.tcphdr.seqno seg.tcphdr.seqno then onward else seg ∷ (cur ∷ segs)
