-- ===== src/Tcp/Out/Write/Pool.antt =====
-- The pbufs of `tcp_write` of src/tcp_out.c come from the heap and from the pool of pbufs, and the
-- pool of segments stays as it is.
use rudp.Pbuf.Release.{release-tcp_segs}
use rudp.Memp.{memp_malloc-pbuf}
use rudp.Tcp.Segs.{free_segs}
use rudp.Tcp.Out.Draft.{point_to, mss_local, Draft}
use rudp.Pbuf.{ram, raw, transport, rom, Chain, PbufLayer}
use rudp.Tcp.Types.{Pcb}
use rudp.Pbuf.Alloc.{Buffers, alloc}
use rudp.Tcp.Out.Write.{add_header, join_header, phase3_pbufs, phase2_pbuf}
use rudp.Tcp.Out.Make.{is_empty, pbuf_prealloc}
use rudp.Prelude.{
  none, ◌∙◌, inr, true, inl, some, length, ap, Bool-cases, refl, ◌≡◌, Option, Bool, ℕ, List,
}
use rudp.Tcp.Env.{Env}

module _ {W : Type 0} (env : Env W) (data_bytes : List ℕ) (copy more : Bool) where
  join_header-free_segs :
      (e : Option Chain) (p2 : Chain) (oversize : ℕ) (s : Buffers W)
      → free_segs (join_header env data_bytes copy more e p2 oversize s).1 ≡ free_segs s
  unfolding join_header
  join_header-free_segs none p2 oversize s = ap length (release-tcp_segs env.mem_free p2 s)
  join_header-free_segs (some p) p2 oversize s = refl

  add_header-free_segs :
      (e : Option (Chain × ℕ)) (s : Buffers W)
      → free_segs (add_header env data_bytes copy more e s).1 ≡ free_segs s
  unfolding add_header alloc
  add_header-free_segs none s = refl
  add_header-free_segs (some (p2, oversize)) s =
      let (e, s1) = alloc env.mem_malloc s transport 0 ram in join_header-free_segs e p2 oversize s1

  pub prealloc-free_segs :
      (layer : PbufLayer) (length max_length : ℕ) (pcb : Pcb) (first_seg : Bool) (s : Buffers W)
      → free_segs (pbuf_prealloc env layer length max_length pcb more first_seg s).1 ≡ free_segs s
  unfolding pbuf_prealloc alloc
  prealloc-free_segs layer length max_length pcb first_seg s = refl

  rom-free_segs :
      (layer : PbufLayer) (n : ℕ) (s : Buffers W)
      → free_segs (alloc env.mem_malloc s layer n rom).1 ≡ free_segs s
  unfolding alloc
  rom-free_segs layer n s = ap length (memp_malloc-pbuf s.memp)

  -- Phase 2 takes no segment.
  pub phase2_pbuf-free_segs :
      (pcb : Pcb) (d : Draft) (room seglen : ℕ) (s : Buffers W)
      → free_segs (phase2_pbuf env data_bytes copy more pcb d room seglen s).1 ≡ free_segs s
  unfolding phase2_pbuf
  phase2_pbuf-free_segs pcb d room seglen s = elim (Bool-cases copy) [
    | inl c ↦ rw c (prealloc-free_segs raw seglen room pcb true s)
    | inr c ↦ rw c (rom-free_segs raw seglen s)
  ]

  -- Neither do the pbufs of phase 3.
  pub phase3_pbufs-free_segs :
      (pcb : Pcb) (d : Draft) (seglen : ℕ) (s : Buffers W)
      → free_segs (phase3_pbufs env data_bytes copy more pcb d seglen s).1 ≡ free_segs s
  unfolding phase3_pbufs
  phase3_pbufs-free_segs pcb d seglen s =
      let (e', s1') = alloc env.mem_malloc s transport seglen rom in
      elim (Bool-cases copy) [
        | inl c ↦
            rw c (prealloc-free_segs transport seglen (mss_local pcb) pcb (is_empty d.queue) s)
        | inr c ↦ rw c (
            add_header-free_segs (point_to e' data_bytes d.pos d.oversize) s1'
            ∙ rom-free_segs transport seglen s)
      ]
