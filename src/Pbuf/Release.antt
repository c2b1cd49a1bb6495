-- ===== src/Pbuf/Release.antt =====
-- src/pbuf.c: what `pbuf_free` does to the pools and the heap. The C library's `free` is a
-- parameter.
use rudp.Prelude.{
  ℕ, ◌+◌, ◌-◌, ◌%◌, ◌≡◌, refl, ◌∙◌, List, [], ◌∷◌, ◌==◌, if◌then◌else◌, Bool-cases, inl, inr,
}
use rudp.Memp.{pbuf, pbuf_pool, memp_free}
use rudp.Pbuf.{Pbuf, Chain, u16_mod, ram, rom, ref, pool}
use rudp.Pbuf.Alloc.{Buffers}

module _ {W : Type 0} (mem_free : W → List ℕ → W) where
  -- The memory of one pbuf, by its type.
  unfoldable pub release_one : Buffers W → Pbuf → Buffers W
  unfolding memp_free
  release_one s p = elim p.kind [
    | pool ↦ record s { memp = memp_free s.memp pbuf_pool p.block }
    | rom ↦ record s { memp = memp_free s.memp pbuf p.block }
    | ref ↦ record s { memp = memp_free s.memp pbuf p.block }
    | ram ↦ record s { heap = mem_free s.heap p.block }
  ]

  -- `pbuf_free`, up to the first pbuf that is still referenced.
  unfoldable pub release : Buffers W → Chain → Buffers W
  unfolding release_one
  release s [] = s
  release s (p ∷ ps) =
      let onward = release (release_one s p) ps in
      if (p.refs + u16_mod - 1) % u16_mod == 0 then onward else s

  -- The pool of the segments is not concerned.
  release_one-tcp_segs :
      (s : Buffers W) (p : Pbuf) → (release_one s p).memp.tcp_segs ≡ s.memp.tcp_segs
  unfolding release_one memp_free
  release_one-tcp_segs s p =
      elim p.kind
        as (λ k. (release_one s (record p { kind = k })).memp.tcp_segs ≡ s.memp.tcp_segs) [
          | pool ↦ refl
          | rom ↦ refl
          | ref ↦ refl
          | ram ↦ refl
        ]

  pub release-tcp_segs :
      (ps : Chain) (s : Buffers W) → (release s ps).memp.tcp_segs ≡ s.memp.tcp_segs
  unfolding release
  release-tcp_segs [] s = refl
  release-tcp_segs (p ∷ ps) s = elim (Bool-cases ((p.refs + u16_mod - 1) % u16_mod == 0)) [
    | inl last ↦ rw last (release-tcp_segs ps (release_one s p) ∙ release_one-tcp_segs s p)
    | inr more ↦ rw more refl
  ]
