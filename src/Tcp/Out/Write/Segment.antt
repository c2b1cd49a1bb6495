-- ===== src/Tcp/Out/Write/Segment.antt =====
-- What `tcp_create_segment` of src/tcp_out.c makes of the pbufs of `tcp_write`.
use rudp.Pbuf.Release.{release-tcp_segs}
use rudp.Memp.{memp_malloc-count, tcp_seg, memp_malloc, count}
use rudp.Tcp.Out.Draft.Ready.{seg_bytes, IsFilled}
use rudp.Pbuf.Header.{header_reveal-eq, header, header_reveal, reveal_bytes}
use rudp.Tcp.Out.Draft.Grows.{Room}
use rudp.Tcp.Segs.{free_segs}
use rudp.Tcp.Out.Write.Pieces.{IsPiece}
use rudp.Tcp.Types.{opt_length, tcplen, no_hdr_flags, Seg, Pcb}
use rudp.Pbuf.Alloc.{Buffers}
use rudp.Tcp.Out.Make.{create_segment, build_segment}
use rudp.Pbuf.{bytes, length-bytes, IsChain, u16_mod, Chain, Pbuf}
use rudp.Prelude.Int.{pos}
use rudp.Prelude.{
  refl, ◌%◌, ◌-◌, drop, ◌∙◌, sym, inr, inl, subst, none, ap, some, [], arith, false, ◌≡◌, ◌≤◌,
  length, ◌∷◌, ◌<◌, ◌+◌, Option, ℕ, List,
}
use rudp.Tcp.Env.{Env}

-- A segment with the data `xs`, taken from the pool of `total` segments; the pool is whole if there
-- is none.
abbrev pub Made :
    {W : Type 0} → (xs : List ℕ) → (oversize seqno total : ℕ) → Option Seg × Buffers W → Type 0
Made xs oversize seqno total (none, s) = free_segs s ≡ total
Made xs oversize seqno total (some seg, s) =
    (free_segs s + 1 ≡ total)
    × IsFilled seg
    × (seg_bytes seg ≡ xs)
    × (seg.tcphdr.seqno ≡ seqno)
    × (tcplen seg ≡ length xs)
    × Room seg.p oversize
    × (seg.len + opt_length seg.opt_mss ≡ length xs)

Room-reveal :
    (p : Pbuf) (ps : Chain) (r : ℕ)
    → IsChain (p ∷ ps)
    → p.tot_len + 20 < u16_mod
    → 20 ≤ p.payload
    → Room (p ∷ ps) r
    → Room (reveal_bytes p 20 ∷ ps) r
Room-reveal p [] r c k l h = omega (arith, c.0)
Room-reveal p (q ∷ ps) r c k l h = h

module _ {W : Type 0} (env : Env W) where
  build_segment-Made :
      (b : Option (List ℕ)) (pcb : Pcb) (p : Pbuf) (ps : Chain) (seqno oversize : ℕ) (xs : List ℕ)
      (s : Buffers W)
      → IsPiece 20 oversize xs (p ∷ ps)
      → length xs + 20 < u16_mod
      → Made xs oversize seqno
          (count b + free_segs s)
          (build_segment env b pcb (p ∷ ps) no_hdr_flags seqno false s)
  unfolding build_segment tcplen
  build_segment-Made none pcb p ps seqno oversize xs s h k =
      omega (arith, ap length (release-tcp_segs env.mem_free (p ∷ ps) s))
  build_segment-Made (some b) pcb p ps seqno oversize xs s h k = elim h.piece_head [
    | inl absent ↦ let clash : ⊥ = omega (arith, absent) in absurd clash
    | inr (own, room) ↦
        let size : p.tot_len ≡ length xs =
          sym (length-bytes (p ∷ ps) h.piece_chain) ∙ ap length h.piece_bytes in
        let small : p.tot_len + 20 < u16_mod = omega (arith, size) in
        let revealed = header_reveal p ps 19 h.piece_chain own small room in
        let same : header (p ∷ ps) (pos 20) ≡ (reveal_bytes p 20 ∷ ps, 0) =
          header_reveal-eq p ps 19 own room in
        let chained : IsChain (reveal_bytes p 20 ∷ ps) = subst (λ r. IsChain r.0) same revealed.2 in
        let data_behind : drop 20 (bytes (reveal_bytes p 20 ∷ ps)) ≡ xs =
          ap (λ r. drop 20 (bytes r.0)) (sym same) ∙ revealed.1 ∙ h.piece_bytes in
        let len : (p.tot_len + u16_mod - 0) % u16_mod ≡ length xs = omega (arith, size) in
        let head : (p.tot_len + 20) % u16_mod - length xs ≡ 20 = omega (arith, size) in
        rw (same, len)
          (
            omega arith,
            (chained, omega (arith, size), omega (arith, size)),
            rw head data_behind,
            refl,
            omega arith,
            Room-reveal p ps oversize h.piece_chain small room h.piece_room,
            omega arith,
          )
  ]

  -- With memory for it, `tcp_create_segment` makes a segment of the data in the pbufs.
  pub create_segment-Made :
      (pcb : Pcb) (ps : Chain) (seqno oversize : ℕ) (xs : List ℕ) (s : Buffers W)
      → IsPiece 20 oversize xs ps
      → length xs + 20 < u16_mod
      → Made xs oversize seqno (free_segs s) (create_segment env pcb ps no_hdr_flags seqno false s)
  unfolding create_segment
  create_segment-Made pcb [] seqno oversize xs s h k = absurd h.piece_head
  create_segment-Made pcb (p ∷ ps) seqno oversize xs s h k =
      let (b, m) = memp_malloc s.memp tcp_seg in
      subst
        (λ n.
          Made xs oversize seqno n
            (build_segment env b pcb (p ∷ ps) no_hdr_flags seqno false (record s { memp = m })))
        (memp_malloc-count s.memp tcp_seg)
        (build_segment-Made b pcb p ps seqno oversize xs (record s { memp = m }) h k)
