-- ===== src/Tcp/Out/Queue.antt =====
-- What `tcp_enqueue_flags` and `tcp_send_fin` of src/tcp_out.c do to the queue and the counters, on
-- each branch.
use rudp.Err.{Err}
use rudp.Prelude.{
  ℕ, ◌+◌, ◌-◌, ◌/◌, ◌%◌, ◌≤◌, ◌<◌, ◌≡◌, refl, ap, ◌∙◌, Bool, true, false, not, ◌&&◌, ◌||◌, List, [],
  ◌∷◌, ◌++◌, Option, none, some, ◌==◌, arith, length, Bool-cases, inl, inr, ◌⊎◌,
}
use rudp.Pbuf.{Chain, ram, transport, u16_mod, tot_len}
use rudp.Memp.{memp_malloc-count, count, memp_malloc, tcp_seg}
use rudp.Pbuf.Alloc.{HasLength, alloc-ram_HasLength, Buffers, alloc, alloc-ram_memp}
use rudp.Pbuf.Header.{header}
use rudp.Prelude.Int.{pos}
use rudp.Pbuf.Release.{release-tcp_segs}
use rudp.Tcp.Seq.{u32_mod}
use rudp.Tcp.Types.{Pcb, Seg, HdrFlags, tcplen, tcp_hlen, opt_length}
use rudp.Tcp.Env.{Env}
use rudp.Tcp.Segs.{free_segs, seg_free-free_segs}
use rudp.Tcp.Out.Make.{head_payload, build_segment, create_segment}
use rudp.Tcp.Out.Enqueue.{enqueue_in, push_result, enqueue_flags, queue_full}
use rudp.Tcp.Out.Output.{is_ok}

-- What a call for a SYN or a FIN does: after an error only the flag TF_NAGLEMEMERR may change, and
-- the pool has its segments back; else one segment without data, with the next sequence number, is
-- at the end of the queue, and the counters are as the sequence number that it takes wants it.
abbrev pub Enqueued : {W : Type 0} → Pcb → HdrFlags → Buffers W → Err × Pcb × Buffers W → Type 0
Enqueued pcb flags s (err, pcb', s') =
    ((is_ok err ≡ false)
      × (pcb' ≡ record pcb { flags = pcb'.flags })
      × (free_segs s' ≡ free_segs s))
    ⊎ ((is_ok err ≡ true)
        × ((seg : Seg) × (pcb'.unsent ≡ pcb.unsent ++ (seg ∷ []))
            × (pcb'.unacked ≡ pcb.unacked)
            × (tcplen seg ≡ 1)
            × (seg.tcphdr.seqno ≡ pcb.snd_lbb)
            × (seg.tcphdr.flags ≡ flags))
        × (pcb'.snd_lbb ≡ (pcb.snd_lbb + 1) % u32_mod)
        × (pcb'.snd_buf + 1 ≡ pcb.snd_buf)
        × (free_segs s' + 1 ≡ free_segs s))

opt_length_small : (b : Bool) → opt_length b ≤ 4
opt_length_small true = omega arith
opt_length_small false = omega arith

module _ {W : Type 0} (env : Env W) where
  -- The pbufs of a control segment hold the option and nothing else.
  build_segment-Enqueued :
      (b : Option (List ℕ)) (pcb : Pcb) (p : Chain) (flags : HdrFlags) (s : Buffers W)
      → (flags.fin || flags.syn) ≡ true
      → tot_len p ≡ opt_length flags.syn
      → 0 < pcb.snd_buf
      → let (seg, s') = build_segment env b pcb p flags pcb.snd_lbb flags.syn s in
        let (err, pcb') = push_result pcb flags seg in
        ((is_ok err ≡ false)
          × (pcb' ≡ record pcb { flags = pcb'.flags })
          × (free_segs s' ≡ free_segs s + count b))
        ⊎ ((is_ok err ≡ true)
            × ((seg : Seg) × (pcb'.unsent ≡ pcb.unsent ++ (seg ∷ []))
                × (pcb'.unacked ≡ pcb.unacked)
                × (tcplen seg ≡ 1)
                × (seg.tcphdr.seqno ≡ pcb.snd_lbb)
                × (seg.tcphdr.flags ≡ flags))
            × (pcb'.snd_lbb ≡ (pcb.snd_lbb + 1) % u32_mod)
            × (pcb'.snd_buf + 1 ≡ pcb.snd_buf)
            × (free_segs s' + 1 ≡ free_segs s + count b))
  unfolding build_segment tcplen
  build_segment-Enqueued none pcb p flags s f t n =
      inl (refl, refl, omega (arith, ap length (release-tcp_segs env.mem_free p s)))
  build_segment-Enqueued (some b) pcb p flags s f t n =
      let zeroed : (tot_len p + u16_mod - opt_length flags.syn) % u16_mod ≡ 0 =
        rw t (omega (arith, opt_length_small flags.syn)) in
      let (p', refused) = header p (pos tcp_hlen) in
      let seg : Seg = record {
        p = p';
        len = (tot_len p + u16_mod - opt_length flags.syn) % u16_mod;
        oversize_left = 0;
        opt_mss = flags.syn;
        hdr_at = head_payload p';
        tcphdr = record {
          conn_id = pcb.conn_id;
          seqno = pcb.snd_lbb;
          ackno = 0;
          hdrlen = 5 + opt_length flags.syn / 4;
          flags = flags;
          wnd = 0;
        };
      } in
      elim (Bool-cases (refused == 0)) [
        | inl fine ↦ inr (
          rw fine refl,
          rw fine (
            seg,
            refl,
            refl,
            (let one : tcplen seg ≡ 1 = rw (f, zeroed) refl in one),
            refl,
            refl,
          ),
          rw (fine, f) refl,
          rw (fine, f) (omega arith),
          rw fine (omega arith),
        )
        | inr fails ↦
            inl
              (rw fails refl, rw fails refl, rw fails (omega (arith, seg_free-free_segs env s seg)))
      ]

  enqueue_in-Enqueued :
      (e : Option Chain) (pcb : Pcb) (flags : HdrFlags) (s : Buffers W)
      → (flags.fin || flags.syn) ≡ true
      → HasLength (opt_length flags.syn) e
      → 0 < pcb.snd_buf
      → Enqueued pcb flags s (enqueue_in env e pcb flags s)
  unfolding enqueue_in create_segment
  enqueue_in-Enqueued none pcb flags s f t n = inl (refl, refl, refl)
  enqueue_in-Enqueued (some p) pcb flags s f t n =
      let (b, m) = memp_malloc s.memp tcp_seg in
      let kept = memp_malloc-count s.memp tcp_seg in
      elim (build_segment-Enqueued b pcb p flags (record s { memp = m }) f t n) [
        | inl (x, y, z) ↦ inl (x, y, omega (arith, z, kept))
        | inr (x, y, z, w, v) ↦ inr (x, y, z, w, omega (arith, v, kept))
      ]

  -- With SYN or FIN among the flags, there are two outcomes of `tcp_enqueue_flags`: after an error
  -- only the flags of the control block may differ, and no segment is lost from the pool; else one
  -- segment without data, with the next sequence number and the given flags, is at the end of the
  -- unsent queue, and the sequence number and the send buffer are counted on by the one number that
  -- it takes.
  pub enqueue_flags-Enqueued :
      (pcb : Pcb) (flags : HdrFlags) (s : Buffers W)
      → (flags.fin || flags.syn) ≡ true
      → Enqueued pcb flags s (enqueue_flags env pcb flags s)
  unfolding enqueue_flags
  enqueue_flags-Enqueued pcb flags s f =
      let n' = opt_length flags.syn in
      let (e, s') = alloc env.mem_malloc s transport n' ram in
      let kept : free_segs s' ≡ free_segs s =
        ap (λ m. length m.tcp_segs) (alloc-ram_memp env.mem_malloc s transport n') in
      elim (Bool-cases (queue_full pcb.snd_queuelen && not flags.fin)) [
        | inl full ↦ rw full (inl (refl, refl, refl))
        | inr room ↦ elim (Bool-cases (pcb.snd_buf == 0)) [
          | inl nothing ↦ rw (room, nothing) (inl (refl, refl, refl))
          | inr some_left ↦
              let n : 0 < pcb.snd_buf = ground arith in
              rw (room, some_left)
                (elim (enqueue_in-Enqueued e pcb flags s' f
                  (alloc-ram_HasLength env.mem_malloc s transport n') n) [
                    | inl (x, y, z) ↦ inl (x, y, z ∙ kept)
                    | inr (x, y, z, w, v) ↦ inr (x, y, z, w, v ∙ kept)
                  ])
        ]
      ]
