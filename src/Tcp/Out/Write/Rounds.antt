-- ===== src/Tcp/Out/Write/Rounds.antt =====
-- What the rounds of phase 3 of `tcp_write` of src/tcp_out.c do to the draft, and that their number
-- is bounded.
use rudp.Tcp.Out.Draft.Grows.{Room-length}
use rudp.Pbuf.Release.{release-tcp_segs, release}
use rudp.Tcp.Out.Write.Grown.{grow}
use rudp.Tcp.Out.Draft.Ready.{queued_bytes, IsReady, IsReady-push}
use rudp.Tcp.Out.Make.{create_segment}
use rudp.Pbuf.Free.{clen-length, clen}
use rudp.Tcp.Out.Write.Pool.{phase3_pbufs-free_segs}
use rudp.Tcp.Seq.{u32_mod}
use rudp.Tcp.Out.Write.Segment.{create_segment-Made, Made}
use rudp.Tcp.Segs.{free_segs}
use rudp.Pbuf.{u16_mod, Chain}
use rudp.Tcp.Out.Write.Drafted.{IsDraft-moved, drafted_queue, IsDraft}
use rudp.Pbuf.Alloc.{Buffers}
use rudp.Tcp.Out.Draft.{on_last, piece, mss_local, Draft}
use rudp.Tcp.Types.{tcplen, sndqueuelen_overflow, no_hdr_flags, tcp_snd_queuelen, Seg, Pcb}
use rudp.Tcp.Out.Write.{phase3, add_seg, phase3_pbufs, round3, queue_pbufs}
use rudp.Tcp.Out.Write.Pieces.{phase3_pbufs-IsPiece, IsPieceIfAny, SizedMalloc}
use rudp.Prelude.{
  zero, true, suc, length-append, take_add, take, refl, ap₂, ◌∙◌, sym, ap, subst, ◌||◌,
  append_assoc, ltb, if_elim, length-drop, drop, length-take, [], arith, ◌∷◌, none, ◌++◌, some,
  false, ◌-◌, ◌%◌, min, length, ◌≤◌, ◌≡◌, ◌<◌, ◌+◌, Option, Bool, ℕ, List,
}
use rudp.Tcp.Env.{Env}

-- A round puts one segment behind the new ones, or all its memory is given back. The pbufs are
-- counted, and there are not more of them than may be queued.
abbrev pub IsRound :
    {W : Type 0}
    → List ℕ
    → (copy : Bool) → (n total : ℕ) → List ℕ
    → Pcb
    → Draft
    → (left : ℕ) → Option Draft × Buffers W
    → Type 0
IsRound data_bytes copy n total old pcb d left (none, s') = free_segs s' ≡ left
IsRound data_bytes copy n total old pcb d left (some d', s') =
    IsDraft data_bytes copy n total old pcb d' s'
    × (d.queuelen + 1 ≤ d'.queuelen)
    × (d'.queuelen ≤ tcp_snd_queuelen)

-- The draft with one segment more.
pushed-IsDraft :
    {W : Type 0} (data_bytes : List ℕ) (copy : Bool) (n total : ℕ) (old : List ℕ) (pcb : Pcb)
    (d : Draft) (s s' : Buffers W) (seg : Seg) (seglen oversize queuelen : ℕ)
    → IsDraft data_bytes copy n total old pcb d s
    → d.pos + seglen ≤ length data_bytes
    → Made
        (piece data_bytes d.pos seglen)
        oversize
        ((pcb.snd_lbb + d.pos) % u32_mod)
        (free_segs s)
        (some seg, s')
    → seglen + oversize ≤ mss_local pcb
    → (copy ≡ false → oversize ≡ 0)
    → IsDraft data_bytes copy n total old pcb
        (record d {
          pos = d.pos + seglen;
          oversize = oversize;
          queue = d.queue ++ (record seg { oversize_left = oversize } ∷ []);
          queuelen = queuelen;
        })
        s'
unfolding tcplen
pushed-IsDraft data_bytes copy n total old pcb d s s' seg seglen oversize queuelen g l made fits z =
    let xs = piece data_bytes d.pos seglen in
    let noted = record seg { oversize_left = oversize } in
    let size : length xs ≡ seglen =
      omega (arith, length-take seglen (drop d.pos data_bytes), length-drop d.pos data_bytes, l) in
    let ready =
      IsReady-push (mss_local pcb) d.oversize oversize n ((pcb.snd_lbb + d.pos) % u32_mod)
        (drafted_queue data_bytes pcb d) noted g.drafted made.3 made.1
        (made.5, omega (arith, made.6, size, fits)) in
    let same : drafted_queue data_bytes pcb d ++ (noted ∷ [])
        ≡ on_last (grow d.concat_p d.oversize_used data_bytes) pcb.unsent
          ++ (d.queue ++ (noted ∷ [])) =
      append_assoc (on_last (grow d.concat_p d.oversize_used data_bytes) pcb.unsent) d.queue
        (noted ∷ []) in
    let end : ((pcb.snd_lbb + d.pos) % u32_mod + tcplen noted) % u32_mod
        ≡ (pcb.snd_lbb + (d.pos + seglen)) % u32_mod =
      omega (arith, made.4, size) in
    record {
      drafted =
          subst (IsReady (mss_local pcb) oversize n ((pcb.snd_lbb + (d.pos + seglen)) % u32_mod))
            same
            (subst
              (λ (m : ℕ).
                IsReady (mss_local pcb) oversize n m
                  (drafted_queue data_bytes pcb d ++ (noted ∷ [])))
              end ready.0);
      drafted_bytes =
          ap queued_bytes (sym same)
          ∙ ready.1
          ∙ ap₂ ◌++◌ g.drafted_bytes made.2
          ∙ append_assoc old (take d.pos data_bytes) xs
          ∙ ap (◌++◌ old) (sym (take_add d.pos seglen data_bytes));
      drafted_segs = omega (arith, length-append d.queue (noted ∷ []), g.drafted_segs, made.0);
      within = l;
      uncopied = λ c m. z c;
    }

module _ {W : Type 0} (env : Env W) (sized : SizedMalloc env) (data_bytes : List ℕ)
    (copy more : Bool) where
  add_seg-IsRound :
      (n total : ℕ) (old : List ℕ) (pcb : Pcb) (d : Draft) (s : Buffers W)
      (seglen oversize queuelen : ℕ) (result : Option Seg × Buffers W)
      → IsDraft data_bytes copy n total old pcb d s
      → d.pos + seglen ≤ length data_bytes
      → Made
          (piece data_bytes d.pos seglen)
          oversize
          ((pcb.snd_lbb + d.pos) % u32_mod)
          (free_segs s)
          result
      → seglen + oversize ≤ mss_local pcb
      → (copy ≡ false → oversize ≡ 0)
      → d.queuelen + 1 ≤ queuelen
      → queuelen ≤ tcp_snd_queuelen
      → IsRound data_bytes copy n total old pcb d
          (free_segs s)
          (add_seg env data_bytes copy more result.0 d seglen oversize queuelen, result.1)
  add_seg-IsRound n total old pcb d s seglen oversize queuelen (none, s') g l made fits z a b = made
  add_seg-IsRound n total old pcb d s seglen oversize queuelen (some seg, s') g l made fits z a b =
      (
        pushed-IsDraft data_bytes copy n total old pcb d s s' seg seglen oversize queuelen g l made
            fits z,
        a,
        b,
      )

  queue_pbufs-IsRound :
      (n total : ℕ) (old : List ℕ) (pcb : Pcb) (d : Draft) (s : Buffers W) (seglen : ℕ)
      (e : Option (Chain × ℕ))
      → IsDraft data_bytes copy n total old pcb d s
      → d.pos + seglen ≤ length data_bytes
      → mss_local pcb < 1000
      → IsPieceIfAny copy 20 (mss_local pcb) (piece data_bytes d.pos seglen) e
      → d.queuelen ≤ tcp_snd_queuelen + 1
      → IsRound data_bytes copy n total old pcb d
          (free_segs s)
          (queue_pbufs env data_bytes copy more e pcb d seglen s)
  unfolding queue_pbufs
  queue_pbufs-IsRound n total old pcb d s seglen none g l m q c = refl
  queue_pbufs-IsRound n total old pcb d s seglen (some (p, oversize)) g l m q c =
      let queuelen = (d.queuelen + clen p) % u16_mod in
      let seqno = (pcb.snd_lbb + d.pos) % u32_mod in
      let xs = piece data_bytes d.pos seglen in
      let size : length xs ≡ seglen =
        omega
          (arith, length-take seglen (drop d.pos data_bytes), length-drop d.pos data_bytes, l) in
      let one : 1 ≤ length p = Room-length p oversize q.0.piece_room in
      let result = create_segment env pcb p no_hdr_flags seqno false s in
      if_elim (IsRound data_bytes copy n total old pcb d (free_segs s))
        (ltb tcp_snd_queuelen queuelen || ltb sndqueuelen_overflow queuelen)
        (none, release env.mem_free s p)
        (add_seg env data_bytes copy more result.0 d seglen oversize queuelen, result.1)
        (λ t. ap length (release-tcp_segs env.mem_free p s))
        (λ t.
          add_seg-IsRound n total old pcb d s seglen oversize queuelen result g l
            (create_segment-Made env pcb p seqno oversize xs s q.0 (omega (arith, q.1, m)))
            (omega (arith, q.1, size)) q.2 (omega (arith, clen-length p, q.0.piece_count, one))
            (ground arith))

  round3-IsRound :
      (n total : ℕ) (old : List ℕ) (pcb : Pcb) (d : Draft) (s : Buffers W)
      → IsDraft data_bytes copy n total old pcb d s
      → d.pos < length data_bytes
      → mss_local pcb < 1000
      → d.queuelen ≤ tcp_snd_queuelen + 1
      → IsRound data_bytes copy n total old pcb d
          (free_segs s)
          (round3 env data_bytes copy more pcb d s)
  unfolding round3
  round3-IsRound n total old pcb d s g h m c =
      let seglen = min (mss_local pcb) (length data_bytes - d.pos) in
      let (e, s1) = phase3_pbufs env data_bytes copy more pcb d seglen s in
      let kept : free_segs s1 ≡ free_segs s =
        phase3_pbufs-free_segs env data_bytes copy more pcb d seglen s in
      subst
        (λ left.
          IsRound data_bytes copy n total old pcb d left (round3 env data_bytes copy more pcb d s))
        kept
        (queue_pbufs-IsRound n total old pcb d s1 seglen e
          (IsDraft-moved data_bytes copy n total old pcb d s s1 kept g) (omega arith) m
          (phase3_pbufs-IsPiece env sized data_bytes copy more pcb d seglen s (omega arith) m
            (omega arith) (λ z. g.uncopied z h))
          c)

  -- How phase 3 ends, with all data in the draft or with a round that found no memory.
  abbrev pub IsQueued : (n total : ℕ) → List ℕ → Pcb → Option (Draft × Bool × Buffers W) → Type 0
  IsQueued n total old pcb none = ⊥
  IsQueued n total old pcb (some (d, true, s)) =
      IsDraft data_bytes copy n total old pcb d s × (length data_bytes ≤ d.pos)
  IsQueued n total old pcb (some (d, false, s)) =
      length pcb.unsent + length d.queue + free_segs s ≡ total

  after_round-IsQueued :
      (f n total : ℕ) (old : List ℕ) (pcb : Pcb) (d : Draft) (s : Buffers W)
      (result : Option Draft × Buffers W)
      → IsDraft data_bytes copy n total old pcb d s
      → IsRound data_bytes copy n total old pcb d (free_segs s) result
      → tcp_snd_queuelen + 2 ≤ suc f + d.queuelen
      → ((d' : Draft) (s' : Buffers W)
          → IsDraft data_bytes copy n total old pcb d' s'
          → 1 ≤ f
          → (d'.pos < length data_bytes
              → (d'.queuelen ≤ tcp_snd_queuelen + 1) × (tcp_snd_queuelen + 2 ≤ f + d'.queuelen))
          → IsQueued n total old pcb (phase3 env data_bytes copy more f pcb d' s'))
      → IsQueued n total old pcb (elim result.0 [
        | none ↦ some (d, false, result.1)
        | some d' ↦ phase3 env data_bytes copy more f pcb d' result.1
      ])
  after_round-IsQueued f n total old pcb d s (none, s') g r c later =
      omega (arith, g.drafted_segs, r)
  after_round-IsQueued f n total old pcb d s (some d', s') g r c later =
      later d' s' r.0 (omega (arith, r, c)) (λ h. (omega (arith, r), omega (arith, r, c)))

  -- Each round counts a pbuf more, so there are at most as many rounds as pbufs may be queued, and
  -- two.
  pub phase3-IsQueued :
      (f n total : ℕ) (old : List ℕ) (pcb : Pcb) (d : Draft) (s : Buffers W)
      → mss_local pcb < 1000
      → IsDraft data_bytes copy n total old pcb d s
      → 1 ≤ f
      → (d.pos < length data_bytes
          → (d.queuelen ≤ tcp_snd_queuelen + 1) × (tcp_snd_queuelen + 2 ≤ f + d.queuelen))
      → IsQueued n total old pcb (phase3 env data_bytes copy more f pcb d s)
  unfolding phase3
  phase3-IsQueued zero n total old pcb d s m g h c =
      let clash : ⊥ = omega (arith, h) in absurd clash
  phase3-IsQueued (suc f) n total old pcb d s m g h c =
      let result = round3 env data_bytes copy more pcb d s in
      if_elim (IsQueued n total old pcb) (ltb d.pos (length data_bytes))
        (elim result.0 [
          | none ↦ some (d, false, result.1)
          | some d' ↦ phase3 env data_bytes copy more f pcb d' result.1
        ])
        (some (d, true, s))
        (λ t.
          let more_data : d.pos < length data_bytes = ground arith in
          after_round-IsQueued f n total old pcb d s result g
            (round3-IsRound n total old pcb d s g more_data m (c more_data).0) (c more_data).1
            (λ d' s' g' h' c'. phase3-IsQueued f n total old pcb d' s' m g' h' c'))
        (λ t. (g, ground arith))
