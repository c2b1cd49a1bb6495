-- ===== src/Tcp/Out/Write/Chained.antt =====
-- What phase 2 of `tcp_write` of src/tcp_out.c does to the queue and to the draft.
use rudp.Tcp.Out.Write.Pool.{phase2_pbuf-free_segs}
use rudp.Tcp.Out.Write.{phase2_pbuf, chain_pbuf, phase2}
use rudp.Tcp.Env.{Env}
use rudp.Tcp.Out.Draft.Grows.{Grows, Grows-nil}
use rudp.Pbuf.Free.{clen-length, clen}
use rudp.Tcp.Out.Draft.Ready.{last_seg-on_last, length-on_last}
use rudp.Tcp.Out.Write.Grown.{IsReady-same, grow, grow-phase2, last_seg-HasRoom}
use rudp.Tcp.Out.Write.Pieces.{phase2_pbuf-IsPiece, SizedMalloc, IsPieceIfAny}
use rudp.Tcp.Out.Write.Drafted.{phase1-IsDraft, grown-IsDraft, IsDraft, IsOld}
use rudp.Pbuf.{u16_mod, Chain}
use rudp.Tcp.Segs.{free_segs}
use rudp.Tcp.Out.Draft.{space, phase1, mss_local, note_oversize, piece, on_last, last_seg, Draft}
use rudp.Pbuf.Alloc.{Buffers}
use rudp.Tcp.Types.{opt_length, Seg, Pcb}
use rudp.Prelude.{
  ◌<◌, ◌&&◌, ltb, if_elim, ◌-◌, false, take_add, sym, refl, length-drop, ◌∙◌, drop, length-take,
  true, subst, ◌%◌, none, [], min, arith, some, ◌≡◌, length, ◌≤◌, Option, ◌+◌, Bool, ℕ, List,
}

-- The queue stays as it is but for the note of the bytes to spare; the draft, if there is one, has
-- no new segment yet.
abbrev pub IsChained :
    {W : Type 0}
    → List ℕ
    → (copy : Bool) → (n total : ℕ) → List ℕ
    → Pcb
    → Option Draft × Pcb × Buffers W
    → Type 0
IsChained data_bytes copy n total old pcb (none, pcb', s') =
    IsOld n total old pcb' s' × (pcb' ≡ record pcb { unsent = pcb'.unsent })
IsChained data_bytes copy n total old pcb (some d, pcb', s') =
    IsOld n total old pcb' s'
    × (pcb' ≡ record pcb { unsent = pcb'.unsent })
    × IsDraft data_bytes copy n total old pcb' d s'
    × (d.queue ≡ [])
    × (d.queuelen ≤ pcb.snd_queuelen + 1)

IsOld-moved :
    {W : Type 0} (n total : ℕ) (old : List ℕ) (pcb : Pcb) (s s' : Buffers W)
    → free_segs s' ≡ free_segs s
    → IsOld n total old pcb s
    → IsOld n total old pcb s'
IsOld-moved n total old pcb s s' f o = record {
  old_ready = o.old_ready;
  old_bytes = o.old_bytes;
  old_segs = omega (arith, o.old_segs);
  old_mss = o.old_mss;
  old_lbb = o.old_lbb;
}

note-IsOld :
    {W : Type 0} (n total oversize : ℕ) (old : List ℕ) (pcb : Pcb) (s : Buffers W)
    → IsOld n total old pcb s
    → IsOld n total old (record pcb { unsent = on_last (note_oversize oversize) pcb.unsent }) s
note-IsOld n total oversize old pcb s o =
    let noted = note_oversize oversize in
    let ready =
      IsReady-same (mss_local pcb) pcb.unsent_oversize n pcb.snd_lbb noted pcb.unsent
        (λ seg c. Grows-nil seg (noted seg) c refl refl refl refl refl refl) (λ seg. refl) o.old_lbb
        o.old_ready in
    record {
      old_ready = ready.0;
      old_bytes = ready.1 ∙ o.old_bytes;
      old_segs = omega (arith, length-on_last noted pcb.unsent, o.old_segs);
      old_mss = o.old_mss;
      old_lbb = o.old_lbb;
    }

-- The draft behind phase 2, whose control block `pcb` may have a note of it already.
chained-IsDraft :
    {W : Type 0} (data_bytes : List ℕ) (copy : Bool) (n total : ℕ) (old : List ℕ) (pcb : Pcb)
    (s : Buffers W) (last : Seg) (oversize seglen room : ℕ) (p : Chain)
    → IsOld n total old pcb s
    → last_seg pcb.unsent ≡ some last
    → let used = min pcb.unsent_oversize (length data_bytes) in
      used + seglen ≤ length data_bytes
      → IsPieceIfAny copy 0 room (piece data_bytes used seglen) (some (p, oversize))
      → last.len + opt_length last.opt_mss + used + room ≤ mss_local pcb
      → IsDraft data_bytes copy n total old pcb
          (record {
            pos = used + seglen;
            oversize = oversize;
            oversize_used = used;
            concat_p = p;
            queue = [];
            queuelen = (pcb.snd_queuelen + clen p) % u16_mod;
            touched = true;
          })
          s
chained-IsDraft data_bytes copy n total old pcb s last oversize seglen room p o e l q fits =
    let spare =
      last_seg-HasRoom (mss_local pcb) pcb.unsent_oversize n pcb.snd_lbb pcb.unsent last o.old_ready
        e in
    let used = min pcb.unsent_oversize (length data_bytes) in
    let xs = piece data_bytes used seglen in
    let size : length xs ≡ seglen =
      omega (arith, length-take seglen (drop used data_bytes), length-drop used data_bytes, l) in
    let grown =
      grow-phase2 (mss_local pcb) pcb.unsent_oversize used oversize data_bytes xs last p spare
        o.old_mss (omega arith) (omega arith) q.0 (omega (arith, q.1, fits, o.old_mss)) in
    grown-IsDraft data_bytes copy n total old pcb _ s last o e refl l (λ c m. q.2 c)
      (
        subst (Grows last (grow p used data_bytes last)) (sym (take_add used seglen data_bytes))
            grown.0,
        grown.1,
      )
      (omega (arith, size, q.1, fits))

module _ {W : Type 0} (env : Env W) (sized : SizedMalloc env) (data_bytes : List ℕ) where
  chain_pbuf-IsChained :
      (copy more : Bool) (n total : ℕ) (old : List ℕ) (pcb : Pcb) (s : Buffers W) (last : Seg)
      (seglen room : ℕ) (e : Option (Chain × ℕ))
      → IsOld n total old pcb s
      → last_seg pcb.unsent ≡ some last
      → let used = min pcb.unsent_oversize (length data_bytes) in
        used + seglen ≤ length data_bytes
        → IsPieceIfAny copy 0 room (piece data_bytes used seglen) e
        → last.len + opt_length last.opt_mss + used + room ≤ mss_local pcb
        → IsChained data_bytes copy n total old pcb (
            chain_pbuf env data_bytes copy more e pcb
              (phase1 pcb (some last) (length data_bytes))
              seglen
              s)
  chain_pbuf-IsChained copy more n total old pcb s last seglen room none o e l q fits = (o, refl)
  chain_pbuf-IsChained false more n total old pcb s last seglen room (some (p, oversize)) o e l q
        fits =
      (
        o,
        refl,
        chained-IsDraft data_bytes false n total old pcb s last oversize seglen room p o e l q fits,
        refl,
        omega (arith, clen-length p, q.0.piece_count),
      )
  chain_pbuf-IsChained true more n total old pcb s last seglen room (some (p, oversize)) o e l q
        fits =
      let pcb' = record pcb { unsent = on_last (note_oversize oversize) pcb.unsent } in
      let o' = note-IsOld n total oversize old pcb s o in
      (
        o',
        refl,
        chained-IsDraft data_bytes true n total old pcb' s (note_oversize oversize last) oversize
            seglen room p o' (last_seg-on_last (note_oversize oversize) pcb.unsent last e) l q fits,
        refl,
        omega (arith, clen-length p, q.0.piece_count),
      )

  -- Phase 2 keeps the draft right, on each of its branches.
  pub phase2-IsChained :
      (copy more : Bool) (n total : ℕ) (old : List ℕ) (pcb : Pcb) (s : Buffers W)
      (last : Option Seg)
      → IsOld n total old pcb s
      → last_seg pcb.unsent ≡ last
      → IsChained data_bytes copy n total old pcb
          (phase2 env data_bytes copy more last pcb (phase1 pcb last (length data_bytes)) s)
  unfolding phase2
  phase2-IsChained copy more n total old pcb s none o e =
      (o, refl, phase1-IsDraft data_bytes copy n total old pcb s none o e, refl, omega arith)
  phase2-IsChained copy more n total old pcb s (some last) o e =
      let spare =
        last_seg-HasRoom (mss_local pcb) pcb.unsent_oversize n pcb.snd_lbb pcb.unsent last
          o.old_ready e in
      let d = phase1 pcb (some last) (length data_bytes) in
      let drafted = phase1-IsDraft data_bytes copy n total old pcb s (some last) o e in
      let room = space pcb last d.oversize_used in
      let seglen = min room (length data_bytes - d.pos) in
      let (new, s1) = phase2_pbuf env data_bytes copy more pcb d room seglen s in
      if_elim (IsChained data_bytes copy n total old pcb)
        (ltb d.pos (length data_bytes) && ltb 0 room && ltb 0 last.len)
        (chain_pbuf env data_bytes copy more new pcb d seglen s1) (some d, pcb, s)
        (λ t.
          let more_data : d.pos < length data_bytes = ground arith in
          let fits : last.len + opt_length last.opt_mss + d.pos + room ≤ mss_local pcb =
            omega (arith, o.old_mss, spare.room_fits) in
          chain_pbuf-IsChained copy more n total old pcb s1 last seglen room new
            (IsOld-moved n total old pcb s s1
              (phase2_pbuf-free_segs env data_bytes copy more pcb d room seglen s) o)
            e (omega arith)
            (phase2_pbuf-IsPiece env sized data_bytes copy more pcb d room seglen s (omega arith)
              (omega (arith, fits, o.old_mss)) (omega arith) (λ c. drafted.uncopied c more_data))
            fits)
        (λ t. (o, refl, drafted, refl, omega arith))
