-- ===== src/Tcp/Out/Write.antt =====
-- src/tcp_out.c: `tcp_write`: its second and third phase, and the whole. The bytes of its argument
-- are given as a list, and their number is the argument `len`.
pub mod Pieces
pub mod Segment
pub mod Pool
pub mod Grown
pub mod Drafted
pub mod Chained
pub mod Rounds
pub mod Outcome
pub mod Written
mod Tests
use rudp.Tcp.Seq.{u32_mod}
use rudp.Tcp.Out.Output.{is_ok}
use rudp.Tcp.Segs.{segs_free}
use rudp.Pbuf.Alloc.{Buffers, alloc}
use rudp.Pbuf.Release.{release}
use rudp.Pbuf.{u16_mod, rom, ram, transport, raw, Chain}
use rudp.Pbuf.Free.{clen}
use rudp.Pbuf.Cat.{cat}
use rudp.Tcp.Out.Draft.{
  note_oversize, point_to, on_last, piece, fill, mss_local, space, phase1, last_seg, commit, Draft,
}
use rudp.Tcp.Out.Make.{is_empty, create_segment, pbuf_prealloc}
use rudp.Tcp.Types.{sndqueuelen_overflow, no_hdr_flags, tcp_snd_queuelen, Pcb, Seg}
use rudp.Prelude.{
  zero, suc, ◌||◌, ◌&&◌, ◌∷◌, ltb, false, ◌%◌, ◌++◌, if◌then◌else◌, ◌-◌, [], ◌+◌, true, length,
  some, min, none, Bool, ℕ, List, Option,
}
use rudp.Tcp.Env.{Env}
use rudp.Tcp.Out.Enqueue.{set_nagle_mem_err, write_checks}
use rudp.Err.{Err, ok, mem, arg}

module _ {W : Type 0} (env : Env W) (data_bytes : List ℕ) (copy more : Bool) where
  -- The new pbuf of phase 2 for `seglen` bytes, and the bytes to spare at its end.
  unfoldable pub phase2_pbuf :
      Pcb → Draft → (room seglen : ℕ) → Buffers W → Option (Chain × ℕ) × Buffers W
  unfolding pbuf_prealloc alloc
  phase2_pbuf pcb d room seglen s =
      let (e, s1) = pbuf_prealloc env raw seglen room pcb more true s in
      let (e', s1') = alloc env.mem_malloc s raw seglen rom in
      if copy
      then (fill e (piece data_bytes d.pos seglen), s1)
      else (point_to e' data_bytes d.pos d.oversize, s1')

  -- Phase 2, once its pbuf is allocated, or not.
  abbrev pub chain_pbuf :
      Option (Chain × ℕ) → Pcb → Draft → (seglen : ℕ) → Buffers W → Option Draft × Pcb × Buffers W
  chain_pbuf none pcb d seglen s = (none, pcb, s)
  chain_pbuf (some (p, oversize)) pcb d seglen s = (
    some (record d {
      pos = d.pos + seglen;
      oversize = oversize;
      concat_p = p;
      queuelen = (d.queuelen + clen p) % u16_mod;
      touched = true;
    }),
    if copy then record pcb { unsent = on_last (note_oversize oversize) pcb.unsent } else pcb,
    s,
  )

  -- Phase 2. The result has no draft when memory runs out.
  unfoldable pub phase2 : Option Seg → Pcb → Draft → Buffers W → Option Draft × Pcb × Buffers W
  unfolding phase2_pbuf clen
  phase2 none pcb d s = (some d, pcb, s)
  phase2 (some last) pcb d s =
      let room = space pcb last d.oversize_used in
      let seglen = min room (length data_bytes - d.pos) in
      let (e, s1) = phase2_pbuf pcb d room seglen s in
      if ltb d.pos (length data_bytes) && ltb 0 room && ltb 0 last.len
      then chain_pbuf e pcb d seglen s1
      else (some d, pcb, s)

  -- The pbuf of the headers in front of the data, or the end of both.
  unfoldable pub join_header :
      Option Chain → (p2 : Chain) → (oversize : ℕ) → Buffers W → Option (Chain × ℕ) × Buffers W
  unfolding cat release
  join_header none p2 oversize s = (none, release env.mem_free s p2)
  join_header (some p) p2 oversize s = (some (cat p p2, oversize), s)

  -- The pbufs of phase 3 without a copy, once the one for the data is allocated, or not.
  unfoldable pub add_header : Option (Chain × ℕ) → Buffers W → Option (Chain × ℕ) × Buffers W
  unfolding alloc join_header
  add_header none s = (none, s)
  add_header (some (p2, oversize)) s =
      let (e, s1) = alloc env.mem_malloc s transport 0 ram in join_header e p2 oversize s1

  -- The pbufs of phase 3 for `seglen` bytes, and the bytes to spare at their end.
  unfoldable pub phase3_pbufs :
      Pcb → Draft → (seglen : ℕ) → Buffers W → Option (Chain × ℕ) × Buffers W
  unfolding pbuf_prealloc alloc add_header
  phase3_pbufs pcb d seglen s =
      let (e, s1) =
        pbuf_prealloc env transport seglen (mss_local pcb) pcb more (is_empty d.queue) s in
      let (e', s1') = alloc env.mem_malloc s transport seglen rom in
      if copy
      then (fill e (piece data_bytes d.pos seglen), s1)
      else add_header (point_to e' data_bytes d.pos d.oversize) s1'

  -- The segment at the end of the new ones, if there was memory for it.
  abbrev pub add_seg : Option Seg → Draft → (seglen oversize queuelen : ℕ) → Option Draft
  add_seg none d seglen oversize queuelen = none
  add_seg (some seg) d seglen oversize queuelen = some (record d {
    pos = d.pos + seglen;
    oversize = oversize;
    queue = d.queue ++ (record seg { oversize_left = oversize } ∷ []);
    queuelen = queuelen;
  })

  -- A round of phase 3 behind the allocation of the pbufs.
  unfoldable pub queue_pbufs :
      Option (Chain × ℕ) → Pcb → Draft → (seglen : ℕ) → Buffers W → Option Draft × Buffers W
  unfolding clen release create_segment
  queue_pbufs none pcb d seglen s = (none, s)
  queue_pbufs (some (p, oversize)) pcb d seglen s =
      let queuelen = (d.queuelen + clen p) % u16_mod in
      let seqno = (pcb.snd_lbb + d.pos) % u32_mod in
      let (seg, s1) = create_segment env pcb p no_hdr_flags seqno false s in
      if ltb tcp_snd_queuelen queuelen || ltb sndqueuelen_overflow queuelen
      then (none, release env.mem_free s p)
      else (add_seg seg d seglen oversize queuelen, s1)

  -- A round of phase 3.
  unfoldable pub round3 : Pcb → Draft → Buffers W → Option Draft × Buffers W
  unfolding phase3_pbufs queue_pbufs
  round3 pcb d s =
      let seglen = min (mss_local pcb) (length data_bytes - d.pos) in
      let (e, s1) = phase3_pbufs pcb d seglen s in queue_pbufs e pcb d seglen s1

  -- Phase 3: the draft, whether all data was queued, and the buffers; none if there are more
  -- rounds.
  unfoldable pub phase3 : ℕ → Pcb → Draft → Buffers W → Option (Draft × Bool × Buffers W)
  unfolding round3
  phase3 zero pcb d s = none
  phase3 (suc f) pcb d s =
      let (e, s1) = round3 pcb d s in
      let next : Option (Draft × Bool × Buffers W) = elim e [
        | none ↦ some (d, false, s1)
        | some d' ↦ phase3 f pcb d' s1
      ] in
      if ltb d.pos (length data_bytes) then next else some (d, true, s)

  -- The label `memerr`.
  unfoldable pub memerr :
      Pcb → (concat_p : Chain) → (queue : List Seg) → Buffers W → Err × Pcb × Buffers W
  unfolding release segs_free
  memerr pcb concat_p queue s =
      (mem, set_nagle_mem_err pcb, segs_free env (release env.mem_free s concat_p) queue)

  -- What follows phase 3.
  abbrev pub after_phase3 : Pcb → Option (Draft × Bool × Buffers W) → Option (Err × Pcb × Buffers W)
  after_phase3 pcb none = none
  after_phase3 pcb (some (d, true, s)) = some (ok, commit d pcb data_bytes more, s)
  after_phase3 pcb (some (d, false, s)) = some (memerr pcb d.concat_p d.queue s)

  -- What follows phase 2. The number of rounds of phase 3 is not greater than that of the pbufs
  -- that may be queued, and two.
  abbrev pub after_phase2 : Option Draft × Pcb × Buffers W → Option (Err × Pcb × Buffers W)
  after_phase2 (none, pcb, s) = some (memerr pcb [] [] s)
  after_phase2 (some d, pcb, s) = after_phase3 pcb (phase3 (tcp_snd_queuelen + 2) pcb d s)

  -- The phases of `tcp_write`.
  unfoldable pub write_phases : Pcb → Buffers W → Option (Err × Pcb × Buffers W)
  unfolding phase2 phase3 memerr commit
  write_phases pcb s =
      let last = last_seg pcb.unsent in
      after_phase2 (phase2 last pcb (phase1 pcb last (length data_bytes)) s)

-- `tcp_write`, whose argument may be a null pointer.
unfoldable pub write :
    {W : Type 0}
    → Env W
    → Option (List ℕ)
    → (copy more : Bool) → Pcb
    → Buffers W
    → Option (Err × Pcb × Buffers W)
unfolding write_checks write_phases
write env none copy more pcb s = some (arg, pcb, s)
write env (some data_bytes) copy more pcb s =
    let (err, pcb') = write_checks pcb (length data_bytes) in
    let rest = write_phases env data_bytes copy more pcb' s in
    if is_ok err then rest else some (err, pcb', s)
