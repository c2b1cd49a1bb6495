-- ===== src/Tcp/Out/Write/Tests.antt =====
-- A run of `tcp_write` of src/tcp_out.c: a call with a copy of data that fills all three phases.
use rudp.Pbuf.{ram}
use rudp.Pbuf.Alloc.{new_pbuf, Buffers}
use rudp.Err.{ok, Err}
use rudp.Tcp.Samples.{seg_at, busy, bufs, world}
use rudp.Tcp.Out.Draft.{mss_local}
use rudp.Tcp.Types.{tcplen, Pcb, Seg}
use rudp.Tcp.Out.Draft.Ready.{queued_bytes, IsReady}
use rudp.Tcp.Out.Write.Pieces.{SizedMalloc}
use rudp.Prelude.{
  length-replicate, ◌∙◌, none, sym, length, ap, ◌≡◌, refl, arith, false, [], true, some, ◌∷◌,
  replicate, ℕ, List, Option,
}
use rudp.Tcp.Out.Write.Written.{write-IsWritten}
use rudp.Tcp.Out.Write.Outcome.{IsWritten}
use rudp.Tcp.Out.Write.{write}

-- A segment with 10 bytes of data, behind which 4 bytes are left in its block.
abbrev roomy : Seg
roomy = record (seg_at 14) { p = new_pbuf ram (replicate 34 7) 0 30 30 ∷ [] }

abbrev writer : Pcb
writer = record busy { unsent = roomy ∷ []; unsent_oversize = 4 }

-- More than the segment may hold.
abbrev long_data : List ℕ
long_data = replicate 600 9

writer-IsReady : IsReady (mss_local writer) 4 14 24 (roomy ∷ [])
unfolding tcplen
writer-IsReady = record {
  runs = (refl, refl);
  filled = (((refl, omega arith, omega arith, tt), omega arith, omega arith), tt);
  spares = (omega arith, omega arith);
}

world-SizedMalloc : SizedMalloc world
world-SizedMalloc = record {
  malloc_size =
      λ w n b e. let same : replicate n 0 ≡ b = cc e in ap length (sym same) ∙ length-replicate n 0;
}

write-IsWritten_example :
    IsWritten long_data 14 writer bufs (write world (some long_data) true false writer bufs)
write-IsWritten_example =
    write-IsWritten world world-SizedMalloc long_data true false 14 writer bufs writer-IsReady
      (omega arith) (omega arith) (omega arith)

lens_of : List Seg → List ℕ
lens_of [] = []
lens_of (seg ∷ segs) = seg.len ∷ lens_of segs

queued_of : Option (Err × Pcb × Buffers ℕ) → Option (Err × List ℕ × ℕ)
queued_of none = none
queued_of (some (err, pcb, s)) = some (err, lens_of pcb.unsent, length (queued_bytes pcb.unsent))

-- The last segment is filled up, and a second one holds the rest.
writer_run :
    queued_of (write world (some long_data) true false writer bufs) ≡ some (ok, 536 ∷ 74 ∷ [], 610)
unfolding write queued_of lens_of
writer_run = refl
