-- ===== src/Tcp/Out/Enqueue.antt =====
-- src/tcp_out.c: `tcp_enqueue_flags` and `tcp_send_fin`, which put a SYN or a FIN on the queue, and
-- `tcp_write_checks`.
use rudp.Err.{Err, ok, mem, conn}
use rudp.Prelude.{
  ℕ, ◌+◌, ◌-◌, ◌%◌, Bool, true, not, ◌&&◌, ◌||◌, List, [], ◌∷◌, ◌++◌, Option, none, some, ltb, leb,
  if◌then◌else◌, ◌==◌,
}
use rudp.Pbuf.{Chain, transport, ram, u16_mod}
use rudp.Pbuf.Alloc.{Buffers, alloc}
use rudp.Pbuf.Free.{clen}
use rudp.Tcp.Seq.{u32_mod}
use rudp.Tcp.Types.{
  Pcb, Seg, TcpState, is_state, established, close_wait, syn_sent, syn_rcvd, HdrFlags, no_hdr_flags,
  opt_length, tcp_snd_queuelen, sndqueuelen_overflow,
}
use rudp.Tcp.Env.{Env}
use rudp.Tcp.Out.Make.{create_segment}

-- The flag TF_NAGLEMEMERR.
abbrev pub set_nagle_mem_err : Pcb → Pcb
set_nagle_mem_err pcb = record pcb { flags = record pcb.flags { nagle_mem_err = true } }

-- Whether no more pbufs may be queued.
abbrev pub queue_full : ℕ → Bool
queue_full queuelen = leb tcp_snd_queuelen queuelen || ltb sndqueuelen_overflow queuelen

abbrev pub may_write : TcpState → Bool
may_write st =
    is_state st established
    || is_state st close_wait
    || is_state st syn_sent
    || is_state st syn_rcvd

-- `tcp_write_checks` for `len` bytes.
unfoldable pub write_checks : Pcb → (len : ℕ) → Err × Pcb
write_checks pcb len =
    if not (may_write pcb.state)
    then (conn, pcb)
    else if len == 0
    then (ok, pcb)
    else if ltb pcb.snd_buf len
    then (mem, set_nagle_mem_err pcb)
    else if queue_full pcb.snd_queuelen
    then (mem, set_nagle_mem_err pcb)
    else (ok, pcb)

-- A segment that is added to the end of the unsent queue, with what it takes of the send buffer.
abbrev pub push_flags : Pcb → HdrFlags → Seg → Pcb
push_flags pcb flags seg = record pcb {
  unsent = pcb.unsent ++ (seg ∷ []);
  unsent_oversize = 0;
  snd_lbb = if flags.fin || flags.syn then (pcb.snd_lbb + 1) % u32_mod else pcb.snd_lbb;
  snd_buf = if flags.fin || flags.syn then pcb.snd_buf - 1 else pcb.snd_buf;
  flags = record pcb.flags { fin = pcb.flags.fin || flags.fin };
  snd_queuelen = (pcb.snd_queuelen + clen seg.p) % u16_mod;
}

-- The end of `tcp_enqueue_flags`, with the segment if there was memory for it.
abbrev pub push_result : Pcb → HdrFlags → Option Seg → Err × Pcb
push_result pcb flags none = (mem, set_nagle_mem_err pcb)
push_result pcb flags (some seg) = (ok, push_flags pcb flags seg)

module _ {W : Type 0} (env : Env W) where
  -- The part of `tcp_enqueue_flags` behind the allocation of a pbuf.
  unfoldable pub enqueue_in : Option Chain → Pcb → HdrFlags → Buffers W → Err × Pcb × Buffers W
  unfolding create_segment clen
  enqueue_in none pcb flags s = (mem, set_nagle_mem_err pcb, s)
  enqueue_in (some p) pcb flags s =
      let (seg, s') = create_segment env pcb p flags pcb.snd_lbb flags.syn s in
      let (err, pcb') = push_result pcb flags seg in (err, pcb', s')

  -- `tcp_enqueue_flags`.
  unfoldable pub enqueue_flags : Pcb → HdrFlags → Buffers W → Err × Pcb × Buffers W
  unfolding alloc enqueue_in
  enqueue_flags pcb flags s =
      let (e, s') = alloc env.mem_malloc s transport (opt_length flags.syn) ram in
      let after = enqueue_in e pcb flags s' in
      if queue_full pcb.snd_queuelen && not flags.fin
      then (mem, set_nagle_mem_err pcb, s)
      else if pcb.snd_buf == 0
      then (mem, pcb, s)
      else after

-- The FIN flag on the last segment, if that has no SYN, FIN or RST; none if there is no such
-- segment.
unfoldable pub fin_last : List Seg → Option (List Seg)
fin_last [] = none
fin_last (seg ∷ []) =
    let f = seg.tcphdr.flags in
    if f.syn || f.fin || f.rst
    then none
    else some (record seg { tcphdr = record seg.tcphdr { flags = record f { fin = true } } } ∷ [])
fin_last (seg ∷ (next ∷ segs)) = elim (fin_last (next ∷ segs)) [
  | none ↦ none
  | some segs' ↦ some (seg ∷ segs')
]

module _ {W : Type 0} (env : Env W) where
  -- `tcp_send_fin`.
  unfoldable pub send_fin : Pcb → Buffers W → Err × Pcb × Buffers W
  unfolding fin_last enqueue_flags
  send_fin pcb s = elim (fin_last pcb.unsent) [
    | some segs ↦ (ok, record pcb { unsent = segs; flags = record pcb.flags { fin = true } }, s)
    | none ↦ enqueue_flags env pcb (record no_hdr_flags { fin = true }) s
  ]
