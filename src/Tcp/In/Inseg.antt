-- ===== src/Tcp/In/Inseg.antt =====
-- src/tcp_in.c: the incoming segment `inseg`, and what `tcp_receive` cuts off it or off the queued
-- ones. The variable `seqno` has the value of its header's field `seqno` all along.
pub mod Trim
use rudp.Prelude.Int.{sub_ℕ}
use rudp.Tcp.In.Rtt.{to_s16}
use rudp.Pbuf.Release.{release}
use rudp.Tcp.Seq.{u32_mod, seq_sub}
use rudp.Pbuf.Shrink.{cut_off, realloc}
use rudp.Pbuf.Alloc.{Buffers}
use rudp.Pbuf.Header.{header}
use rudp.Pbuf.{u16_mod, tot_len, Chain}
use rudp.Prelude.{
  [], some, none, ltb, is_none, ◌-◌, Option, false, ◌%◌, true, Bool, ◌∷◌, ◌+◌, if◌then◌else◌, ℕ,
}
use rudp.Tcp.Env.{Env}
use rudp.Tcp.Types.{tcplen, Pcb, Seg}
use rudp.Memp.{tcp_seg, memp_malloc}

-- Who has `inseg.p` when `tcp_receive` returns: still `inseg`, so that `tcp_input` frees the pbufs;
-- the application, or nobody; or the copy of the segment on the queue `ooseq`. In the last case the
-- reference that `tcp_seg_copy` takes and the one of `inseg`, which `tcp_input` drops in any case,
-- are the same one here.
pub data InsegBuf : Type 0 where
  mine : Chain → InsegBuf
  given queued : InsegBuf

abbrev pub seq_add : ℕ → ℕ → ℕ
seq_add a n = (a + n) % u32_mod

-- `tcplen`, a u16_t.
unfoldable pub tcplen16 : Seg → ℕ
unfolding tcplen
tcplen16 seg = tcplen seg % u16_mod

abbrev pub set_fin : Seg → Bool → Seg
set_fin seg fin = record seg {
  tcphdr = record seg.tcphdr { flags = record seg.tcphdr.flags { fin = fin } };
}

abbrev pub ack_now : Pcb → Pcb
ack_now pcb = record pcb { flags = record pcb.flags { ack_now = true } }

-- `tcp_ack`.
abbrev pub ack : Pcb → Pcb
ack pcb =
    if pcb.flags.ack_delay
    then record pcb { flags = record pcb.flags { ack_delay = false; ack_now = true } }
    else record pcb { flags = record pcb.flags { ack_delay = true } }

-- The loop that moves over the pbufs in front of the first new byte, which are emptied, and
-- `pbuf_header` on the next one.
unfoldable pub skip_front : Chain → (off new_tot_len : ℕ) → Chain
unfolding header
skip_front [] off new_tot_len = []
skip_front (p ∷ ps) off new_tot_len =
    let onward =
      record p { tot_len = new_tot_len; len = 0 } ∷ skip_front ps (off - p.len) new_tot_len in
    if ltb p.len off then onward else (header (p ∷ ps) (to_s16 (sub_ℕ 0 off))).0

-- The front of the segment up to `rcv_nxt` is cut off.
unfoldable pub trim_front : Seg → (rcv_nxt : ℕ) → Seg
unfolding skip_front
trim_front i rcv_nxt =
    let off = seq_sub rcv_nxt i.tcphdr.seqno in
    record i {
      p = skip_front i.p off ((tot_len i.p + u16_mod - off) % u16_mod);
      len = (i.len + u16_mod - off % u16_mod) % u16_mod;
      tcphdr = record i.tcphdr { seqno = rcv_nxt };
    }

module _ {W : Type 0} (env : Env W) where
  -- `pbuf_realloc`, with what it gives back.
  unfoldable pub shrink : Chain → ℕ → Buffers W → Chain × Buffers W
  unfolding realloc cut_off release
  shrink ps n s = ((realloc ps n).0, release env.mem_free s (cut_off ps n))

  -- A segment on a queue cut down to `n` bytes.
  unfoldable pub cut_seg : Seg → ℕ → Buffers W → Seg × Buffers W
  unfolding shrink
  cut_seg seg n s = let (p, s') = shrink seg.p n s in (record seg { p = p; len = n }, s')

  -- The incoming segment cut down to `n` numbers of the sequence space, of which a SYN takes one.
  unfoldable pub cut_inseg : Seg → ℕ → Buffers W → Seg × Buffers W
  unfolding cut_seg
  cut_inseg i n s = cut_seg i (if i.tcphdr.flags.syn then (n + u16_mod - 1) % u16_mod else n) s

  -- `tcp_seg_copy`.
  unfoldable pub seg_copy : Seg → Buffers W → Option Seg × Buffers W
  unfolding memp_malloc
  seg_copy seg s =
      let (e, m) = memp_malloc s.memp tcp_seg in
      (if is_none e then none else some seg, record s { memp = m })
