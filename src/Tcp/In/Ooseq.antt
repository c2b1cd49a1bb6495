-- ===== src/Tcp/In/Ooseq.antt =====
-- src/tcp_in.c: the queue `ooseq` of segments that arrived out of order. What in-order data takes
-- off it, and where `tcp_receive` and `tcp_oos_insert_segment` put a segment.
pub mod Dequeue
use rudp.Tcp.Out.Make.{is_empty}
use rudp.Pbuf.Cat.{cat}
use rudp.Pbuf.Alloc.{Buffers}
use rudp.Tcp.RcvWnd.{update_rcv_ann_wnd}
use rudp.Tcp.Segs.{seg_free, segs_free}
use rudp.Prelude.{
  not, ◌%◌, false, ◌||◌, ◌&&◌, ◌∷◌, ◌-◌, [], ◌==◌, List, ◌+◌, ℕ, Bool, if◌then◌else◌,
}
use rudp.Tcp.In.Inseg.{set_fin, cut_inseg, tcplen16, cut_seg, seq_add}
use rudp.Tcp.Seq.{seq_sub, seq_gt, seq_geq}
use rudp.Tcp.Env.{Env}
use rudp.Pbuf.{u16_mod, tot_len, Chain}
use rudp.Tcp.Types.{close_wait, established, is_state, tcplen, Seg, Pcb}

-- The end of a segment's data in the sequence space.
abbrev pub data_end : Seg → ℕ
data_end seg = seq_add seg.tcphdr.seqno seg.len

-- What `tcp_receive` has found to hand to the application.
pub record Delivery : Type 0 where
  pub recv_data : Chain
  pub got_fin : Bool

-- The pbufs of a segment chained onto what is handed to the application. Nothing is chained if they
-- hold no data, and then the segment keeps them.
abbrev pub join : (recv_data p : Chain) → Chain
join recv_data p =
    if tot_len p == 0 then recv_data else if is_empty recv_data then p else cat recv_data p

abbrev pub deliver : Delivery → Seg → Delivery
deliver d seg = record {
  recv_data = join d.recv_data seg.p;
  got_fin = d.got_fin || seg.tcphdr.flags.fin;
}

-- The pbufs that the segment keeps.
abbrev pub kept_bufs : Chain → Chain
kept_bufs p = if tot_len p == 0 then p else []

-- The receiver's fields once the segment at `rcv_nxt` is dequeued.
abbrev pub advance : Pcb → Seg → Pcb
advance pcb seg = record pcb {
  rcv_nxt = seq_add pcb.rcv_nxt (tcplen seg);
  rcv_wnd = (pcb.rcv_wnd + u16_mod - tcplen seg) % u16_mod;
}

module _ {W : Type 0} (env : Env W) where
  -- The in-order segment takes over the FIN of the queued segments that it covers, and these are
  -- freed.
  unfoldable pub absorb : List Seg → Seg → Buffers W → List Seg × Seg × Buffers W
  unfolding seq_geq tcplen16 seg_free
  absorb [] i s = ([], i, s)
  absorb (next ∷ rest) i s =
      let fin = i.tcphdr.flags.fin || next.tcphdr.flags.fin && not i.tcphdr.flags.syn in
      let onward = absorb rest (set_fin i fin) (seg_free env s next) in
      if seq_geq (seq_add i.tcphdr.seqno (tcplen16 i)) (data_end next)
      then onward
      else (next ∷ rest, i, s)

  -- The right side of the in-order segment is trimmed if it overlaps with the first queued one.
  unfoldable pub trim_overlap : List Seg → Seg → Buffers W → Seg × Buffers W
  unfolding seq_gt tcplen16 cut_inseg
  trim_overlap [] i s = (i, s)
  trim_overlap (next ∷ rest) i s =
      if seq_gt (seq_add i.tcphdr.seqno (tcplen16 i)) next.tcphdr.seqno
      then cut_inseg env i (seq_sub next.tcphdr.seqno i.tcphdr.seqno % u16_mod) s
      else (i, s)

  -- The queue is adjusted to in-order data. A FIN covers all of it.
  unfoldable pub adjust : List Seg → Seg → Buffers W → List Seg × Seg × Buffers W
  unfolding segs_free absorb trim_overlap
  adjust queue i s =
      let (rest, i1, s1) = absorb queue i s in
      let (i2, s2) = trim_overlap rest i1 s1 in
      if i.tcphdr.flags.fin then ([], i, segs_free env s queue) else (rest, i2, s2)

  -- The loop that dequeues the segments that are now in sequence.
  unfoldable pub dequeue : List Seg → Pcb → Delivery → Buffers W → Pcb × Delivery × Buffers W
  unfolding tcplen update_rcv_ann_wnd cat seg_free
  dequeue [] pcb d s = (record pcb { ooseq = [] }, d, s)
  dequeue (cseg ∷ rest) pcb d s =
      let (more, pcb1) = update_rcv_ann_wnd (advance pcb cseg) in
      let pcb2 = record pcb1 {
        state =
            if cseg.tcphdr.flags.fin && is_state pcb.state established
            then close_wait
            else pcb.state;
        ooseq = rest;
      } in
      let s1 = seg_free env s (record cseg { p = kept_bufs cseg.p }) in
      let onward = dequeue rest pcb2 (deliver d cseg) s1 in
      if cseg.tcphdr.seqno == pcb.rcv_nxt
      then onward
      else (record pcb { ooseq = cseg ∷ rest }, d, s)

  -- The loop of `tcp_oos_insert_segment`: the following segments that `cseg` covers are deleted,
  -- and `cseg` is trimmed if it overlaps with the next one.
  unfoldable pub cover : Seg → List Seg → Buffers W → List Seg × Buffers W
  unfolding seq_geq seq_gt seg_free cut_seg
  cover cseg [] s = (cseg ∷ [], s)
  cover cseg (next ∷ rest) s =
      let onward =
        cover (set_fin cseg (cseg.tcphdr.flags.fin || next.tcphdr.flags.fin)) rest
          (seg_free env s next) in
      let (cut, s1) = cut_seg env cseg (seq_sub next.tcphdr.seqno cseg.tcphdr.seqno % u16_mod) s in
      if seq_geq (data_end cseg) (data_end next)
      then onward
      else if seq_gt (data_end cseg) next.tcphdr.seqno
      then (cut ∷ (next ∷ rest), s1)
      else (cseg ∷ (next ∷ rest), s)

  -- `tcp_oos_insert_segment`. A FIN overlaps all following segments.
  unfoldable pub oos_insert_segment : Seg → List Seg → Buffers W → List Seg × Buffers W
  unfolding segs_free cover
  oos_insert_segment cseg next s =
      if cseg.tcphdr.flags.fin then (cseg ∷ [], segs_free env s next) else cover cseg next s

  -- A segment that stands before `seqno`, trimmed if it reaches behind it.
  unfoldable pub trim_prev : Seg → (seqno : ℕ) → Buffers W → Seg × Buffers W
  unfolding seq_gt cut_seg
  trim_prev prev seqno s =
      let cut = cut_seg env prev (seq_sub seqno prev.tcphdr.seqno % u16_mod) s in
      if seq_gt (data_end prev) seqno then cut else (prev, s)

  -- The last segment of the queue, trimmed to the receive window. `tcplen` is that of the segment.
  unfoldable pub trim_last : Seg → Pcb → Buffers W → Seg × Buffers W
  unfolding seq_gt cut_seg tcplen16
  trim_last seg pcb s =
      let edge = seq_add pcb.rcv_nxt pcb.rcv_wnd in
      let cut = cut_seg env (set_fin seg false) (seq_sub edge seg.tcphdr.seqno % u16_mod) s in
      if seq_gt (seq_add seg.tcphdr.seqno (tcplen16 seg)) edge then cut else (seg, s)
