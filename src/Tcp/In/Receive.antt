-- ===== src/Tcp/In/Receive.antt =====
-- src/tcp_in.c: `tcp_receive`.
pub mod Keeps
pub mod Open
use rudp.Tcp.Out.Make.{is_empty}
use rudp.Tcp.RcvWnd.{update_rcv_ann_wnd}
use rudp.Tcp.Out.Output.{send_empty_ack}
use rudp.Pbuf.Alloc.{Buffers}
use rudp.Tcp.In.Ack.{receive_ack, Incoming}
use rudp.Pbuf.{tot_len, u16_mod, Chain}
use rudp.Tcp.In.Inseg.{
  ack, ack_now, given, mine, seq_add, set_fin, cut_inseg, trim_front, queued, seg_copy, tcplen16,
  InsegBuf,
}
use rudp.Tcp.Seq.{seq_gt, seq_sub, seq_between, seq_lt}
use rudp.Tcp.Types.{close_wait, state_num, Seg, Pcb}
use rudp.Tcp.Env.{Env}
use rudp.Tcp.In.Ooseq.{trim_last, dequeue, adjust, trim_prev, oos_insert_segment, Delivery}
use rudp.Prelude.{
  ◌%◌, ◌-◌, none, ◌&&◌, ◌==◌, ◌+◌, is_none, ltb, some, true, not, if◌then◌else◌, ◌∷◌, List, false,
  [], ℕ, Option, Bool,
}

-- What `tcp_receive` leaves: the control block, the pbufs of `inseg` and what the application gets.
pub record Received (W : Type 0) : Type 0 where
  pub pcb : Pcb
  pub inseg_p : InsegBuf
  pub delivery : Delivery
  pub s : Buffers W

abbrev pub nothing : Delivery
nothing = record { recv_data = []; got_fin = false }

-- A segment in front of the others, if there is one.
abbrev pub behind : Option Seg → List Seg → List Seg
behind none segs = segs
behind (some prev) segs = prev ∷ segs

-- Whether the segment at `seqno` belongs between `prev` and `next`.
unfoldable pub belongs : Option Seg → Seg → (seqno : ℕ) → Bool
unfolding seq_lt seq_between
belongs none next seqno = seq_lt seqno next.tcphdr.seqno
belongs (some prev) next seqno =
    seq_between seqno (seq_add prev.tcphdr.seqno 1) (seq_sub next.tcphdr.seqno 1)

-- Who has the pbufs of `inseg` once a copy is queued, or not.
abbrev pub inseg_bufs : Bool → Chain → InsegBuf
inseg_bufs true p = queued
inseg_bufs false p = mine p

module _ {W : Type 0} (env : Env W) where
  -- The copy of the segment in front of `next`, if there was memory for it.
  unfoldable pub place :
      Option Seg → (prev : Option Seg) → (next : List Seg) → Buffers W → List Seg × Bool × Buffers W
  unfolding oos_insert_segment
  place none prev next s = (behind prev next, false, s)
  place (some cseg) prev next s =
      let (segs, s1) = oos_insert_segment env cseg next s in (behind prev segs, true, s1)

  -- The same, with `prev` trimmed.
  unfoldable pub place_between :
      Option Seg → (prev : Option Seg) → (next : List Seg) → Buffers W → List Seg × Bool × Buffers W
  unfolding place trim_prev
  place_between (some cseg) (some prev) next s =
      let (prev', s1) = trim_prev env prev cseg.tcphdr.seqno s in
      place (some cseg) (some prev') next s1
  place_between cseg prev next s = place cseg prev next s

  -- The copy behind the last segment.
  unfoldable pub append : Option Seg → (last : Seg) → Pcb → Buffers W → List Seg × Bool × Buffers W
  unfolding trim_prev trim_last
  append none last pcb s = (last ∷ [], false, s)
  append (some cseg) last pcb s =
      let (last', s1) = trim_prev env last cseg.tcphdr.seqno s in
      let (cseg', s2) = trim_last env cseg pcb s1 in (last' ∷ (cseg' ∷ []), true, s2)

  -- The walk through the queue to the place of the segment `i`, from behind `prev` on: the queue
  -- from `prev` on, and whether a copy of the segment is in it.
  unfoldable pub queue_walk :
      (prev : Option Seg) → List Seg → Pcb → Seg → Buffers W → List Seg × Bool × Buffers W
  unfolding belongs place place_between append seg_copy seq_gt
  queue_walk prev [] pcb i s = (behind prev [], false, s)
  queue_walk prev (next ∷ rest) pcb i s =
      let (cseg, s1) = seg_copy env i s in
      let (segs, taken, s2) = queue_walk (some next) rest pcb i s in
      let (end, taken', s3) = append cseg next pcb s1 in
      let same : List Seg × Bool × Buffers W = (behind prev (next ∷ rest), false, s) in
      if i.tcphdr.seqno == next.tcphdr.seqno
      then (if ltb next.len i.len then place cseg prev (next ∷ rest) s1 else same)
      else if belongs prev next i.tcphdr.seqno
      then place_between cseg prev (next ∷ rest) s1
      else if is_empty rest && seq_gt i.tcphdr.seqno next.tcphdr.seqno
      then (if next.tcphdr.flags.fin then same else (behind prev end, taken', s3))
      else (behind prev segs, taken, s2)

  -- A segment that arrived out of order joins the queue.
  unfoldable pub enqueue : List Seg → Pcb → Seg → Buffers W → List Seg × Bool × Buffers W
  unfolding place seg_copy queue_walk
  enqueue [] pcb i s = let (cseg, s1) = seg_copy env i s in (behind cseg [], not (is_none cseg), s1)
  enqueue (next ∷ rest) pcb i s = queue_walk none (next ∷ rest) pcb i s

  -- The segment is trimmed to the receive window. A FIN is behind the window then.
  unfoldable pub trim_wnd : Seg → (rcv_wnd : ℕ) → Buffers W → Seg × Buffers W
  unfolding tcplen16 cut_inseg
  trim_wnd i rcv_wnd s =
      let cut = cut_inseg env (set_fin i false) rcv_wnd s in
      if ltb rcv_wnd (tcplen16 i) then cut else (i, s)

  -- The segment is the next one in sequence.
  unfoldable pub in_order : Pcb → Seg → Buffers W → Received W
  unfolding trim_wnd adjust dequeue tcplen16 update_rcv_ann_wnd
  in_order pcb i s =
      let (i1, s1) = trim_wnd i pcb.rcv_wnd s in
      let (queue, i2, s2) = adjust env pcb.ooseq i1 s1 in
      let (more, pcb1) = update_rcv_ann_wnd (record pcb {
        ooseq = queue;
        rcv_nxt = seq_add i2.tcphdr.seqno (tcplen16 i2);
        rcv_wnd = (pcb.rcv_wnd + u16_mod - tcplen16 i2) % u16_mod;
      }) in
      let first : Delivery = record {
        recv_data = if tot_len i2.p == 0 then [] else i2.p;
        got_fin = i2.tcphdr.flags.fin;
      } in
      let (pcb2, d, s3) = dequeue env queue pcb1 first s2 in
      record {
        pcb = ack pcb2;
        inseg_p = if tot_len i2.p == 0 then mine i2.p else given;
        delivery = d;
        s = s3;
      }

-- The last number of the receive window.
abbrev pub window_end : Pcb → ℕ
window_end pcb = seq_sub (seq_add pcb.rcv_nxt pcb.rcv_wnd) 1

-- What the processing of the acknowledgement reads of the segment.
abbrev pub incoming : Seg → Incoming
incoming i = record {
  seqno = i.tcphdr.seqno;
  ackno = i.tcphdr.ackno;
  tcplen = tcplen16 i;
  wnd = i.tcphdr.wnd;
}

module _ {W : Type 0} (env : Env W) (tcp_ticks : ℕ) where
  -- The segment is in the window, but not the next one in sequence.
  unfoldable pub out_of_order : Pcb → Seg → Buffers W → Received W
  unfolding send_empty_ack enqueue
  out_of_order pcb i s =
      let (err, pcb1, s1) = send_empty_ack env tcp_ticks pcb s in
      let (queue, taken, s2) = enqueue env pcb1.ooseq pcb1 i s1 in
      record {
        pcb = record pcb1 { ooseq = queue };
        inseg_p = inseg_bufs taken i.p;
        delivery = nothing;
        s = s2;
      }

  -- The segment is outside the window.
  unfoldable pub out_of_window : Pcb → Seg → Buffers W → Received W
  unfolding send_empty_ack
  out_of_window pcb i s =
      let (err, pcb1, s1) = send_empty_ack env tcp_ticks pcb s in
      record { pcb = pcb1; inseg_p = mine i.p; delivery = nothing; s = s1 }

  -- The segment, once its front is trimmed.
  unfoldable pub receive_trimmed : Pcb → Seg → Buffers W → Received W
  unfolding seq_between in_order out_of_order out_of_window
  receive_trimmed pcb i s =
      if not (seq_between i.tcphdr.seqno pcb.rcv_nxt (window_end pcb))
      then out_of_window pcb i s
      else if pcb.rcv_nxt == i.tcphdr.seqno
      then in_order env pcb i s
      else out_of_order pcb i s

  -- The part of `tcp_receive` for a segment that takes numbers of the sequence space.
  unfoldable pub receive_data : Pcb → Seg → Buffers W → Received W
  unfolding seq_between seq_lt tcplen16 trim_front receive_trimmed
  receive_data pcb i s =
      if seq_between pcb.rcv_nxt (seq_add i.tcphdr.seqno 1)
        (seq_sub (seq_add i.tcphdr.seqno (tcplen16 i)) 1)
      then receive_trimmed pcb (trim_front i pcb.rcv_nxt) s
      else if seq_lt i.tcphdr.seqno pcb.rcv_nxt
      then receive_trimmed (ack_now pcb) i s
      else receive_trimmed pcb i s

  -- The control block and the buffers once the acknowledgement is processed.
  unfoldable pub ack_part : Pcb → Seg → Buffers W → Pcb × Buffers W
  unfolding receive_ack
  ack_part pcb i s =
      if i.tcphdr.flags.ack then receive_ack env tcp_ticks pcb (incoming i) s else (pcb, s)

  -- The part of `tcp_receive` behind the acknowledgement.
  unfoldable pub data_part : Pcb → Seg → Buffers W → Received W
  unfolding receive_data seq_between tcplen16
  data_part pcb i s =
      let pcb1 =
        if seq_between i.tcphdr.seqno pcb.rcv_nxt (window_end pcb) then pcb else ack_now pcb in
      if ltb 0 (tcplen16 i) && ltb (state_num pcb.state) (state_num close_wait)
      then receive_data pcb i s
      else record { pcb = pcb1; inseg_p = mine i.p; delivery = nothing; s = s }

  -- `tcp_receive`.
  unfoldable pub receive : Pcb → Seg → Buffers W → Received W
  unfolding ack_part data_part
  receive pcb i s = let (pcb1, s1) = ack_part pcb i s in data_part pcb1 i s1
