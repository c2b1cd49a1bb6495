-- ===== src/Tcp/In/Ack.antt =====
-- src/tcp_in.c: the part of `tcp_receive` that processes the acknowledgement of an incoming
-- segment.
pub mod Accounts
pub mod Conserved
use rudp.Prelude.{
  ℕ, zero, suc, ◌+◌, ◌-◌, ◌*◌, ◌/◌, ◌%◌, ◌≤◌, ◌<◌, ◌≡◌, refl, Bool, true, false, not, ◌&&◌, ◌||◌,
  List, [], ◌∷◌, ltb, leb, min, if◌then◌else◌, ◌==◌, arith, length,
}
use rudp.Prelude.Int.{ℤ, pos, negsuc, ◌+ℤ◌, div_ℤ}
use rudp.Pbuf.{u8_mod, u16_mod}
use rudp.Pbuf.Alloc.{Buffers}
use rudp.Pbuf.Free.{clen}
use rudp.Tcp.Seq.{u32_mod, seq_sub, seq_lt, seq_leq, seq_between}
use rudp.Tcp.Types.{Pcb, Seg, TcpState, state_num, established, tcplen}
use rudp.Tcp.Env.{Env}
use rudp.Tcp.Segs.{seg_free}
use rudp.Tcp.Out.Make.{is_empty}
use rudp.Tcp.Out.Output.{send_empty_ack}
use rudp.Tcp.Out.Rexmit.{rexmit_fast}
use rudp.Tcp.In.Rtt.{to_s16, rtt_update}

-- What `tcp_receive` reads of the incoming segment: `seqno`, `ackno`, `tcplen` and the window.
pub record Incoming : Type 0 where
  pub seqno : ℕ
  pub ackno : ℕ
  pub tcplen : ℕ
  pub wnd : ℕ

-- Whether the segment's window is newer than the one that is known.
abbrev pub newer_wnd : Pcb → Incoming → Bool
newer_wnd pcb i =
    seq_lt pcb.snd_wl1 i.seqno
    || (pcb.snd_wl1 == i.seqno && seq_lt pcb.snd_wl2 i.ackno)
    || (pcb.snd_wl2 == i.ackno && ltb pcb.snd_wnd i.wnd)

-- The update of the sender's window, which starts and stops the persist timer.
unfoldable pub update_window : Pcb → Incoming → Pcb
unfolding seq_lt
update_window pcb i =
    if newer_wnd pcb i
    then record pcb {
      snd_wnd = i.wnd;
      snd_wnd_max = if ltb pcb.snd_wnd_max i.wnd then i.wnd else pcb.snd_wnd_max;
      snd_wl1 = i.seqno;
      snd_wl2 = i.ackno;
      persist_cnt = if i.wnd == 0 && pcb.persist_backoff == 0 then 0 else pcb.persist_cnt;
      persist_backoff =
          if i.wnd == 0 then (if pcb.persist_backoff == 0 then 1 else pcb.persist_backoff) else 0;
    }
    else pcb

abbrev pub is_running : ℤ → Bool
is_running (pos n) = true
is_running (negsuc n) = false

-- An addition to the congestion window that does not overflow its u16_t.
abbrev pub grow_cwnd : ℕ → ℕ → ℕ
grow_cwnd cwnd mss = if ltb cwnd ((cwnd + mss) % u16_mod) then (cwnd + mss) % u16_mod else cwnd

-- The five clauses for a duplicate acknowledgement.
abbrev pub is_dupack : Pcb → Incoming → (right_wnd_edge : ℕ) → Bool
is_dupack pcb i right_wnd_edge =
    i.tcplen == 0
    && (pcb.snd_wl2 + pcb.snd_wnd) % u32_mod == right_wnd_edge
    && is_running pcb.rtime
    && pcb.lastack == i.ackno

-- The counter of duplicate acknowledgements is a u8_t that does not wrap.
abbrev pub count_dupack : ℕ → ℕ
count_dupack dupacks = if ltb dupacks ((dupacks + 1) % u8_mod) then dupacks + 1 else dupacks

-- An acknowledgement of nothing new.
unfoldable pub old_ack : Pcb → Incoming → (right_wnd_edge : ℕ) → Pcb
unfolding rexmit_fast
old_ack pcb i right_wnd_edge =
    let counted = record pcb { acked = 0; dupacks = count_dupack pcb.dupacks } in
    if not (is_dupack pcb i right_wnd_edge)
    then record pcb { acked = 0; dupacks = 0 }
    else if ltb 3 (count_dupack pcb.dupacks)
    then record counted { cwnd = grow_cwnd pcb.cwnd pcb.mss }
    else if count_dupack pcb.dupacks == 3
    then rexmit_fast counted
    else counted

-- Slow start and congestion avoidance, from the state ESTABLISHED on.
abbrev pub open_cwnd : TcpState → (cwnd ssthresh mss : ℕ) → ℕ
open_cwnd st cwnd ssthresh mss =
    let new_cwnd = (cwnd + mss * mss / cwnd) % u16_mod in
    if ltb (state_num st) (state_num established)
    then cwnd
    else if ltb cwnd ssthresh
    then grow_cwnd cwnd mss
    else if ltb cwnd new_cwnd
    then new_cwnd
    else cwnd

-- An acknowledgement of new data, before the acknowledged segments are removed.
unfoldable pub new_ack : Pcb → Incoming → Pcb
new_ack pcb i =
    let cwnd = if pcb.flags.infr then pcb.ssthresh else pcb.cwnd in
    let acked = seq_sub i.ackno pcb.lastack % u16_mod in
    record pcb {
      flags = record pcb.flags { infr = false };
      nrtx = 0;
      rto = to_s16 (div_ℤ pcb.sa 8 +ℤ pcb.sv);
      acked = acked;
      snd_buf = (pcb.snd_buf + acked) % u16_mod;
      dupacks = 0;
      lastack = i.ackno;
      cwnd = open_cwnd pcb.state cwnd pcb.ssthresh pcb.mss;
    }

-- The end of a segment in the sequence space.
abbrev pub seg_end : Seg → ℕ
seg_end seg = (seg.tcphdr.seqno + tcplen seg) % u32_mod

-- The counters once a segment is removed from a queue. A FIN is not counted in `acked`.
abbrev pub forget : Pcb → Seg → Pcb
forget pcb seg = record pcb {
  acked = if not (pcb.acked == 0) && seg.tcphdr.flags.fin then pcb.acked - 1 else pcb.acked;
  snd_queuelen = (pcb.snd_queuelen + u16_mod - clen seg.p) % u16_mod;
}

module _ {W : Type 0} (env : Env W) (tcp_ticks : ℕ) where
  -- The loop that removes acknowledged segments from `unacked`, which are those of the block.
  unfoldable pub remove_unacked : List Seg → Pcb → (ackno : ℕ) → Buffers W → Pcb × Buffers W
  unfolding seg_free seq_leq tcplen clen
  remove_unacked [] pcb ackno s = (pcb, s)
  remove_unacked (seg ∷ rest) pcb ackno s =
      let onward =
        remove_unacked rest (record (forget pcb seg) { unacked = rest }) ackno
          (seg_free env s seg) in
      if seq_leq (seg_end seg) ackno then onward else (pcb, s)

  -- The loop over the unsent segments, which may have been sent before a retransmission.
  unfoldable pub remove_unsent : List Seg → Pcb → (ackno : ℕ) → Buffers W → Pcb × Buffers W
  unfolding seg_free seq_between tcplen clen
  remove_unsent [] pcb ackno s = (pcb, s)
  remove_unsent (seg ∷ rest) pcb ackno s =
      let removed = record (forget pcb seg) {
        unsent = rest;
        unsent_oversize = if is_empty rest then 0 else pcb.unsent_oversize;
      } in
      let onward = remove_unsent rest removed ackno (seg_free env s seg) in
      if seq_between ackno (seg_end seg) pcb.snd_nxt then onward else (pcb, s)

  -- The retransmission timer after new data was acknowledged.
  abbrev pub restart_rtime : Pcb → Pcb
  restart_rtime pcb = record pcb {
    rtime = if is_empty pcb.unacked then negsuc 0 else pos 0;
    polltmr = 0;
  }

  -- The round-trip time measurement that the acknowledgement ends.
  unfoldable pub estimate_rtt : Pcb → (ackno : ℕ) → Pcb
  unfolding seq_lt rtt_update
  estimate_rtt pcb ackno =
      let m = to_s16 (pos (seq_sub tcp_ticks pcb.rttest)) in
      let (sa, sv, rto) = rtt_update m pcb.sa pcb.sv in
      if not (pcb.rttest == 0) && seq_lt pcb.rtseq ackno
      then record pcb { sa = sa; sv = sv; rto = rto; rttest = 0 }
      else pcb

  -- The three cases of the acknowledgement number.
  unfoldable pub ack_cases : Pcb → Incoming → (right_wnd_edge : ℕ) → Buffers W → Pcb × Buffers W
  unfolding seq_leq seq_between old_ack new_ack remove_unacked send_empty_ack
  ack_cases pcb i right_wnd_edge s =
      let (acked, s1) = remove_unacked pcb.unacked (new_ack pcb i) i.ackno s in
      let (err, pcb2, s2) = send_empty_ack env tcp_ticks (record pcb { acked = 0 }) s in
      if seq_leq i.ackno pcb.lastack
      then (old_ack pcb i right_wnd_edge, s)
      else if seq_between i.ackno ((pcb.lastack + 1) % u32_mod) pcb.snd_nxt
      then (restart_rtime acked, s1)
      else (pcb2, s2)

  -- The first part of `tcp_receive`, for a segment with the flag ACK.
  unfoldable pub receive_ack : Pcb → Incoming → Buffers W → Pcb × Buffers W
  unfolding update_window ack_cases remove_unsent estimate_rtt
  receive_ack pcb i s =
      let right_wnd_edge = (pcb.snd_wnd + pcb.snd_wl2) % u32_mod in
      let (pcb1, s1) = ack_cases (update_window pcb i) i right_wnd_edge s in
      let (pcb2, s2) = remove_unsent pcb1.unsent pcb1 i.ackno s1 in (estimate_rtt pcb2 i.ackno, s2)
