-- ===== src/Tcp/In/Input.antt =====
-- src/tcp_in.c: `tcp_input` for a segment that belongs to the active control block `pcb`, behind
-- the search for that block; and that search.
pub mod Find
use rudp.Tcp.Options.{OptBytes}
use rudp.Tcp.Out.Make.{is_empty}
use rudp.Tcp.Conn.{put_back, age, abandon, free_pcb, pcb_remove}
use rudp.Err.{clsd, ok, rst, Err}
use rudp.Tcp.In.Process.{Processed, process}
use rudp.Pbuf.Release.{release}
use rudp.Tcp.Out.Output.{is_ok, is_abrt, output}
use rudp.Tcp.App.{App}
use rudp.Pbuf.Alloc.{Buffers}
use rudp.Prelude.{
  not, ◌||◌, ltb, [], false, true, none, if◌then◌else◌, ◌&&◌, ◌==◌, ◌∷◌, Option, List, Bool, some,
  ℕ,
}
use rudp.Pbuf.{Chain}
use rudp.Tcp.In.Inseg.{given, queued, mine, tcplen16, InsegBuf}
use rudp.Tcp.Timers.{report_closed, process_refused_data, Left}
use rudp.Tcp.Types.{syn_sent, Seg, is_state, Pcb, TcpHdr}
use rudp.Tcp.Env.{Env}

-- The control block as the steps of `tcp_input` pass it on, or the end of them, by a jump to the
-- label `aborted`: with the control block, or with none if it was freed.
pub data Flow (W : Type 0) : Type 0 where
  go_on : Pcb → Buffers W → Flow W
  ended : Option Pcb → Buffers W → Flow W

infixl 5 ◌>>=◌
abbrev pub ◌>>=◌ : {W : Type 0} → Flow W → (Pcb → Buffers W → Flow W) → Flow W
go_on pcb s >>= f = f pcb s
ended pcb s >>= f = ended pcb s

abbrev pub flow_end : {W : Type 0} → Flow W → Left W
flow_end (go_on pcb s) = (some pcb, s)
flow_end (ended pcb s) = (pcb, s)

-- The flag PBUF_FLAG_PUSH, or PBUF_FLAG_TCP_FIN, on the first pbuf.
abbrev pub mark_push : Chain → Chain
mark_push [] = []
mark_push (p ∷ ps) = record p { flags = record p.flags { push = true } } ∷ ps

abbrev pub mark_fin : Chain → Chain
mark_fin [] = []
mark_fin (p ∷ ps) = record p { flags = record p.flags { tcp_fin = true } } ∷ ps

-- What `inseg` still has is freed at the end.
abbrev pub still_mine : InsegBuf → Chain
still_mine (mine p) = p
still_mine given = []
still_mine queued = []

-- Whether the segment belongs to a control block: its first id is the same, and the second one too,
-- unless that is not known yet.
unfoldable pub is_for : TcpHdr → Pcb → Bool
is_for tcphdr pcb =
    pcb.conn_id.connid1 == tcphdr.conn_id.connid1
    && (is_state pcb.state syn_sent || pcb.conn_id.connid2 == tcphdr.conn_id.connid2)

-- The search through the active control blocks: the one that is found, which becomes the first on
-- the list, and the others.
unfoldable pub find_active : TcpHdr → List Pcb → Option (Pcb × List Pcb)
unfolding is_for
find_active tcphdr [] = none
find_active tcphdr (pcb ∷ pcbs) =
    let later = put_back pcb (find_active tcphdr pcbs) in
    if is_for tcphdr pcb then some (pcb, pcbs) else later

module _ {W : Type 0} (env : Env W) (tcp_ticks : ℕ) (app : App W) where
  -- What follows a callback whose result is not looked at but for ABRT.
  abbrev pub unless_aborted : Err × Pcb × Buffers W → Flow W
  unless_aborted (err, pcb, s) = if is_abrt err then ended none s else go_on pcb s

  -- The sent callback, when new space in the send buffer is free.
  unfoldable pub report_sent : Pcb → Buffers W → Flow W
  report_sent pcb s =
      if ltb 0 pcb.acked then unless_aborted (app.sent pcb pcb.acked s) else go_on pcb s

  -- The connection is closed on both sides, and its control block is freed.
  unfoldable pub free_closed : (closed : Bool) → Pcb → Buffers W → Flow W
  unfolding pcb_remove free_pcb
  free_closed false pcb s = go_on pcb s
  free_closed true pcb s =
      let s1 = if pcb.flags.rxclosed then s else app.errf clsd s in
      ended none (free_pcb env tcp_ticks (pcb_remove env tcp_ticks true pcb s1).1)

  -- What follows the recv callback. Data that is refused is stored.
  abbrev pub after_recv : Chain → Err × Pcb × Buffers W → Flow W
  after_recv recv_data (err, pcb, s) =
      if is_abrt err
      then ended none s
      else if is_ok err
      then go_on pcb s
      else go_on (record pcb { refused_data = recv_data }) s

  -- The data is handed to the application. If that has closed the connection, it is aborted.
  unfoldable pub hand_over : Chain → Pcb → Buffers W → Flow W
  unfolding release abandon
  hand_over [] pcb s = go_on pcb s
  hand_over (p ∷ ps) pcb s =
      let s1 = release env.mem_free s (p ∷ ps) in
      if pcb.flags.rxclosed
      then ended none (abandon env tcp_ticks app true pcb true s1)
      else after_recv (p ∷ ps) (app.recv pcb (p ∷ ps) ok s)

  -- The end of the data is told to the application, or noted if data is refused.
  unfoldable pub hand_over_fin : (got_fin : Bool) → Pcb → Buffers W → Flow W
  unfolding report_closed
  hand_over_fin false pcb s = go_on pcb s
  hand_over_fin true pcb s =
      if is_empty pcb.refused_data
      then unless_aborted (report_closed env tcp_ticks app pcb s)
      else go_on (record pcb { refused_data = mark_fin pcb.refused_data }) s

  -- `tcp_output`, once `tcp_input_pcb` is reset.
  unfoldable pub output_after : Pcb → Buffers W → Flow W
  unfolding output
  output_after pcb s = let (err, pcb1, s1) = output env tcp_ticks false pcb s in go_on pcb1 s1

  -- The part of `tcp_input` behind `tcp_process`.
  unfoldable pub after_process : Processed W → Flow W
  after_process r =
      let was_reset =
        ended none
          (free_pcb env tcp_ticks (pcb_remove env tcp_ticks true r.pcb (app.errf rst r.s)).1) in
      let rest =
        report_sent r.pcb r.s
        >>= free_closed r.closed
        >>= hand_over r.delivery.recv_data
        >>= hand_over_fin r.delivery.got_fin
        >>= output_after in
      if is_abrt r.err then ended none r.s else if r.reset then was_reset else rest

  -- The end of `tcp_input`: what `inseg` still has is freed.
  abbrev pub drop_inseg : Chain → Left W → Left W
  drop_inseg p (pcb, s) = (pcb, release env.mem_free s p)

  -- `tcp_process`, with what follows it.
  unfoldable pub input_processed : Option (Processed W) → Option (Left W)
  unfolding after_process release
  input_processed none = none
  input_processed (some r) = some (drop_inseg (still_mine r.inseg_p) (flow_end (after_process r)))

  -- What follows the attempt to hand over data that was refused. The segment is dropped if that is
  -- refused again and the segment has data.
  unfoldable pub input_unrefused : Err × Pcb × Buffers W → Seg → OptBytes → Option (Left W)
  unfolding input_processed process tcplen16 release
  input_unrefused (err, pcb, s) i opts =
      if is_abrt err
      then some (drop_inseg i.p (none, s))
      else if not (is_empty pcb.refused_data) && ltb 0 (tcplen16 i)
      then some (drop_inseg i.p (some pcb, s))
      else input_processed (process env tcp_ticks app pcb i opts s)

  -- `tcp_input` of a segment for `pcb`, without a result where it reads through a null pointer.
  unfoldable pub input_active : Pcb → Seg → OptBytes → Buffers W → Option (Left W)
  unfolding input_unrefused process_refused_data
  input_active pcb i opts s =
      let i1 = if i.tcphdr.flags.psh then record i { p = mark_push i.p } else i in
      let retried : Err × Pcb × Buffers W =
        if is_empty pcb.refused_data
        then (ok, pcb, s)
        else process_refused_data env tcp_ticks app pcb s in
      input_unrefused retried i1 opts
