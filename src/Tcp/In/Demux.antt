-- ===== src/Tcp/In/Demux.antt =====
-- src/tcp_in.c: `tcp_input`: to which control block a segment goes, and the whole of the function.
pub mod Confined
mod Tests
use rudp.Tcp.Out.Make.{head_payload}
use rudp.Tcp.Options.{OptBytes}
use rudp.Tcp.Conn.{Listener}
use rudp.Tcp.In.Arrive.{null_read, dropped, taken, Taken, take_header}
use rudp.Tcp.In.Listen.{Listened, listen_input}
use rudp.Pbuf.{tot_len, Chain}
use rudp.Tcp.In.Process.{timewait_input}
use rudp.Pbuf.Release.{release}
use rudp.Tcp.Timers.{Left}
use rudp.Tcp.In.Input.{input_active, find_active}
use rudp.Tcp.App.{App}
use rudp.Pbuf.Alloc.{Buffers}
use rudp.Tcp.Conn.Alloc.{Pcbs}
use rudp.Prelude.{false, [], if◌then◌else◌, ◌∷◌, none, some, ◌&&◌, ◌==◌, ℕ, List, Bool, Option}
use rudp.Tcp.Types.{time_wait, is_state, Seg, TcpHdr, Pcb}
use rudp.Tcp.Env.{Env}
use mathlib.Core.Option

-- The lists of control blocks, `tcp_server_id`, `iss`, and the buffers.
pub record Stack (W : Type 0) : Type 0 where
  pub pcbs : Pcbs
  pub server_id : ℕ
  pub iss : ℕ
  pub s : Buffers W

-- Whether the segment is for a control block in TIME-WAIT: both ids are the same.
abbrev pub is_for_tw : TcpHdr → Pcb → Bool
is_for_tw tcphdr pcb =
    pcb.conn_id.connid1 == tcphdr.conn_id.connid1 && pcb.conn_id.connid2 == tcphdr.conn_id.connid2

-- The active control block is back on its list, at the front, or on that of TIME-WAIT, or freed.
abbrev pub settle : Pcbs → (others : List Pcb) → Option Pcb → Pcbs
settle l others none = record l { active = others }
settle l others (some pcb) =
    if is_state pcb.state time_wait
    then record l { active = others; tw = pcb ∷ l.tw }
    else record l { active = pcb ∷ others }

-- A new control block is the first of the active ones.
abbrev pub register : Option Pcb → Pcbs → Pcbs
register none l = l
register (some npcb) l = record l { active = npcb ∷ l.active }

-- A list behind a control block that was passed over.
abbrev pub pass_over :
    {W : Type 0} → Pcb → Option (List Pcb × Buffers W) → Option (List Pcb × Buffers W)
pass_over pcb none = none
pass_over pcb (some (pcbs, s)) = some (pcb ∷ pcbs, s)

module _ {W : Type 0} (env : Env W) (tcp_ticks tcp_timer_ctr : ℕ) (app : App W)
    (is_input : Pcb → Bool) where
  -- The search through the control blocks in TIME-WAIT, with `tcp_timewait_input` of the one that
  -- is found.
  unfoldable pub input_tw : Seg → List Pcb → Buffers W → Option (List Pcb × Buffers W)
  unfolding timewait_input
  input_tw i [] s = none
  input_tw i (pcb ∷ pcbs) s =
      let (err, pcb', s') = timewait_input env tcp_ticks app (is_input pcb) pcb i s in
      let later = pass_over pcb (input_tw i pcbs s) in
      if is_for_tw i.tcphdr pcb then some (pcb' ∷ pcbs, s') else later

  -- What an active control block leaves.
  abbrev pub after_active : Stack W → (others : List Pcb) → Left W → Stack W
  after_active st others (pcb, s) = record st { pcbs = settle st.pcbs others pcb; s = s }

  -- What a listener leaves. The packet is freed.
  abbrev pub after_listen : (p : Chain) → Listened W → Stack W
  after_listen p r = record {
    pcbs = register r.npcb r.pcbs;
    server_id = r.server_id;
    iss = r.iss;
    s = release env.mem_free r.s p;
  }

  -- A segment that is for no connection goes to the first listener. Without one it is answered by a
  -- reset, whose ids are read through a null pointer, unless it is a reset itself.
  unfoldable pub input_unmatched :
      List Listener → Stack W → (remote_ip port : ℕ) → Seg → OptBytes → Option (Stack W)
  unfolding listen_input release
  input_unmatched [] st remote_ip port i opts =
      if i.tcphdr.flags.rst then some (record st { s = release env.mem_free st.s i.p }) else none
  input_unmatched (lpcb ∷ lpcbs) st remote_ip port i opts = Option.map (after_listen i.p) (
      listen_input env tcp_ticks app is_input lpcb st.pcbs remote_ip port tcp_timer_ctr st.server_id
        st.iss i opts st.s)

  -- A segment that is for no active control block.
  unfoldable pub input_inactive :
      Option (List Pcb × Buffers W)
      → Stack W
      → (remote_ip port : ℕ) → Seg
      → OptBytes
      → Option (Stack W)
  unfolding input_unmatched release
  input_inactive none st remote_ip port i opts =
      input_unmatched st.pcbs.listeners st remote_ip port i opts
  input_inactive (some (tw, s)) st remote_ip port i opts =
      some (record st { pcbs = record st.pcbs { tw = tw }; s = release env.mem_free s i.p })

  -- The search for the control block, and what it does.
  unfoldable pub demux :
      Option (Pcb × List Pcb) → Stack W → (remote_ip port : ℕ) → Seg → OptBytes → Option (Stack W)
  unfolding input_active input_inactive input_tw
  demux none st remote_ip port i opts =
      input_inactive (input_tw i st.pcbs.tw st.s) st remote_ip port i opts
  demux (some (pcb, others)) st remote_ip port i opts =
      Option.map (after_active st others) (input_active env tcp_ticks app pcb i opts st.s)

  -- `tcp_input`, behind the check of the header.
  unfoldable pub input_taken :
      Taken → Stack W → (remote_ip port : ℕ) → Chain → TcpHdr → Option (Stack W)
  unfolding demux find_active release
  input_taken dropped st remote_ip port p tcphdr =
      some (record st { s = release env.mem_free st.s p })
  input_taken null_read st remote_ip port p tcphdr = none
  input_taken (taken p' opts) st remote_ip port p tcphdr =
      demux (find_active tcphdr st.pcbs.active) st remote_ip port
        (record {
          p = p';
          len = tot_len p';
          oversize_left = 0;
          opt_mss = false;
          hdr_at = head_payload p;
          tcphdr = tcphdr;
        })
        opts

  -- `tcp_input` of a packet with the header `tcphdr`. There is no result where it reads through a
  -- null pointer, or where the search for an id does not end.
  unfoldable pub input : Stack W → (remote_ip port : ℕ) → Chain → TcpHdr → Option (Stack W)
  unfolding input_taken take_header
  input st remote_ip port p tcphdr =
      input_taken (take_header p tcphdr.hdrlen) st remote_ip port p tcphdr
