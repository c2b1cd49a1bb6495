-- ===== src/Tcp/In/Process/Rfc.antt =====
-- The state diagram of RFC 793, as far as an arriving segment moves along it: the specification of
-- `tcp_process` in src/tcp_in.c.
use rudp.Tcp.In.Inseg.{seq_add}
use rudp.Pbuf.{u16_mod}
use rudp.Tcp.Conn.{freed}
use rudp.Tcp.Seq.{half, seq_sub, u32_mod}
use rudp.Pbuf.Alloc.{Buffers}
use rudp.Tcp.Out.Output.{is_abrt}
use rudp.Err.{Err}
use rudp.Prelude.{
  none, some, ◌⊎◌, ◌∷◌, List, ◌≤◌, false, ◌||◌, true, ◌≡◌, if◌then◌else◌, Option, ◌<◌, Bool,
}
use rudp.Tcp.In.Process.{Processed}
use rudp.Tcp.App.{App}
use rudp.Tcp.Types.{
  time_wait, fin_wait_2, last_ack, close_wait, closing, established, fin_wait_1, syn_rcvd, is_state,
  closed, syn_sent, TcpState, Seg, Pcb,
}
use rudp.Tcp.Conn.{Home}

abbrev pub AcksFin : Pcb → Seg → Type 0
AcksFin pcb i = (i.tcphdr.flags.ack ≡ true) × (i.tcphdr.ackno ≡ pcb.snd_lbb)

-- An arrow of the diagram, for the control block `pcb` before the segment `i` arrives. `got_fin`
-- tells that the FIN of the other side has arrived in order, and `aborted` that the application
-- aborts. The FIN that was sent has the last number in front of `snd_lbb`, the next number to be
-- buffered.
pub data Arrow (pcb : Pcb) (i : Seg) (got_fin aborted : Bool) : TcpState → TcpState → Type 0 where
  rst_of_syn :
      i.tcphdr.flags.rst ≡ true
      → i.tcphdr.ackno ≡ pcb.snd_nxt
      → Arrow pcb i got_fin aborted syn_sent closed
  rst_in_window :
      {st : TcpState}
      → is_state st syn_sent ≡ false
      → i.tcphdr.flags.rst ≡ true
      → seq_sub i.tcphdr.seqno pcb.rcv_nxt ≤ pcb.rcv_wnd
      → Arrow pcb i got_fin aborted st closed
  rcv_syn_ack :
      (rseg : Seg) (rest : List Seg)
      → i.tcphdr.flags.syn ≡ true
      → i.tcphdr.flags.ack ≡ true
      → pcb.unacked ≡ rseg ∷ rest
      → i.tcphdr.ackno ≡ seq_add rseg.tcphdr.seqno 1
      → Arrow pcb i got_fin aborted syn_sent established
  rcv_ack_of_syn :
      i.tcphdr.flags.ack ≡ true
      → 0 < seq_sub i.tcphdr.ackno pcb.lastack
      → seq_sub i.tcphdr.ackno pcb.lastack ≤ seq_sub pcb.snd_nxt pcb.lastack
      → Arrow pcb i got_fin aborted syn_rcvd established
  rcv_fin : got_fin ≡ true → Arrow pcb i got_fin aborted established close_wait
  rcv_fin_closing : got_fin ≡ true → Arrow pcb i got_fin aborted fin_wait_1 closing
  rcv_fin_after_ack : got_fin ≡ true → Arrow pcb i got_fin aborted fin_wait_2 time_wait
  rcv_ack_of_fin : AcksFin pcb i → Arrow pcb i got_fin aborted fin_wait_1 fin_wait_2
  rcv_ack_closing : AcksFin pcb i → Arrow pcb i got_fin aborted closing time_wait
  rcv_ack_last : AcksFin pcb i → Arrow pcb i got_fin aborted last_ack closed
  abort : {st : TcpState} → aborted ≡ true → Arrow pcb i got_fin aborted st closed

pub data Arrows (pcb : Pcb) (i : Seg) (got_fin aborted : Bool) : TcpState → TcpState → Type 0 where
  here : {st : TcpState} → Arrows pcb i got_fin aborted st st
  along :
      {a b c : TcpState}
      → Arrow pcb i got_fin aborted a b
      → Arrows pcb i got_fin aborted b c
      → Arrows pcb i got_fin aborted a c

abbrev pub is_freed : Home → Bool
is_freed freed = true
is_freed home = false

module _ {W : Type 0} where
  -- The state in which the connection is then. A control block that is freed, or that `tcp_input`
  -- is told to free, is closed.
  abbrev pub end_state : Processed W → TcpState
  end_state r = if r.reset || r.closed || is_freed r.home then closed else r.pcb.state

  -- The result is one that the diagram allows.
  abbrev pub Allowed : Pcb → Seg → Processed W → Type 0
  Allowed pcb i r = Arrows pcb i r.delivery.got_fin (is_abrt r.err) pcb.state (end_state r)

  -- The same, where there is a result.
  abbrev pub AllowedIfAny : Pcb → Seg → Option (Processed W) → Type 0
  AllowedIfAny pcb i none = Unit {0}
  AllowedIfAny pcb i (some r) = Allowed pcb i r

  -- The application leaves the state of the connection as it is when it is told that the connection
  -- is established.
  pub record LeavesState (app : App W) : Type 0 where
    pub accept_state :
        (pcb : Pcb) (err : Err) (s : Buffers W) → (app.accept pcb err s).1.state ≡ pcb.state
    pub connected_state :
        (pcb : Pcb) (err : Err) (s : Buffers W) → (app.connected pcb err s).1.state ≡ pcb.state

-- The numbers are in the range of their types, less than 2^31 numbers are sent and not
-- acknowledged, and the SYN and the FIN of the states that wait for their acknowledgement have been
-- sent.
pub record Consistent (pcb : Pcb) (i : Seg) : Type 0 where
  pub seqno_lt : i.tcphdr.seqno < u32_mod
  pub ackno_lt : i.tcphdr.ackno < u32_mod
  pub rcv_nxt_lt : pcb.rcv_nxt < u32_mod
  pub rcv_wnd_lt : pcb.rcv_wnd < u16_mod
  pub lastack_lt : pcb.lastack < u32_mod
  pub snd_nxt_lt : pcb.snd_nxt < u32_mod
  pub outstanding : seq_sub pcb.snd_nxt pcb.lastack < half
  pub syn_out : pcb.state ≡ syn_rcvd → 0 < seq_sub pcb.snd_nxt pcb.lastack
  pub fin_out :
      (pcb.state ≡ fin_wait_1) ⊎ ((pcb.state ≡ closing) ⊎ (pcb.state ≡ last_ack))
      → pcb.snd_nxt ≡ pcb.snd_lbb
