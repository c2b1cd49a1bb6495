-- ===== src/Tcp/In/Listen.antt =====
-- src/tcp_in.c: `tcp_listen_input`, for a segment without a connection.
pub mod Asked
use rudp.Tcp.In.Process.{mss_after}
use rudp.Tcp.Seq.{seq_sub}
use rudp.Tcp.Conn.Open.{new_server_id}
use rudp.Tcp.In.Inseg.{seq_add, tcplen16}
use rudp.Tcp.Out.Output.{is_ok, output, rst_segment}
use rudp.Tcp.Out.Enqueue.{enqueue_flags}
use rudp.Tcp.Conn.{abandon, Listener}
use rudp.Pbuf.Alloc.{Buffers}
use rudp.Tcp.App.{App}
use rudp.Tcp.Types.{no_hdr_flags, syn_rcvd, Seg, Pcb}
use rudp.Prelude.{true, none, some, if◌then◌else◌, false, Bool, [], ◌++◌, ◌∷◌, ℕ, Option, List}
use rudp.Err.{ok, Err}
use rudp.Tcp.Options.{OptBytes, parseopt}
use rudp.Tcp.Conn.Alloc.{alloc_pcb, Pcbs}
use rudp.Tcp.Env.{Env}

-- What a segment for a listener leaves: the result, the new control block, on the list of the
-- active ones if there is one, the lists, the counters `tcp_server_id` and `iss`, and the buffers.
pub record Listened (W : Type 0) : Type 0 where
  pub err : Err
  pub npcb : Option Pcb
  pub pcbs : Pcbs
  pub server_id : ℕ
  pub iss : ℕ
  pub s : Buffers W

-- The second ids of all connections that are on a list.
abbrev pub ids_of : List Pcb → List ℕ
ids_of [] = []
ids_of (pcb ∷ pcbs) = pcb.conn_id.connid2 ∷ ids_of pcbs

abbrev pub ids_in_use : Pcbs → List ℕ
ids_in_use l = ids_of l.bound ++ (ids_of l.active ++ ids_of l.tw)

-- The new control block of a connection request from the given address.
unfoldable pub requested : Pcb → Listener → (remote_ip port server_id : ℕ) → Seg → OptBytes → Pcb
unfolding parseopt
requested npcb lpcb remote_ip port server_id i opts = record npcb {
  remote_ip = remote_ip;
  local_port = lpcb.local_port;
  remote_port = port;
  remote_udp_port = port;
  conn_id = record { connid1 = i.tcphdr.conn_id.connid1; connid2 = server_id };
  state = syn_rcvd;
  rcv_nxt = seq_add i.tcphdr.seqno 1;
  rcv_ann_right_edge = seq_add i.tcphdr.seqno 1;
  snd_wl1 = seq_sub i.tcphdr.seqno 1;
  mss = mss_after (parseopt opts i.tcphdr.hdrlen npcb.mss) npcb.mss;
  snd_wnd = i.tcphdr.wnd;
  snd_wnd_max = i.tcphdr.wnd;
  ssthresh = i.tcphdr.wnd;
}

module _ {W : Type 0} (env : Env W) (tcp_ticks : ℕ) (app : App W) (is_input : Pcb → Bool) where
  -- The SYN and the acknowledgement are sent, or the connection is abandoned.
  abbrev pub reply_syn_ack : Err × Pcb × Buffers W → Err × Option Pcb × Buffers W
  reply_syn_ack (err, npcb, s) =
      let (err1, npcb1, s1) = output env tcp_ticks false npcb s in
      if is_ok err
      then (err1, some npcb1, s1)
      else (err, none, abandon env tcp_ticks app false npcb false s)

  -- A request, once a control block is allocated, or not. An id that is found is left one behind in
  -- `tcp_server_id`, which is what is returned.
  unfoldable pub accept_request :
      Option Pcb × ℕ × Pcbs × Buffers W
      → Listener
      → (remote_ip port server_id : ℕ) → Seg
      → OptBytes
      → Option (Listened W)
  unfolding enqueue_flags output abandon new_server_id requested
  accept_request (none, iss, l, s) lpcb remote_ip port server_id i opts =
      some
        (record { err = Err.mem; npcb = none; pcbs = l; server_id = server_id; iss = iss; s = s })
  accept_request (some npcb, iss, l, s) lpcb remote_ip port server_id i opts =
      elim (new_server_id (ids_in_use l) server_id) [
        | none ↦ none
        | some id ↦
            let syn_ack = record no_hdr_flags { syn = true; ack = true } in
            let r =
              reply_syn_ack
                (enqueue_flags env (requested npcb lpcb remote_ip port id i opts) syn_ack s) in
            some (record { err = r.0; npcb = r.1; pcbs = l; server_id = id; iss = iss; s = r.2 })
      ]

  -- `tcp_listen_input`; there is no result where the search for an id does not end.
  unfoldable pub listen_input :
      Listener
      → Pcbs
      → (remote_ip port tcp_timer_ctr server_id iss : ℕ) → Seg
      → OptBytes
      → Buffers W
      → Option (Listened W)
  unfolding rst_segment tcplen16 alloc_pcb accept_request
  listen_input lpcb l remote_ip port tcp_timer_ctr server_id iss i opts s =
      let unchanged : Listened W = record {
        err = ok;
        npcb = none;
        pcbs = l;
        server_id = server_id;
        iss = iss;
        s = s;
      } in
      let reply =
        rst_segment env tcp_ticks i.tcphdr.ackno (seq_add i.tcphdr.seqno (tcplen16 i)) remote_ip
          i.tcphdr.conn_id port s in
      let accepted =
        accept_request (alloc_pcb env tcp_ticks app is_input lpcb.prio tcp_timer_ctr iss l s) lpcb
          remote_ip port server_id i opts in
      if i.tcphdr.flags.rst
      then some unchanged
      else if i.tcphdr.flags.ack
      then some (record unchanged { s = reply })
      else if i.tcphdr.flags.syn
      then accepted
      else some unchanged
