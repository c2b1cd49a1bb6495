-- ===== src/Tcp/Types.antt =====
-- include/lwip/tcp.h and include/lwip/tcp_impl.h: the states, the header, the segments and the
-- protocol control block, with the constants of lwipopts.h and opt.h.
use rudp.Prelude.{ℕ, ◌+◌, ◌*◌, Bool, false, ◌||◌, List, if◌then◌else◌, ◌==◌}
use rudp.Prelude.Int.{ℤ}
use rudp.Pbuf.{Chain}

pub data TcpState : Type 0 where
  closed listen syn_sent syn_rcvd established fin_wait_1 fin_wait_2 close_wait closing last_ack
        time_wait :
      TcpState

-- The value of the enumeration.
abbrev pub state_num : TcpState → ℕ
state_num closed = 0
state_num listen = 1
state_num syn_sent = 2
state_num syn_rcvd = 3
state_num established = 4
state_num fin_wait_1 = 5
state_num fin_wait_2 = 6
state_num close_wait = 7
state_num closing = 8
state_num last_ack = 9
state_num time_wait = 10

abbrev pub is_state : TcpState → TcpState → Bool
is_state s t = state_num s == state_num t

-- The flags TCP_FIN, TCP_SYN, TCP_RST, TCP_PSH, TCP_ACK and TCP_URG of a header.
pub record HdrFlags : Type 0 where
  pub fin : Bool
  pub syn : Bool
  pub rst : Bool
  pub psh : Bool
  pub ack : Bool
  pub urg : Bool

abbrev pub no_hdr_flags : HdrFlags
no_hdr_flags = record {
  fin = false;
  syn = false;
  rst = false;
  psh = false;
  ack = false;
  urg = false;
}

pub record ConnId : Type 0 where
  pub connid1 : ℕ
  pub connid2 : ℕ

-- `struct tcp_hdr`, with its fields in host byte order.
pub record TcpHdr : Type 0 where
  pub conn_id : ConnId
  pub seqno : ℕ
  pub ackno : ℕ
  pub hdrlen : ℕ
  pub flags : HdrFlags
  pub wnd : ℕ

-- `struct tcp_seg`, without the `next` field, which the lists of segments stand for. `opt_mss` is
-- the bit TF_SEG_OPTS_MSS of its flags, the only one that is used, and `hdr_at` is where `tcphdr`
-- points to in the block of the first pbuf.
pub record Seg : Type 0 where
  pub p : Chain
  pub len : ℕ
  pub oversize_left : ℕ
  pub opt_mss : Bool
  pub hdr_at : ℕ
  pub tcphdr : TcpHdr

-- LWIP_TCP_OPT_LENGTH.
abbrev pub opt_length : Bool → ℕ
opt_length opt_mss = if opt_mss then 4 else 0

-- TCP_TCPLEN.
unfoldable pub tcplen : Seg → ℕ
tcplen s = s.len + (if s.tcphdr.flags.fin || s.tcphdr.flags.syn then 1 else 0)

-- The bits of the field `flags` of the control block.
pub record PcbFlags : Type 0 where
  pub ack_delay : Bool
  pub ack_now : Bool
  pub infr : Bool
  pub rxclosed : Bool
  pub fin : Bool
  pub nodelay : Bool
  pub nagle_mem_err : Bool

-- `struct tcp_pcb`, without the `next` field, which the lists of control blocks stand for, and
-- without `callback_arg` and the callbacks, which are parameters.
pub record Pcb : Type 0 where
  pub remote_ip : ℕ
  pub state : TcpState
  pub prio : ℕ
  pub local_port : ℕ
  pub remote_port : ℕ
  pub remote_udp_port : ℕ
  pub conn_id : ConnId
  pub flags : PcbFlags
  pub polltmr : ℕ
  pub pollinterval : ℕ
  pub last_timer : ℕ
  pub tmr : ℕ
  pub rcv_nxt : ℕ
  pub rcv_wnd : ℕ
  pub rcv_ann_wnd : ℕ
  pub rcv_ann_right_edge : ℕ
  pub rtime : ℤ
  pub mss : ℕ
  pub rttest : ℕ
  pub rtseq : ℕ
  pub sa : ℤ
  pub sv : ℤ
  pub rto : ℤ
  pub nrtx : ℕ
  pub dupacks : ℕ
  pub lastack : ℕ
  pub cwnd : ℕ
  pub ssthresh : ℕ
  pub snd_nxt : ℕ
  pub snd_wl1 : ℕ
  pub snd_wl2 : ℕ
  pub snd_lbb : ℕ
  pub snd_wnd : ℕ
  pub snd_wnd_max : ℕ
  pub acked : ℕ
  pub snd_buf : ℕ
  pub snd_queuelen : ℕ
  pub unsent_oversize : ℕ
  pub unsent : List Seg
  pub unacked : List Seg
  pub ooseq : List Seg
  pub refused_data : Chain
  pub keep_idle : ℕ
  pub persist_cnt : ℕ
  pub persist_backoff : ℕ
  pub keep_cnt_sent : ℕ

abbrev pub tcp_hlen : ℕ
tcp_hlen = 20

abbrev pub tcp_mss : ℕ
tcp_mss = 536

abbrev pub tcp_wnd : ℕ
tcp_wnd = 10 * tcp_mss

abbrev pub tcp_snd_buf : ℕ
tcp_snd_buf = 12 * tcp_mss

abbrev pub tcp_snd_queuelen : ℕ
tcp_snd_queuelen = 40

-- TCP_SNDQUEUELEN_OVERFLOW.
abbrev pub sndqueuelen_overflow : ℕ
sndqueuelen_overflow = 0xfffc

-- TCP_WND_UPDATE_THRESHOLD, the smaller of TCP_WND / 4 and 4 * TCP_MSS.
abbrev pub wnd_update_threshold : ℕ
wnd_update_threshold = 1340
