-- ===== src/Tcp/Samples.antt =====
-- Data for the runs of the TCP code: a connection, and a heap and an IP layer.
use rudp.Tcp.Out.Wire.{Posted, Records}
use rudp.Tcp.App.{App}
use rudp.Err.{ok}
use rudp.Pbuf.{ram}
use rudp.Prelude.Int.{pos}
use rudp.Pbuf.Alloc.{new_pbuf, Buffers}
use rudp.Tcp.In.Ack.{Incoming}
use rudp.Tcp.Env.{Env}
use rudp.Tcp.Types.{no_hdr_flags, Seg, established, PcbFlags, ConnId, Pcb}
use rudp.Prelude.{refl, ◌++◌, List, ◌+◌, replicate, ◌∷◌, some, ℕ, [], false}

abbrev pub no_pcb_flags : PcbFlags
no_pcb_flags = record {
  ack_delay = false;
  ack_now = false;
  infr = false;
  rxclosed = false;
  fin = false;
  nodelay = false;
  nagle_mem_err = false;
}

abbrev pub conn : ConnId
conn = record { connid1 = 49152; connid2 = 9529 }

-- A segment of 10 bytes.
abbrev pub seg_at : ℕ → Seg
seg_at n = record {
  p = new_pbuf ram (replicate 30 7) 0 30 30 ∷ [];
  len = 10;
  oversize_left = 0;
  opt_mss = false;
  hdr_at = 0;
  tcphdr = record {
    conn_id = conn;
    seqno = n;
    ackno = 0;
    hdrlen = 5;
    flags = no_hdr_flags;
    wnd = 0;
  };
}

-- An established connection whose sequence numbers are about to wrap: one segment is sent, and
-- two are queued.
abbrev pub busy : Pcb
busy = record {
  remote_ip = 1;
  state = established;
  prio = 64;
  local_port = 49152;
  remote_port = 80;
  remote_udp_port = 80;
  conn_id = conn;
  flags = no_pcb_flags;
  polltmr = 0;
  pollinterval = 0;
  last_timer = 0;
  tmr = 0;
  rcv_nxt = 100;
  rcv_wnd = 5360;
  rcv_ann_wnd = 5000;
  rcv_ann_right_edge = 3000;
  rtime = pos 0;
  mss = 536;
  rttest = 0;
  rtseq = 0;
  sa = pos 16;
  sv = pos 6;
  rto = pos 8;
  nrtx = 0;
  dupacks = 0;
  lastack = 4294967290;
  cwnd = 2000;
  ssthresh = 5360;
  snd_nxt = 4;
  snd_wl1 = 99;
  snd_wl2 = 4294967290;
  snd_lbb = 24;
  snd_wnd = 4000;
  snd_wnd_max = 4000;
  acked = 0;
  snd_buf = 6402;
  snd_queuelen = 3;
  unsent_oversize = 0;
  unsent = seg_at 4 ∷ seg_at 14 ∷ [];
  unacked = seg_at 4294967290 ∷ [];
  ooseq = [];
  refused_data = [];
  keep_idle = 7200000;
  persist_cnt = 0;
  persist_backoff = 0;
  keep_cnt_sent = 0;
}

-- A heap that gives out zeroed memory, and an IP layer that accepts each packet. Both count.
abbrev pub world : Env ℕ
world = record {
  mem_malloc = λ w n. (some (replicate n 0), w + 1);
  mem_free = λ w b. w;
  ip_output_if = λ w p a b. (ok, w + 1);
}

abbrev pub bufs : Buffers ℕ
bufs = record {
  memp = record {
    tcp_pcbs = [];
    tcp_pcb_listens = [];
    tcp_segs = [] ∷ [] ∷ [];
    pbufs = [];
    pbuf_pools = [];
  };
  heap = 0;
  free_ooseq_pending = false;
}

abbrev pub ack_of_first : Incoming
ack_of_first = record { seqno = 100; ackno = 4; tcplen = 0; wnd = 4000 }

-- An application that takes what it gets.
abbrev pub idle : App ℕ
idle = record {
  accept = λ pcb err s. (ok, pcb, s);
  connected = λ pcb err s. (ok, pcb, s);
  recv = λ pcb p err s. (ok, pcb, s);
  sent = λ pcb len s. (ok, pcb, s);
  poll = λ pcb s. (ok, pcb, s);
  errf = λ err s. s;
}

-- The same heap, and an IP layer that keeps a record of the packets.
abbrev pub recorded : Env (List Posted)
recorded = record {
  mem_malloc = λ w n. (some (replicate n 0), w);
  mem_free = λ w b. w;
  ip_output_if = λ w p a b. (ok, w ++ ((p, a, b) ∷ []));
}

pub recorded-Records : Records recorded (λ w. w)
recorded-Records = record {
  ip_output_if-wire = λ w p a b. refl;
  mem_malloc-wire = λ w n. refl;
  mem_free-wire = λ w b. refl;
}

abbrev pub no_packets : Buffers (List Posted)
no_packets = record { memp = bufs.memp; heap = []; free_ooseq_pending = false }
