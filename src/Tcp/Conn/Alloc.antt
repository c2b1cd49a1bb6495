-- ===== src/Tcp/Conn/Alloc.antt =====
-- src/tcp.c: `tcp_alloc`, with the connections that it kills when no control block is free, and
-- `tcp_next_iss`.
pub mod Oldest
pub mod Evicted
use rudp.Prelude.Int.{pos, negsuc}
use rudp.Tcp.Out.Make.{is_empty}
use rudp.Tcp.Seq.{u32_mod}
use rudp.Memp.{tcp_pcb, memp_malloc}
use rudp.Tcp.Conn.{put_back, age, abandon, Listener}
use rudp.Tcp.App.{App}
use rudp.Pbuf.Alloc.{Buffers}
use rudp.Tcp.Env.{Env}
use rudp.Tcp.Types.{
  tcp_snd_buf, tcp_mss, closing, tcp_wnd, last_ack, is_state, closed, TcpState, Pcb,
}
use rudp.Prelude.{
  zero, suc, ◌/◌, is_none, [], ◌&&◌, true, not, if◌then◌else◌, false, leb, some, ◌%◌, ◌∷◌, ◌+◌,
  none, Bool, List, Option, ℕ,
}

-- `tcp_listen_pcbs`, `tcp_bound_pcbs`, `tcp_active_pcbs` and `tcp_tw_pcbs`.
pub record Pcbs : Type 0 where
  pub listeners : List Listener
  pub bound : List Pcb
  pub active : List Pcb
  pub tw : List Pcb

-- `tcp_next_iss`: the new `iss`, which is returned too.
abbrev pub next_iss : (tcp_ticks iss : ℕ) → ℕ
next_iss tcp_ticks iss = (iss + tcp_ticks) % u32_mod

-- The loop of `tcp_kill_timewait` and `tcp_kill_state` over control blocks, the first one of which
-- has the index `n`: the index of the oldest one that `chosen` holds of. Of those that are equally
-- old it is the last one.
unfoldable pub oldest :
    (tcp_ticks : ℕ)
    → (chosen : Pcb → Bool) → (inactivity : ℕ) → (inactive : Option ℕ) → (n : ℕ) → List Pcb
    → Option ℕ
oldest tcp_ticks chosen inactivity inactive n [] = inactive
oldest tcp_ticks chosen inactivity inactive n (pcb ∷ pcbs) =
    let older = chosen pcb && leb inactivity (age tcp_ticks pcb) in
    oldest tcp_ticks chosen (if older then age tcp_ticks pcb else inactivity)
      (if older then some n else inactive) (n + 1) pcbs

-- The loop of `tcp_kill_prio`, which goes on with the priority of the last one it has chosen.
unfoldable pub oldest_prio :
    (tcp_ticks prio mprio inactivity : ℕ) → (inactive : Option ℕ) → (n : ℕ) → List Pcb → Option ℕ
oldest_prio tcp_ticks prio mprio inactivity inactive n [] = inactive
oldest_prio tcp_ticks prio mprio inactivity inactive n (pcb ∷ pcbs) =
    let older = leb pcb.prio prio && leb pcb.prio mprio && leb inactivity (age tcp_ticks pcb) in
    oldest_prio tcp_ticks prio (if older then pcb.prio else mprio)
      (if older then age tcp_ticks pcb else inactivity) (if older then some n else inactive) (n + 1)
      pcbs

-- The control block at an index, and the others.
abbrev pub extract : ℕ → List Pcb → Option (Pcb × List Pcb)
extract n [] = none
extract zero (pcb ∷ pcbs) = some (pcb, pcbs)
extract (suc n) (pcb ∷ pcbs) = put_back pcb (extract n pcbs)

abbrev pub extract_if : Option ℕ → List Pcb → Option (Pcb × List Pcb)
extract_if none pcbs = none
extract_if (some n) pcbs = extract n pcbs

-- The new control block: what `tcp_alloc` fills in, and zeroes.
unfoldable pub new_pcb : (prio tcp_ticks tcp_timer_ctr iss : ℕ) → Pcb
new_pcb prio tcp_ticks tcp_timer_ctr iss = record {
  remote_ip = 0;
  state = closed;
  prio = prio;
  local_port = 0;
  remote_port = 0;
  remote_udp_port = 0;
  conn_id = record { connid1 = 0; connid2 = 0 };
  flags = record {
    ack_delay = false;
    ack_now = false;
    infr = false;
    rxclosed = false;
    fin = false;
    nodelay = false;
    nagle_mem_err = false;
  };
  polltmr = 0;
  pollinterval = 0;
  last_timer = tcp_timer_ctr;
  tmr = tcp_ticks;
  rcv_nxt = 0;
  rcv_wnd = tcp_wnd;
  rcv_ann_wnd = tcp_wnd;
  rcv_ann_right_edge = 0;
  rtime = negsuc 0;
  mss = tcp_mss;
  rttest = 0;
  rtseq = 0;
  sa = pos 0;
  sv = pos (3000 / 500);
  rto = pos (3000 / 500);
  nrtx = 0;
  dupacks = 0;
  lastack = iss;
  cwnd = 1;
  ssthresh = 0;
  snd_nxt = iss;
  snd_wl1 = 0;
  snd_wl2 = iss;
  snd_lbb = iss;
  snd_wnd = 0;
  snd_wnd_max = 0;
  acked = 0;
  snd_buf = tcp_snd_buf;
  snd_queuelen = 0;
  unsent_oversize = 0;
  unsent = [];
  unacked = [];
  ooseq = [];
  refused_data = [];
  keep_idle = 7200000;
  persist_cnt = 0;
  persist_backoff = 0;
  keep_cnt_sent = 0;
}

-- TCP_PRIO_MAX.
abbrev pub prio_max : ℕ
prio_max = 127

abbrev pub any_pcb : Pcb → Bool
any_pcb pcb = true

abbrev pub in_state : TcpState → Pcb → Bool
in_state st pcb = is_state pcb.state st

-- Whether a control block is free.
abbrev pub has_free : {W : Type 0} → Buffers W → Bool
has_free s = not (is_empty s.memp.tcp_pcbs)

module _ {W : Type 0} (env : Env W) (tcp_ticks : ℕ) (app : App W) (is_input : Pcb → Bool) where
  -- A control block that was found is abandoned, and the others stay.
  unfoldable pub kill :
      Option (Pcb × List Pcb) → (reset : Bool) → List Pcb → Buffers W → List Pcb × Buffers W
  unfolding abandon
  kill none reset pcbs s = (pcbs, s)
  kill (some (pcb, others)) reset pcbs s =
      (others, abandon env tcp_ticks app (is_input pcb) pcb reset s)

  -- `tcp_kill_timewait`.
  unfoldable pub kill_timewait : Pcbs → Buffers W → Pcbs × Buffers W
  unfolding kill oldest
  kill_timewait l s =
      let (tw, s1) = kill (extract_if (oldest tcp_ticks any_pcb 0 none 0 l.tw) l.tw) true l.tw s in
      (record l { tw = tw }, s1)

  -- `tcp_kill_state`.
  unfoldable pub kill_state : TcpState → Pcbs → Buffers W → Pcbs × Buffers W
  unfolding kill oldest
  kill_state st l s =
      let (active, s1) =
        kill (extract_if (oldest tcp_ticks (in_state st) 0 none 0 l.active) l.active) false l.active
          s in
      (record l { active = active }, s1)

  -- `tcp_kill_prio`.
  unfoldable pub kill_prio : (prio : ℕ) → Pcbs → Buffers W → Pcbs × Buffers W
  unfolding kill oldest_prio
  kill_prio prio l s =
      let (active, s1) =
        kill (extract_if (oldest_prio tcp_ticks prio prio_max 0 none 0 l.active) l.active) true
          l.active s in
      (record l { active = active }, s1)

  -- The calls that `tcp_alloc` makes until a control block is free.
  unfoldable pub make_room : (prio : ℕ) → Pcbs → Buffers W → Pcbs × Buffers W
  unfolding kill_timewait kill_state kill_prio
  make_room prio l s =
      let (l1, s1) : Pcbs × Buffers W = if has_free s then (l, s) else kill_timewait l s in
      let (l2, s2) : Pcbs × Buffers W =
        if has_free s1 then (l1, s1) else kill_state last_ack l1 s1 in
      let (l3, s3) : Pcbs × Buffers W =
        if has_free s2 then (l2, s2) else kill_state closing l2 s2 in
      if has_free s3 then (l3, s3) else kill_prio prio l3 s3

  -- `tcp_alloc`: the control block, or none, and the `iss` that is left. The lists and the pool are
  -- those after a connection was killed, if one was.
  unfoldable pub alloc_pcb :
      (prio tcp_timer_ctr iss : ℕ) → Pcbs → Buffers W → Option Pcb × ℕ × Pcbs × Buffers W
  unfolding make_room memp_malloc new_pcb
  alloc_pcb prio tcp_timer_ctr iss l s =
      let (l1, s1) = make_room prio l s in
      let (e, m) = memp_malloc s1.memp tcp_pcb in
      let iss' = next_iss tcp_ticks iss in
      if is_none e
      then (none, iss, l1, s1)
      else (some (new_pcb prio tcp_ticks tcp_timer_ctr iss'), iss', l1, record s1 { memp = m })
