-- ===== src/Tcp/In/Ack/Accounts.antt =====
-- That the acknowledgement processing of src/tcp_in.c keeps the accounts: the send buffer, and the
-- segments on the queues and in the pool.
use rudp.Prelude.{
  ℕ, ◌+◌, ◌%◌, ◌≤◌, ◌<◌, ◌≡◌, refl, true, false, not, ◌&&◌, ◌||◌, List, [], ◌∷◌, ltb, if◌then◌else◌,
  ◌==◌, arith, Bool-cases, inl, inr, Option, none, some,
}
use rudp.Pbuf.{u16_mod, Chain, ip, ram}
use rudp.Pbuf.Alloc.{Buffers, alloc}
use rudp.Tcp.Seq.{u32_mod, seq_sub, seq_lt, seq_leq, seq_between, seq_geq}
use rudp.Tcp.Types.{Pcb, Seg, TcpHdr, tcp_hlen}
use rudp.Tcp.Env.{Env}
use rudp.Tcp.Segs.{seg_free}
use rudp.Tcp.Out.Make.{is_empty, header_packet, output_alloc_header}
use rudp.Tcp.Out.Output.{send_empty_ack, finish_ack}
use rudp.Tcp.Out.Rexmit.{rexmit_fast, rexmit, requeue_first}
use rudp.Tcp.In.Ack.{
  Incoming, update_window, old_ack, new_ack, remove_unacked, remove_unsent, restart_rtime,
  estimate_rtt, ack_cases, receive_ack, forget, seg_end, newer_wnd, is_dupack, count_dupack,
}

-- The fields that the account of the send buffer reads are the same.
abbrev SameAccount : Pcb → Pcb → Type 0
SameAccount a b =
    (a.snd_buf ≡ b.snd_buf)
    × (a.snd_lbb ≡ b.snd_lbb)
    × (a.lastack ≡ b.lastack)
    × (a.snd_nxt ≡ b.snd_nxt)

-- The account of the send buffer: the free bytes and those between the last acknowledged number and
-- the next one to be buffered are `total` together; and what is sent was buffered before.
pub record Balanced (total : ℕ) (pcb : Pcb) : Type 0 where
  pub buffer : pcb.snd_buf + seq_sub pcb.snd_lbb pcb.lastack ≡ total
  pub total_lt : total < u16_mod
  pub sent : seq_sub pcb.snd_nxt pcb.lastack ≤ seq_sub pcb.snd_lbb pcb.lastack
  pub lastack_lt : pcb.lastack < u32_mod
  pub snd_lbb_lt : pcb.snd_lbb < u32_mod
  pub snd_nxt_lt : pcb.snd_nxt < u32_mod

Balanced-same : (total : ℕ) (a b : Pcb) → SameAccount a b → Balanced total b → Balanced total a
Balanced-same total a b (e, f, g, h) r = record {
  buffer = omega (arith, r.buffer);
  total_lt = r.total_lt;
  sent = omega (arith, r.sent);
  lastack_lt = omega (arith, r.lastack_lt);
  snd_lbb_lt = omega (arith, r.snd_lbb_lt);
  snd_nxt_lt = omega (arith, r.snd_nxt_lt);
}

Balanced-new_ack :
    (total : ℕ) (pcb : Pcb) (i : Incoming)
    → Balanced total pcb
    → i.ackno < u32_mod
    → seq_between i.ackno ((pcb.lastack + 1) % u32_mod) pcb.snd_nxt ≡ true
    → seq_leq i.ackno pcb.lastack ≡ false
    → Balanced total (new_ack pcb i)
unfolding new_ack seq_between seq_geq seq_leq
Balanced-new_ack total pcb i r h b l =
    let d = seq_sub i.ackno pcb.lastack in
    let fact : d ≤ seq_sub pcb.snd_nxt pcb.lastack =
      ground (arith, r.buffer, r.total_lt, r.sent, r.lastack_lt, r.snd_lbb_lt, r.snd_nxt_lt) in
    record {
      buffer =
          omega
            (arith, fact, r.buffer, r.total_lt, r.sent, r.lastack_lt, r.snd_lbb_lt, r.snd_nxt_lt);
      total_lt = r.total_lt;
      sent =
          omega
            (arith, fact, r.buffer, r.total_lt, r.sent, r.lastack_lt, r.snd_lbb_lt, r.snd_nxt_lt);
      lastack_lt = h;
      snd_lbb_lt = r.snd_lbb_lt;
      snd_nxt_lt = r.snd_nxt_lt;
    }

requeue_first_account : (segs : List Seg) (pcb : Pcb) → SameAccount (requeue_first segs pcb) pcb
unfolding requeue_first
requeue_first_account [] pcb = (refl, refl, refl, refl)
requeue_first_account (seg ∷ rest) pcb = (refl, refl, refl, refl)

rexmit_fast_account : (pcb : Pcb) → SameAccount (rexmit_fast pcb) pcb
unfolding rexmit_fast rexmit
rexmit_fast_account pcb = elim (Bool-cases (is_empty pcb.unacked || pcb.flags.infr)) [
  | inl off ↦ rw off (refl, refl, refl, refl)
  | inr on ↦ rw on (requeue_first_account pcb.unacked pcb)
]

old_ack_account : (pcb : Pcb) (i : Incoming) (edge : ℕ) → SameAccount (old_ack pcb i edge) pcb
unfolding old_ack
old_ack_account pcb i edge = elim (Bool-cases (not (is_dupack pcb i edge))) [
  | inl no_dup ↦ rw no_dup (refl, refl, refl, refl)
  | inr dup ↦ elim (Bool-cases (ltb 3 (count_dupack pcb.dupacks))) [
    | inl many ↦ rw (dup, many) (refl, refl, refl, refl)
    | inr few ↦ elim (Bool-cases (count_dupack pcb.dupacks == 3)) [
      | inl three ↦
          rw (dup, few, three)
            (rexmit_fast_account (record pcb { acked = 0; dupacks = count_dupack pcb.dupacks }))
      | inr less ↦ rw (dup, few, less) (refl, refl, refl, refl)
    ]
  ]
]

header_packet_account :
    (e : Option Chain) (pcb : Pcb) (optlen seqno : ℕ)
    → SameAccount (header_packet e pcb optlen seqno).1 pcb
header_packet_account none pcb optlen seqno = (refl, refl, refl, refl)
header_packet_account (some p) pcb optlen seqno = (refl, refl, refl, refl)

update_window_account : (pcb : Pcb) (i : Incoming) → SameAccount (update_window pcb i) pcb
unfolding update_window
update_window_account pcb i = elim (Bool-cases (newer_wnd pcb i)) [
  | inl newer ↦ rw newer (refl, refl, refl, refl)
  | inr older ↦ rw older (refl, refl, refl, refl)
]

module _ {W : Type 0} (env : Env W) (tcp_ticks : ℕ) where
  finish_ack_account :
      (e : Option (TcpHdr × Chain)) (pcb : Pcb) (s : Buffers W)
      → SameAccount (finish_ack env tcp_ticks e pcb s).1 pcb
  unfolding finish_ack
  finish_ack_account none pcb s = (refl, refl, refl, refl)
  finish_ack_account (some (tcphdr, p)) pcb s = (refl, refl, refl, refl)

  send_empty_ack-Balanced :
      (total : ℕ) (pcb : Pcb) (s : Buffers W)
      → Balanced total pcb
      → Balanced total (send_empty_ack env tcp_ticks pcb s).1
  unfolding send_empty_ack output_alloc_header
  send_empty_ack-Balanced total pcb s r =
      let (e, s') = alloc env.mem_malloc s ip ((tcp_hlen + 0 + 0) % u16_mod) ram in
      let (packet, pcb') = header_packet e pcb 0 pcb.snd_nxt in
      Balanced-same total (finish_ack env tcp_ticks packet pcb' s').1 pcb'
        (finish_ack_account packet pcb' s')
        (Balanced-same total pcb' pcb (header_packet_account e pcb 0 pcb.snd_nxt) r)

  remove_unacked-Balanced :
      (total : ℕ) (segs : List Seg) (pcb : Pcb) (ackno : ℕ) (s : Buffers W)
      → Balanced total pcb
      → Balanced total (remove_unacked env tcp_ticks segs pcb ackno s).0
  unfolding remove_unacked
  remove_unacked-Balanced total [] pcb ackno s r = r
  remove_unacked-Balanced total (seg ∷ rest) pcb ackno s r =
      let next = record (forget pcb seg) { unacked = rest } in
      elim (Bool-cases (seq_leq (seg_end seg) ackno)) [
        | inl gone ↦ rw gone (
            remove_unacked-Balanced total rest next ackno (seg_free env s seg)
              (Balanced-same total next pcb (refl, refl, refl, refl) r))
        | inr stays ↦ rw stays r
      ]

  remove_unsent-Balanced :
      (total : ℕ) (segs : List Seg) (pcb : Pcb) (ackno : ℕ) (s : Buffers W)
      → Balanced total pcb
      → Balanced total (remove_unsent env tcp_ticks segs pcb ackno s).0
  unfolding remove_unsent
  remove_unsent-Balanced total [] pcb ackno s r = r
  remove_unsent-Balanced total (seg ∷ rest) pcb ackno s r =
      let next = record (forget pcb seg) {
        unsent = rest;
        unsent_oversize = if is_empty rest then 0 else pcb.unsent_oversize;
      } in
      elim (Bool-cases (seq_between ackno (seg_end seg) pcb.snd_nxt)) [
        | inl gone ↦ rw gone (
            remove_unsent-Balanced total rest next ackno (seg_free env s seg)
              (Balanced-same total next pcb (refl, refl, refl, refl) r))
        | inr stays ↦ rw stays r
      ]

  ack_cases-Balanced :
      (total : ℕ) (pcb : Pcb) (i : Incoming) (edge : ℕ) (s : Buffers W)
      → i.ackno < u32_mod
      → Balanced total pcb
      → Balanced total (ack_cases env tcp_ticks pcb i edge s).0
  unfolding ack_cases
  ack_cases-Balanced total pcb i edge s h r = elim (Bool-cases (seq_leq i.ackno pcb.lastack)) [
    | inl old ↦ rw old (Balanced-same total (old_ack pcb i edge) pcb (old_ack_account pcb i edge) r)
    | inr later ↦
        elim (Bool-cases (seq_between i.ackno ((pcb.lastack + 1) % u32_mod) pcb.snd_nxt)) [
          | inl fresh ↦
              let acked = remove_unacked env tcp_ticks pcb.unacked (new_ack pcb i) i.ackno s in
              rw (later, fresh)
                (Balanced-same total (restart_rtime env tcp_ticks acked.0) acked.0
                  (refl, refl, refl, refl)
                  (remove_unacked-Balanced total pcb.unacked (new_ack pcb i) i.ackno s
                    (Balanced-new_ack total pcb i r h fresh later)))
          | inr wild ↦
              rw (later, wild)
                (send_empty_ack-Balanced total (record pcb { acked = 0 }) s
                  (Balanced-same total (record pcb { acked = 0 }) pcb (refl, refl, refl, refl) r))
        ]
  ]

  estimate_rtt_account :
      (pcb : Pcb) (ackno : ℕ) → SameAccount (estimate_rtt env tcp_ticks pcb ackno) pcb
  unfolding estimate_rtt
  estimate_rtt_account pcb ackno =
      elim (Bool-cases (not (pcb.rttest == 0) && seq_lt pcb.rtseq ackno)) [
        | inl ends ↦ rw ends (refl, refl, refl, refl)
        | inr goes_on ↦ rw goes_on (refl, refl, refl, refl)
      ]

  -- Where the account of the send buffer is in order, the processing of an acknowledgement keeps it
  -- in order on each branch, for any 32-bit acknowledgement number: free bytes and bytes between
  -- the last acknowledged number and the next one to be buffered are as many together as before,
  -- and the last number sent stays between these two.
  pub receive_ack-Balanced :
      (total : ℕ) (pcb : Pcb) (i : Incoming) (s : Buffers W)
      → i.ackno < u32_mod
      → Balanced total pcb
      → Balanced total (receive_ack env tcp_ticks pcb i s).0
  unfolding receive_ack
  receive_ack-Balanced total pcb i s h r =
      let edge = (pcb.snd_wnd + pcb.snd_wl2) % u32_mod in
      let (pcb1, s1) = ack_cases env tcp_ticks (update_window pcb i) i edge s in
      let (pcb2, s2) = remove_unsent env tcp_ticks pcb1.unsent pcb1 i.ackno s1 in
      Balanced-same total (estimate_rtt env tcp_ticks pcb2 i.ackno) pcb2
        (estimate_rtt_account pcb2 i.ackno)
        (remove_unsent-Balanced total pcb1.unsent pcb1 i.ackno s1 (
          ack_cases-Balanced total (update_window pcb i) i edge s h
            (Balanced-same total (update_window pcb i) pcb (update_window_account pcb i) r)))
