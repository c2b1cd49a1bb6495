-- ===== src/Tcp/Out/Conserve.antt =====
-- That the output of src/tcp_out.c neither loses nor duplicates a segment: the segments on the
-- queues and those in the pool are as many as before.
use rudp.Prelude.{
  ℕ, ◌+◌, ◌%◌, ◌≡◌, refl, ap, ◌∙◌, Bool, true, false, not, ◌&&◌, ◌||◌, List, [], ◌∷◌, Option, none,
  some, ltb, if◌then◌else◌, arith, length, length-append, Bool-cases, inl, inr,
}
use rudp.Pbuf.{ip, ram, u16_mod, Chain}
use rudp.Pbuf.Alloc.{alloc-ram_memp, Buffers, alloc}
use rudp.Pbuf.Release.{release-tcp_segs}
use rudp.Tcp.Types.{TcpHdr, Pcb, Seg, tcplen, tcp_hlen}
use rudp.Tcp.Env.{Env, Packet}
use rudp.Tcp.Segs.{free_segs, seg_free, seg_free-free_segs, insert_seg}
use rudp.Tcp.Out.Make.{is_empty, header_packet, output_alloc_header}
use rudp.Tcp.Out.Rexmit.{rexmit_rto, requeue_unacked}
use rudp.Tcp.Out.Output.{
  finish_ack, output, output_loop, output_segment, send_empty_ack, add_unacked, sent, prepare,
  is_ok, fits, do_output_nagle, before_last,
}

-- The segments that the control block and the pool hold together.
abbrev pub held : {W : Type 0} → Pcb → Buffers W → ℕ
held pcb s = length pcb.unsent + length pcb.unacked + free_segs s

pub length-insert_seg :
    (segs : List Seg) (seg : Seg) → length (insert_seg segs seg) ≡ length segs + 1
unfolding insert_seg
length-insert_seg [] seg = refl
length-insert_seg (cur ∷ segs) seg = ground (arith, length-insert_seg segs seg)

length-add_unacked : (segs : List Seg) (seg : Seg) → length (add_unacked segs seg) ≡ length segs + 1
unfolding add_unacked
length-add_unacked segs seg = elim (Bool-cases (before_last segs seg)) [
  | inl before ↦ rw before (length-insert_seg segs seg)
  | inr after ↦ rw after (length-append segs (seg ∷ []))
]

module _ {W : Type 0} (env : Env W) (tcp_ticks : ℕ) where
  held-sent :
      (pcb : Pcb) (seg : Seg) (rest : List Seg) (s : Buffers W)
      → held (sent pcb seg rest) (if ltb 0 (tcplen seg) then s else seg_free env s seg)
        ≡ length rest + length pcb.unacked + free_segs s + 1
  held-sent pcb seg rest s = elim (Bool-cases (ltb 0 (tcplen seg))) [
    | inl long ↦ rw long (omega (arith, length-add_unacked pcb.unacked seg))
    | inr short ↦ rw short (omega (arith, seg_free-free_segs env s seg))
  ]

  held-output_loop :
      (segs : List Seg) (pcb : Pcb) (s : Buffers W)
      → pcb.unsent ≡ segs
      → let (err, pcb', s') = output_loop env tcp_ticks segs pcb s in held pcb' s' ≡ held pcb s
  unfolding output_loop output_segment
  held-output_loop [] pcb s e = refl
  held-output_loop (seg ∷ rest) pcb s e =
      let (err, seg', pcb', s') = output_segment env tcp_ticks (prepare pcb seg) pcb s in
      let s2 = if ltb 0 (tcplen seg') then s' else seg_free env s' seg' in
      let size : length pcb.unsent ≡ length rest + 1 = ap length e ∙ omega arith in
      elim (Bool-cases (
        not (fits pcb seg)
        || not (do_output_nagle pcb) && not (pcb.flags.nagle_mem_err || pcb.flags.fin))) [
          | inl stops ↦ rw stops refl
          | inr goes ↦ elim (Bool-cases (is_ok err)) [
            | inl fine ↦
                let later = held-output_loop rest (sent pcb' seg' rest) s2 refl in
                rw (goes, fine) (later ∙ held-sent pcb' seg' rest s' ∙ omega arith)
            | inr failed ↦ rw (goes, failed) (omega arith)
          ]
        ]

  held-header_packet :
      (e : Option Chain) (pcb : Pcb) (optlen seqno : ℕ) (s : Buffers W)
      → held (header_packet e pcb optlen seqno).1 s ≡ held pcb s
  held-header_packet none pcb optlen seqno s = refl
  held-header_packet (some p) pcb optlen seqno s = refl

  held-output_alloc_header :
      (pcb : Pcb) (optlen datalen seqno : ℕ) (s : Buffers W)
      → let (e, pcb', s') = output_alloc_header env pcb optlen datalen seqno s in
        held pcb' s' ≡ held pcb s
  unfolding output_alloc_header
  held-output_alloc_header pcb optlen datalen seqno s =
      let n = (tcp_hlen + optlen + datalen) % u16_mod in
      let (e, s') = alloc env.mem_malloc s ip n ram in
      held-header_packet e pcb optlen seqno s'
      ∙ ap (λ m. length pcb.unsent + length pcb.unacked + length m.tcp_segs)
          (alloc-ram_memp env.mem_malloc s ip n)

  held-finish_ack :
      (e : Option (TcpHdr × Chain)) (pcb : Pcb) (s : Buffers W)
      → let (err, pcb', s') = finish_ack env tcp_ticks e pcb s in held pcb' s' ≡ held pcb s
  unfolding finish_ack
  held-finish_ack none pcb s = refl
  held-finish_ack (some (tcphdr, p)) pcb s =
      let packet : Packet = record { tcphdr = tcphdr; mss_option = none; p = p } in
      let heap = (env.ip_output_if s.heap packet pcb.remote_ip pcb.remote_udp_port).1 in
      omega (arith, ap length (release-tcp_segs env.mem_free p (record s { heap = heap })))

  pub held-send_empty_ack :
      (pcb : Pcb) (s : Buffers W)
      → let (err, pcb', s') = send_empty_ack env tcp_ticks pcb s in held pcb' s' ≡ held pcb s
  unfolding send_empty_ack
  held-send_empty_ack pcb s =
      let (e, pcb', s') = output_alloc_header env pcb 0 0 pcb.snd_nxt s in
      held-finish_ack e pcb' s' ∙ held-output_alloc_header pcb 0 0 pcb.snd_nxt s

  -- `tcp_output` keeps the number of segments that the control block's queues and the pool hold
  -- together, on each of its branches, errors included.
  pub held-output :
      (is_input_pcb : Bool) (pcb : Pcb) (s : Buffers W)
      → let (err, pcb', s') = output env tcp_ticks is_input_pcb pcb s in held pcb' s' ≡ held pcb s
  unfolding output
  held-output true pcb s = refl
  held-output false pcb s =
      let ack_only : Bool = elim pcb.unsent [ [] ↦ true | seg ∷ rest ↦ not (fits pcb seg) ] in
      elim (Bool-cases (pcb.flags.ack_now && ack_only)) [
        | inl ack ↦ rw ack (held-send_empty_ack pcb s)
        | inr segs ↦ rw segs (held-output_loop pcb.unsent pcb s refl)
      ]

  -- `tcp_rexmit_rto`, which puts all unacknowledged segments back on the unsent queue and calls
  -- `tcp_output`, keeps the number of segments that the queues and the pool hold together.
  pub held-rexmit_rto :
      (is_input_pcb : Bool) (pcb : Pcb) (s : Buffers W)
      → let (pcb', s') = rexmit_rto env tcp_ticks is_input_pcb pcb s in held pcb' s' ≡ held pcb s
  unfolding rexmit_rto requeue_unacked
  held-rexmit_rto is_input_pcb pcb s = elim (Bool-cases (is_empty pcb.unacked)) [
    | inl idle ↦ rw idle refl
    | inr busy ↦ rw busy (
        held-output is_input_pcb (requeue_unacked pcb) s
        ∙ omega (arith, length-append pcb.unacked pcb.unsent))
  ]
