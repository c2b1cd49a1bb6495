-- ===== src/Tcp/Out/Window.antt =====
-- What src/tcp_out.c sends: only segments that the windows allow, from the front of the queue; and
-- what fast retransmission does to the windows.
use rudp.Tcp.Out.Sent.{
  Sends-first, go_reason, stop_reason, post_of, Among-All, Acks, wants_ack, Sends,
}
use rudp.Tcp.Out.Wire.{release-wire, seg_free-wire, alloc-ram_wire, Records, Posted}
use rudp.Prelude.{
  if_elim, append-nil, sym, subst, max, ℕ, ◌+◌, ◌*◌, ◌/◌, ◌%◌, ◌≤◌, ◌<◌, ◌≡◌, refl, ap, ◌∙◌, true,
  false, not, ◌&&◌, ◌||◌, List, [], ◌∷◌, ◌++◌, Option, none, some, ltb, min, if◌then◌else◌, arith,
  Bool-cases, inl, inr, ◌⊎◌,
}
use rudp.Pbuf.{Chain, ip, ram, u16_mod}
use rudp.Pbuf.Alloc.{Buffers, alloc}
use rudp.Tcp.Types.{no_hdr_flags, Pcb, Seg, tcplen, tcp_hlen, tcp_mss}
use rudp.Tcp.Env.{Packet, Env}
use rudp.Tcp.Segs.{seg_free}
use rudp.Tcp.Out.Make.{output_alloc_header, header_packet, is_empty}
use rudp.Tcp.Out.Output.{
  output, output_loop, output_segment, send_empty_ack, finish_ack, sent, prepare, is_ok, fits,
  do_output_nagle,
}
use rudp.Tcp.Out.Rexmit.{rexmit_fast}

module _ {W : Type 0} (env : Env W) (wire : W → List Posted) (records : Records env wire)
    (tcp_ticks : ℕ) where
  output_loop-Sends :
      (segs : List Seg) (pcb : Pcb) (s : Buffers W)
      → pcb.unsent ≡ segs
      → let (err, pcb', s') = output_loop env tcp_ticks segs pcb s in
        Sends pcb segs (err, pcb') (wire s.heap) (wire s'.heap)
  unfolding output_loop output_segment
  output_loop-Sends [] pcb s e = (
    [],
    [],
    refl,
    tt,
    inl (refl, e, tt, Among-All pcb.unacked pcb.unacked (λ g h. h), sym (append-nil (wire s.heap))),
  )
  output_loop-Sends (seg ∷ rest) pcb s e =
      let (err, seg', pcb', s') = output_segment env tcp_ticks (prepare pcb seg) pcb s in
      let s2 = if ltb 0 (tcplen seg') then s' else seg_free env s' seg' in
      let held_back = not (do_output_nagle pcb) && not (pcb.flags.nagle_mem_err || pcb.flags.fin) in
      let (packet, remote_ip, port) = post_of pcb seg in
      let posted : wire s'.heap ≡ wire s.heap ++ (post_of pcb seg ∷ []) =
        records.ip_output_if-wire s.heap packet remote_ip port in
      let freed : wire s2.heap ≡ wire s.heap ++ (post_of pcb seg ∷ []) =
        if_elim (λ (x : Buffers W). wire x.heap ≡ wire s.heap ++ (post_of pcb seg ∷ []))
          (ltb 0 (tcplen seg')) s' (seg_free env s' seg') (λ t. posted)
          (λ t. seg_free-wire env wire records s' seg' ∙ posted) in
      let kept = Among-All pcb.unacked pcb.unacked (λ g h. h) in
      elim (Bool-cases (not (fits pcb seg) || held_back)) [
        | inl stops ↦ rw stops (
          [],
          seg ∷ rest,
          refl,
          tt,
          inl (
            refl,
            e,
            stop_reason (fits pcb seg) (do_output_nagle pcb)
                (pcb.flags.nagle_mem_err || pcb.flags.fin) stops,
            kept,
            sym (append-nil (wire s.heap)),
          ),
        )
        | inr goes ↦
            let f = go_reason (fits pcb seg) held_back goes in
            elim (Bool-cases (is_ok err)) [
              | inl fine ↦
                  rw (goes, fine)
                    (let r = output_loop env tcp_ticks rest (sent pcb' seg' rest) s2 in
                      Sends-first tcp_ticks pcb seg rest (r.0, r.1) (wire s.heap) (wire r.2.heap) f
                        (subst
                          (λ ps. Sends (sent pcb' seg' rest) rest (r.0, r.1) ps (wire r.2.heap))
                          freed (output_loop-Sends rest (sent pcb' seg' rest) s2 refl)))
              | inr failed ↦
                  rw (goes, failed)
                    (
                      [],
                      seg ∷ rest,
                      refl,
                      tt,
                      inr (failed, (seg, rest, refl, f, refl, kept, posted)),
                    )
            ]
      ]

  finish_ack-Acks :
      (e : Option Chain) (pcb : Pcb) (s0 s : Buffers W)
      → wire s.heap ≡ wire s0.heap
      → let (packet, pcb1) = header_packet e pcb 0 pcb.snd_nxt in
        let (err, pcb', s') = finish_ack env tcp_ticks packet pcb1 s in
        Acks pcb e err pcb' (wire s0.heap) (wire s'.heap)
  unfolding finish_ack
  finish_ack-Acks none pcb s0 s w = (refl, refl, inl (refl, refl, w))
  finish_ack-Acks (some p) pcb s0 s w =
      let packet : Packet = record {
        tcphdr = record {
          conn_id = pcb.conn_id;
          seqno = pcb.snd_nxt;
          ackno = pcb.rcv_nxt;
          hdrlen = 5 + 0 / 4;
          flags = record no_hdr_flags { ack = true };
          wnd = pcb.rcv_ann_wnd;
        };
        mss_option = none;
        p = p;
      } in
      let post : Posted = (packet, pcb.remote_ip, pcb.remote_udp_port) in
      let heap = (env.ip_output_if s.heap packet pcb.remote_ip pcb.remote_udp_port).1 in
      let posted : wire heap ≡ wire s0.heap ++ (post ∷ []) =
        records.ip_output_if-wire s.heap packet pcb.remote_ip pcb.remote_udp_port
        ∙ ap (λ ps. ps ++ (post ∷ [])) w in
      let freed = release-wire env wire records p (record s { heap = heap }) in
      (refl, refl, inr (post, freed ∙ posted, (refl, refl, refl, refl, refl, refl)))

  -- What `tcp_output` does for a control block that `tcp_input` is not working on, where the
  -- packets handed to `ip_output_if` are recorded and `malloc` and `free` hand over none. With
  -- ACK_NOW set, and no unsent segment or a first one that the windows do not allow, both queues
  -- stay as they are, and one packet is handed over, which acknowledges and tells the announced
  -- window, unless there is no memory for it, which is an error. Otherwise some of the unsent
  -- segments from the front, each within the windows, are handed over, each once and in order, to
  -- the other side's address and port, with a header that tells `rcv_nxt`, the announced window
  -- and, outside SYN_SENT, the ACK flag. Those of them with a length are among the unacknowledged
  -- ones afterwards, and those that were there stay. Without an error the other segments are
  -- exactly what is left unsent, and there are none, or the windows do not allow the next one, or
  -- the Nagle algorithm holds it back. After an error the next segment, which the windows allow,
  -- has been handed over too, and stays in front of the unsent ones as it was handed over.
  pub output-Sends :
      (pcb : Pcb) (s : Buffers W)
      → let (err, pcb', s') = output env tcp_ticks false pcb s in
        let (e, left) = alloc env.mem_malloc s ip ((tcp_hlen + 0 + 0) % u16_mod) ram in
        ((wants_ack pcb ≡ false) × Sends pcb pcb.unsent (err, pcb') (wire s.heap) (wire s'.heap))
        ⊎ ((wants_ack pcb ≡ true) × Acks pcb e err pcb' (wire s.heap) (wire s'.heap))
  unfolding output send_empty_ack output_alloc_header
  output-Sends pcb s =
      let (e, s') = alloc env.mem_malloc s ip ((tcp_hlen + 0 + 0) % u16_mod) ram in
      let same = alloc-ram_wire env wire records s ip ((tcp_hlen + 0 + 0) % u16_mod) in
      elim (Bool-cases (wants_ack pcb)) [
        | inl ack ↦ rw ack (inr (refl, finish_ack-Acks e pcb s s' same))
        | inr segs ↦ rw segs (inl (refl, output_loop-Sends pcb.unsent pcb s refl))
      ]

-- With an mss of at most TCP_MSS and a congestion window below 2^16, when fast retransmission
-- starts, the slow start threshold becomes half of the smaller window, but no less than two
-- segments, and the congestion window is three segments more, with no overflow of the 16-bit
-- fields. Without unacknowledged segments, or when it has started, nothing changes.
pub rexmit_fast_windows :
    (pcb : Pcb)
    → pcb.mss ≤ tcp_mss
    → pcb.cwnd < u16_mod
    → ((is_empty pcb.unacked || pcb.flags.infr ≡ true) × (rexmit_fast pcb ≡ pcb))
      ⊎ ((is_empty pcb.unacked || pcb.flags.infr ≡ false)
          × ((rexmit_fast pcb).ssthresh ≡ max (min pcb.cwnd pcb.snd_wnd / 2) (2 * pcb.mss))
          × ((rexmit_fast pcb).cwnd ≡ (rexmit_fast pcb).ssthresh + 3 * pcb.mss)
          × ((rexmit_fast pcb).flags.infr ≡ true))
unfolding rexmit_fast
rexmit_fast_windows pcb m c = elim (Bool-cases (is_empty pcb.unacked || pcb.flags.infr)) [
  | inl off ↦ inl (off, rw off refl)
  | inr on ↦ inr (on, rw on (ground arith), rw on (ground arith), rw on refl)
]
