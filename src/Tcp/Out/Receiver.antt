-- ===== src/Tcp/Out/Receiver.antt =====
-- What the output of src/tcp_out.c leaves of the receiver's fields, and what its packets tell of
-- them.
use rudp.Tcp.Out.Enqueue.{set_nagle_mem_err}
use rudp.Err.{ok, Err}
use rudp.Tcp.Out.Sent.{stop_reason, post_of, Stopped}
use rudp.Tcp.Out.Wire.{release-wire, seg_free-wire, alloc-ram_wire, Records, Posted}
use rudp.Prelude.{
  subst, ap, ◌/◌, if_elim, append-nil, append_assoc, ◌++◌, sym, ℕ, ◌+◌, ◌%◌, ◌≡◌, refl, ◌∙◌, Bool,
  true, false, not, ◌&&◌, ◌||◌, List, [], ◌∷◌, Option, none, some, ltb, if◌then◌else◌, arith, inl,
  inr, ◌⊎◌,
}
use rudp.Pbuf.{u16_mod, Chain, ip, ram}
use rudp.Pbuf.Alloc.{Buffers, alloc}
use rudp.Tcp.Seq.{u32_mod}
use rudp.Tcp.Types.{no_hdr_flags, Pcb, Seg, tcplen, tcp_hlen}
use rudp.Tcp.Env.{Packet, Env}
use rudp.Tcp.Segs.{seg_free}
use rudp.Tcp.Out.Make.{header_packet, output_alloc_header}
use rudp.Tcp.Out.Output.{
  finish, output, output_loop, output_segment, send_empty_ack, finish_ack, sent, prepare, is_ok,
  fits, do_output_nagle,
}

-- One of the packets tells the next byte that is expected and the announced window.
abbrev pub Tells : (rcv_nxt rcv_ann_wnd : ℕ) → List Posted → Type 0
Tells rcv_nxt rcv_ann_wnd [] = ⊥
Tells rcv_nxt rcv_ann_wnd ((packet, remote_ip, remote_udp_port) ∷ ps) =
    ((packet.tcphdr.ackno ≡ rcv_nxt) × (packet.tcphdr.wnd ≡ rcv_ann_wnd))
    ⊎ Tells rcv_nxt rcv_ann_wnd ps

-- The receiver's fields are the same, but for the announced right edge.
abbrev pub KeepsRcv : Pcb → Pcb → Type 0
KeepsRcv a b =
    (b.rcv_nxt ≡ a.rcv_nxt)
    × (b.rcv_wnd ≡ a.rcv_wnd)
    × (b.rcv_ann_wnd ≡ a.rcv_ann_wnd)
    × (b.mss ≡ a.mss)

-- The announced right edge is that of the announced window, and one of the packets tells it.
abbrev pub TellsEdge : Pcb → Pcb → List Posted → Type 0
TellsEdge a b ps =
    (b.rcv_ann_right_edge ≡ (a.rcv_nxt + a.rcv_ann_wnd) % u32_mod)
    × Tells a.rcv_nxt a.rcv_ann_wnd ps

-- Nothing is told, and the right edge and ACK_NOW are as they were.
abbrev pub Silent : Pcb → Pcb → List Posted → Type 0
Silent a b ps =
    (ps ≡ []) × (b.rcv_ann_right_edge ≡ a.rcv_ann_right_edge) × (b.flags.ack_now ≡ a.flags.ack_now)

-- Why a packet is put off: `tcp_input` is working on the control block and will call `tcp_output`,
-- or there is no memory for it, or the Nagle algorithm holds back a segment that the windows allow.
abbrev pub PutOff : (is_input_pcb : Bool) → (e : Option Chain) → Pcb → Type 0
PutOff is_input_pcb e b = (is_input_pcb ≡ true) ⊎ ((e ≡ none) ⊎ (do_output_nagle b ≡ false))

and_false : (a b : Bool) → a ≡ true → (a && b) ≡ false → b ≡ false
and_false true b a e = e
and_false false b a e = ground arith

module _ {W : Type 0} (env : Env W) (wire : W → List Posted) (records : Records env wire)
    (tcp_ticks : ℕ) where
  -- What the loop of `tcp_output` tells.
  abbrev Loops : (segs : List Seg) → (a b : Pcb) → (before after : List Posted) → Type 0
  Loops segs a b before after =
      KeepsRcv a b
      × ((ps : List Posted) × (after ≡ before ++ ps)
          × (TellsEdge a b ps ⊎ (Silent a b ps × Stopped a b segs)))

  -- The packet of a segment is handed over, and then others.
  Loops-first :
      (segs rest : List Seg) (a next b : Pcb) (post : Posted) (before after : List Posted)
      → KeepsRcv a next
      → TellsEdge a next (post ∷ [])
      → Loops rest next b (before ++ (post ∷ [])) after
      → Loops segs a b before after
  Loops-first segs rest a next b post before after (n, w, x, m) (edge, tells)
        ((n', w', x', m'), (ps, e, told)) =
      (
        (n' ∙ n, w' ∙ w, x' ∙ x, m' ∙ m),
        (
          post ∷ ps,
          e ∙ append_assoc before (post ∷ []) ps,
          inl (
            elim told [
              | inl (edge', tells') ↦ edge' ∙ omega (arith, n, x)
              | inr ((empty, edge', flag), stopped) ↦ edge' ∙ edge
            ],
            elim tells [ inl this ↦ inl this | inr none_left ↦ absurd none_left ],
          ),
        ),
      )

  output_loop-Loops :
      (segs : List Seg) (pcb : Pcb) (s : Buffers W)
      → let (err, pcb', s') = output_loop env tcp_ticks segs pcb s in
        Loops segs pcb pcb' (wire s.heap) (wire s'.heap)
  unfolding output_loop output_segment
  output_loop-Loops [] pcb s =
      ((refl, refl, refl, refl), ([], sym (append-nil (wire s.heap)), inr ((refl, refl, refl), tt)))
  output_loop-Loops (seg ∷ rest) pcb s =
      let (err, seg', pcb', s') = output_segment env tcp_ticks (prepare pcb seg) pcb s in
      let s2 = if ltb 0 (tcplen seg') then s' else seg_free env s' seg' in
      let next = sent pcb' seg' rest in
      let (packet, remote_ip, port) = post_of pcb seg in
      let posted : wire s'.heap ≡ wire s.heap ++ (post_of pcb seg ∷ []) =
        records.ip_output_if-wire s.heap packet remote_ip port in
      let freed : wire s2.heap ≡ wire s.heap ++ (post_of pcb seg ∷ []) =
        if_elim (λ (x : Buffers W). wire x.heap ≡ wire s.heap ++ (post_of pcb seg ∷ []))
          (ltb 0 (tcplen seg')) s' (seg_free env s' seg') (λ t. posted)
          (λ t. seg_free-wire env wire records s' seg' ∙ posted) in
      let held_back = not (do_output_nagle pcb) && not (pcb.flags.nagle_mem_err || pcb.flags.fin) in
      let shown : (r : Err × Pcb × Buffers W) → Type 0 =
        λ r. Loops (seg ∷ rest) pcb r.1 (wire s.heap) (wire r.2.heap) in
      if_elim shown (not (fits pcb seg) || held_back) (ok, finish pcb, s)
        (if is_ok err
          then output_loop env tcp_ticks rest next s2
          else (err, set_nagle_mem_err (record pcb' { unsent = seg' ∷ rest }), s'))
        (λ stops. (
          (refl, refl, refl, refl),
          (
            [],
            sym (append-nil (wire s.heap)),
            inr (
              (refl, refl, refl),
              stop_reason (fits pcb seg) (do_output_nagle pcb)
                  (pcb.flags.nagle_mem_err || pcb.flags.fin) stops,
            ),
          ),
        ))
        (λ goes.
          if_elim shown (is_ok err) (output_loop env tcp_ticks rest next s2) _
            (λ fine.
              let r = output_loop env tcp_ticks rest next s2 in
              Loops-first (seg ∷ rest) rest pcb next r.1 (post_of pcb seg) (wire s.heap)
                (wire r.2.heap) (refl, refl, refl, refl) (refl, inl (refl, refl))
                (subst (λ ps. Loops rest next r.1 ps (wire r.2.heap)) freed
                  (output_loop-Loops rest next s2)))
            (λ failed. (
              (refl, refl, refl, refl),
              (post_of pcb seg ∷ [], posted, inl (refl, inl (refl, refl))),
            )))

  -- What `tcp_output` tells when an acknowledgement is to be sent at once.
  abbrev pub Answers :
      (is_input_pcb : Bool)
      → (e : Option Chain) → (a b : Pcb) → (before after : List Posted) → Type 0
  Answers is_input_pcb e a b before after =
      KeepsRcv a b
      × ((ps : List Posted) × (after ≡ before ++ ps)
          × (TellsEdge a b ps
              ⊎ ((b.rcv_ann_right_edge ≡ a.rcv_ann_right_edge)
                  × (b.flags.ack_now ≡ true)
                  × PutOff is_input_pcb e b)))

  finish_ack-Answers :
      (e : Option Chain) (pcb : Pcb) (s0 s : Buffers W)
      → wire s.heap ≡ wire s0.heap
      → let (packet, pcb1) = header_packet e pcb 0 pcb.snd_nxt in
        let (err, pcb', s') = finish_ack env tcp_ticks packet pcb1 s in
        Answers false e pcb pcb' (wire s0.heap) (wire s'.heap)
  unfolding finish_ack
  finish_ack-Answers none pcb s0 s w = (
    (refl, refl, refl, refl),
    ([], w ∙ sym (append-nil (wire s0.heap)), inr (refl, refl, inr (inl refl))),
  )
  finish_ack-Answers (some p) pcb s0 s w =
      let packet : Packet = record {
        tcphdr = record {
          conn_id = pcb.conn_id;
          seqno = pcb.snd_nxt;
          ackno = pcb.rcv_nxt;
          hdrlen = 5 + 0 / 4;
          flags = record no_hdr_flags { ack = true };
          wnd = pcb.rcv_ann_wnd;
        };
        mss_option = none;
        p = p;
      } in
      let post : Posted = (packet, pcb.remote_ip, pcb.remote_udp_port) in
      let (err, heap) = env.ip_output_if s.heap packet pcb.remote_ip pcb.remote_udp_port in
      let posted : wire heap ≡ wire s0.heap ++ (post ∷ []) =
        records.ip_output_if-wire s.heap packet pcb.remote_ip pcb.remote_udp_port
        ∙ ap (λ ps. ps ++ (post ∷ [])) w in
      let freed = release-wire env wire records p (record s { heap = heap }) in
      ((refl, refl, refl, refl), (post ∷ [], freed ∙ posted, inl (refl, inl (refl, refl))))

  -- A loop that is not begun for want of an acknowledgement has a first segment that the windows
  -- allow.
  loop-Answers :
      (segs : List Seg) (e : Option Chain) (a b : Pcb) (before after : List Posted)
      → a.flags.ack_now ≡ true
      → (elim segs as (λ l. Bool) [ [] ↦ true | seg ∷ rest ↦ not (fits a seg) ]) ≡ false
      → Loops segs a b before after
      → Answers false e a b before after
  loop-Answers segs e a b before after now f (k, (ps, w, inl told)) = (k, (ps, w, inl told))
  loop-Answers [] e a b before after now f (k, (ps, w, inr (silent, t))) = ground arith
  loop-Answers (seg ∷ rest) e a b before after now f
        (k, (ps, w, inr ((empty, edge, flag), inl unfit))) =
      ground arith
  loop-Answers (seg ∷ rest) e a b before after now f
        (k, (ps, w, inr ((empty, edge, flag), inr nagle))) =
      (k, (ps, w, inr (edge, flag ∙ now, inr (inr nagle))))

  pub output-Answers :
      (is_input_pcb : Bool) (pcb : Pcb) (s : Buffers W)
      → pcb.flags.ack_now ≡ true
      → let (err, pcb', s') = output env tcp_ticks is_input_pcb pcb s in
        Answers is_input_pcb
          (alloc env.mem_malloc s ip ((tcp_hlen + 0 + 0) % u16_mod) ram).0
          pcb
          pcb'
          (wire s.heap)
          (wire s'.heap)
  unfolding output send_empty_ack output_alloc_header
  output-Answers true pcb s now =
      ((refl, refl, refl, refl), ([], sym (append-nil (wire s.heap)), inr (refl, now, inl refl)))
  output-Answers false pcb s now =
      let ack_only : Bool = elim pcb.unsent [ [] ↦ true | seg ∷ rest ↦ not (fits pcb seg) ] in
      let (e, s') = alloc env.mem_malloc s ip ((tcp_hlen + 0 + 0) % u16_mod) ram in
      let loop = output_loop env tcp_ticks pcb.unsent pcb s in
      if_elim (λ (r : Err × Pcb × Buffers W). Answers false e pcb r.1 (wire s.heap) (wire r.2.heap))
        (pcb.flags.ack_now && ack_only) _ loop
        (λ ack.
          finish_ack-Answers e pcb s s'
            (alloc-ram_wire env wire records s ip ((tcp_hlen + 0 + 0) % u16_mod)))
        (λ segs.
          loop-Answers pcb.unsent e pcb loop.1 (wire s.heap) (wire loop.2.heap) now
            (and_false pcb.flags.ack_now ack_only now segs) (output_loop-Loops pcb.unsent pcb s))
