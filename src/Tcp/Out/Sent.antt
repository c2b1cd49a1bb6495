-- ===== src/Tcp/Out/Sent.antt =====
-- What a run of `tcp_output` of src/tcp_out.c hands over, and what it leaves on the queues.
use rudp.Tcp.Out.Wire.{add_unacked-new, add_unacked-old, Posted, Among}
use rudp.Err.{Err}
use rudp.Prelude.{
  append_assoc, subst, ℕ, ◌≡◌, refl, ap, ◌∙◌, Bool, true, false, not, ◌&&◌, ◌||◌, List, [], ◌∷◌,
  ◌++◌, Option, none, some, ltb, if◌then◌else◌, arith, Bool-cases, inl, inr, All, ◌⊎◌,
}
use rudp.Pbuf.{Chain}
use rudp.Tcp.Types.{syn_sent, no_hdr_flags, is_state, Pcb, Seg, tcplen, tcp_mss}
use rudp.Tcp.Out.Output.{
  after_output, add_unacked, rewind, sent, prepare, is_ok, fits, do_output_nagle,
}

-- Why the loop of `tcp_output` stops without an error before `ys`: nothing is left, the windows do
-- not allow the next segment, or the Nagle algorithm holds it back.
abbrev pub Stopped : Pcb → Pcb → List Seg → Type 0
Stopped pcb pcb' [] = Unit {0}
Stopped pcb pcb' (y ∷ ys) = (fits pcb y ≡ false) ⊎ (do_output_nagle pcb' ≡ false)

-- What a segment is when it is sent: it acknowledges what was received, tells the announced window,
-- and its first pbuf begins with the header.
abbrev pub as_sent : Pcb → Seg → Seg
as_sent pcb seg = record seg {
  p = rewind seg.p seg.hdr_at;
  oversize_left = 0;
  tcphdr = record seg.tcphdr {
    ackno = pcb.rcv_nxt;
    wnd = pcb.rcv_ann_wnd;
    flags = record seg.tcphdr.flags {
      ack = seg.tcphdr.flags.ack || not (is_state pcb.state syn_sent);
    };
  };
}

-- The packet for it, to the other side of the connection.
abbrev pub post_of : Pcb → Seg → Posted
post_of pcb seg = (
  record {
    tcphdr = (as_sent pcb seg).tcphdr;
    mss_option = if seg.opt_mss then some tcp_mss else none;
    p = (as_sent pcb seg).p;
  },
  pcb.remote_ip,
  pcb.remote_udp_port,
)

abbrev pub posts : Pcb → List Seg → List Posted
posts pcb [] = []
posts pcb (seg ∷ segs) = post_of pcb seg ∷ posts pcb segs

-- The segments `xs` wait for their acknowledgement, but for those without length, and those that
-- waited before still do.
abbrev pub Wait : Pcb → List Seg → Pcb → Type 0
Wait pcb [] pcb' = All (λ g. Among g pcb'.unacked) pcb.unacked
Wait pcb (x ∷ xs) pcb' =
    (if ltb 0 (tcplen x) then Among (as_sent pcb x) pcb'.unacked else Unit {0}) × Wait pcb xs pcb'

-- A single packet that acknowledges, without data.
abbrev pub IsAck : Pcb → Posted → Type 0
IsAck pcb (packet, remote_ip, remote_udp_port) =
    (remote_ip ≡ pcb.remote_ip)
    × (remote_udp_port ≡ pcb.remote_udp_port)
    × (packet.tcphdr.flags ≡ record no_hdr_flags { ack = true })
    × (packet.tcphdr.seqno ≡ pcb.snd_nxt)
    × (packet.tcphdr.ackno ≡ pcb.rcv_nxt)
    × (packet.tcphdr.wnd ≡ pcb.rcv_ann_wnd)

-- How a run ends that has sent `xs`, with the segments `ys` left: without an error they are what is
-- left on the queue; after an error the first of them was handed over too, and stays on the queue
-- with the others.
abbrev pub Ended : Pcb → Err → Pcb → (xs ys : List Seg) → (before after : List Posted) → Type 0
Ended pcb err pcb' xs ys before after =
    ((is_ok err ≡ true)
      × (pcb'.unsent ≡ ys)
      × Stopped pcb pcb' ys
      × Wait pcb xs pcb'
      × (after ≡ before ++ posts pcb xs))
    ⊎ ((is_ok err ≡ false)
        × ((y : Seg) × (rest : List Seg) × (ys ≡ y ∷ rest)
            × (fits pcb y ≡ true)
            × (pcb'.unsent ≡ as_sent pcb y ∷ rest)
            × Wait pcb xs pcb'
            × (after ≡ before ++ posts pcb (xs ++ (y ∷ [])))))

-- An acknowledgement is wanted, and there is no unsent segment, or the windows do not allow the
-- first.
abbrev pub wants_ack : Pcb → Bool
wants_ack pcb = pcb.flags.ack_now && elim pcb.unsent [ [] ↦ true | seg ∷ rest ↦ not (fits pcb seg) ]

-- Only an acknowledgement is sent, if the memory `e` was got for it, and the queues stay as they
-- are.
abbrev pub Acks : Pcb → (e : Option Chain) → Err → Pcb → (before after : List Posted) → Type 0
Acks pcb e err pcb' before after =
    (pcb'.unsent ≡ pcb.unsent)
    × (pcb'.unacked ≡ pcb.unacked)
    × (((e ≡ none) × (is_ok err ≡ false) × (after ≡ before))
        ⊎ ((post : Posted) × (after ≡ before ++ (post ∷ [])) × IsAck pcb post))

-- A run over `segs`: some of them from the front, all within the windows, are sent.
abbrev pub Sends : Pcb → List Seg → Err × Pcb → (before after : List Posted) → Type 0
Sends pcb segs (err, pcb') before after =
    (xs : List Seg) × (ys : List Seg) × (segs ≡ xs ++ ys)
    × All (λ g. fits pcb g ≡ true) xs
    × Ended pcb err pcb' xs ys before after

All-Among : (xs zs : List Seg) (g : Seg) → All (λ g. Among g zs) xs → Among g xs → Among g zs
All-Among [] zs g a h = absurd h
All-Among (x ∷ xs) zs g a (inl e) = subst (λ x. Among x zs) e a.0
All-Among (x ∷ xs) zs g a (inr h) = All-Among xs zs g a.1 h

pub Among-All :
    (xs zs : List Seg) → ((g : Seg) → Among g xs → Among g zs) → All (λ g. Among g zs) xs
Among-All [] zs f = tt
Among-All (x ∷ xs) zs f = (f x (inl refl), Among-All xs zs (λ g h. f g (inr h)))

Wait-old :
    (pcb : Pcb) (xs : List Seg) (pcb' : Pcb)
    → Wait pcb xs pcb'
    → All (λ g. Among g pcb'.unacked) pcb.unacked
Wait-old pcb [] pcb' w = w
Wait-old pcb (x ∷ xs) pcb' w = Wait-old pcb xs pcb' w.1

-- The control block once the first segment is sent.
abbrev first_sent : (tcp_ticks : ℕ) → Pcb → Seg → List Seg → Pcb
first_sent tcp_ticks pcb seg rest =
    sent (after_output tcp_ticks (prepare pcb seg) pcb) (as_sent pcb seg) rest

unacked-first_sent :
    (tcp_ticks : ℕ) (pcb : Pcb) (seg : Seg) (rest zs : List Seg)
    → All (λ g. Among g zs) (first_sent tcp_ticks pcb seg rest).unacked
    → All (λ g. Among g zs) pcb.unacked
      × (if ltb 0 (tcplen seg) then Among (as_sent pcb seg) zs else Unit {0})
unfolding tcplen
unacked-first_sent tcp_ticks pcb seg rest zs a = elim (Bool-cases (ltb 0 (tcplen seg))) [
  | inl long ↦
      let joined : All (λ g. Among g zs) (add_unacked pcb.unacked (as_sent pcb seg)) =
        subst (λ xs. All (λ g. Among g zs) xs)
          (ap (λ (b : Bool). if b then add_unacked pcb.unacked (as_sent pcb seg) else pcb.unacked)
            long)
          a in
      rw long (
        Among-All pcb.unacked zs (λ g h.
            All-Among (add_unacked pcb.unacked (as_sent pcb seg)) zs g joined
              (add_unacked-old pcb.unacked (as_sent pcb seg) g h)),
        All-Among (add_unacked pcb.unacked (as_sent pcb seg)) zs (as_sent pcb seg) joined
            (add_unacked-new pcb.unacked (as_sent pcb seg)),
      )
  | inr short ↦ rw short (
    subst (λ xs. All (λ g. Among g zs) xs)
        (ap (λ (b : Bool). if b then add_unacked pcb.unacked (as_sent pcb seg) else pcb.unacked)
          short)
        a,
    tt,
  )
]

Wait-first_sent :
    (tcp_ticks : ℕ) (pcb : Pcb) (seg : Seg) (rest xs : List Seg) (pcb' : Pcb)
    → All (λ g. Among g pcb'.unacked) pcb.unacked
    → Wait (first_sent tcp_ticks pcb seg rest) xs pcb'
    → Wait pcb xs pcb'
Wait-first_sent tcp_ticks pcb seg rest [] pcb' a w = a
Wait-first_sent tcp_ticks pcb seg rest (x ∷ xs) pcb' a w =
    (w.0, Wait-first_sent tcp_ticks pcb seg rest xs pcb' a w.1)

Wait-first :
    (tcp_ticks : ℕ) (pcb : Pcb) (seg : Seg) (rest xs : List Seg) (pcb' : Pcb)
    → Wait (first_sent tcp_ticks pcb seg rest) xs pcb'
    → Wait pcb (seg ∷ xs) pcb'
Wait-first tcp_ticks pcb seg rest xs pcb' w =
    let base =
      unacked-first_sent tcp_ticks pcb seg rest pcb'.unacked
        (Wait-old (first_sent tcp_ticks pcb seg rest) xs pcb' w) in
    (base.1, Wait-first_sent tcp_ticks pcb seg rest xs pcb' base.0 w)

posts-first_sent :
    (tcp_ticks : ℕ) (pcb : Pcb) (seg : Seg) (rest xs : List Seg)
    → posts (first_sent tcp_ticks pcb seg rest) xs ≡ posts pcb xs
posts-first_sent tcp_ticks pcb seg rest [] = refl
posts-first_sent tcp_ticks pcb seg rest (x ∷ xs) =
    ap (◌∷◌ (post_of pcb x)) (posts-first_sent tcp_ticks pcb seg rest xs)

posted_first :
    (tcp_ticks : ℕ) (pcb : Pcb) (seg : Seg) (rest xs : List Seg) (before after : List Posted)
    → after ≡ (before ++ (post_of pcb seg ∷ [])) ++ posts (first_sent tcp_ticks pcb seg rest) xs
    → after ≡ before ++ posts pcb (seg ∷ xs)
posted_first tcp_ticks pcb seg rest xs before after e =
    e
    ∙ append_assoc before (post_of pcb seg ∷ []) (posts (first_sent tcp_ticks pcb seg rest) xs)
    ∙ ap (λ ps. before ++ (post_of pcb seg ∷ ps)) (posts-first_sent tcp_ticks pcb seg rest xs)

Stopped-first_sent :
    (tcp_ticks : ℕ) (pcb : Pcb) (seg : Seg) (rest ys : List Seg) (pcb' : Pcb)
    → Stopped (first_sent tcp_ticks pcb seg rest) pcb' ys
    → Stopped pcb pcb' ys
Stopped-first_sent tcp_ticks pcb seg rest [] pcb' t = tt
Stopped-first_sent tcp_ticks pcb seg rest (y ∷ ys) pcb' t = t

-- The first segment is sent, and then others.
pub Sends-first :
    (tcp_ticks : ℕ) (pcb : Pcb) (seg : Seg) (rest : List Seg) (r : Err × Pcb)
    (before after : List Posted)
    → fits pcb seg ≡ true
    → Sends (first_sent tcp_ticks pcb seg rest) rest r (before ++ (post_of pcb seg ∷ [])) after
    → Sends pcb (seg ∷ rest) r before after
Sends-first tcp_ticks pcb seg rest r before after f (xs, ys, e, a, inl (o, u, t, w, p)) = (
  seg ∷ xs,
  ys,
  ap (◌∷◌ seg) e,
  (f, a),
  inl (
    o,
    u,
    Stopped-first_sent tcp_ticks pcb seg rest ys r.1 t,
    Wait-first tcp_ticks pcb seg rest xs r.1 w,
    posted_first tcp_ticks pcb seg rest xs before after p,
  ),
)
Sends-first tcp_ticks pcb seg rest r before after f
      (xs, ys, e, a, inr (o, (y, left, l, g, u, w, p))) =
    (
      seg ∷ xs,
      ys,
      ap (◌∷◌ seg) e,
      (f, a),
      inr (
        o,
        (
          y,
          left,
          l,
          g,
          u,
          Wait-first tcp_ticks pcb seg rest xs r.1 w,
          posted_first tcp_ticks pcb seg rest (xs ++ (y ∷ [])) before after p,
        ),
      ),
    )

-- The test at the head of the loop, split into its two reasons.
pub stop_reason : (f n m : Bool) → (not f || not n && not m) ≡ true → (f ≡ false) ⊎ (n ≡ false)
stop_reason false n m e = inl refl
stop_reason true false m e = inr refl
stop_reason true true m e = ground arith

pub go_reason : (f n : Bool) → (not f || n) ≡ false → f ≡ true
go_reason true n e = refl
go_reason false n e = ground arith
