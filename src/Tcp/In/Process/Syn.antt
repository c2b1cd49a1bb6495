-- ===== src/Tcp/In/Process/Syn.antt =====
-- How `tcp_process` of src/tcp_in.c establishes and resets a connection, against the state diagram
-- of RFC 793.
use rudp.Tcp.In.Receive.Keeps.{rexmit-Keeps}
use rudp.Tcp.Out.Rexmit.{rexmit}
use rudp.Tcp.In.Process.After.{stay}
use rudp.Tcp.In.Receive.Open.{StateKept, receive-KeepsOpen}
use rudp.Tcp.In.Receive.{receive}
use rudp.Tcp.Out.Output.{is_ok, is_abrt}
use rudp.Pbuf.Alloc.{Buffers}
use rudp.Tcp.In.Inseg.{seq_add}
use rudp.Err.{ok, Err}
use rudp.Tcp.In.Process.{
  acceptable, unreceived, Processed, accepted, process_syn_rcvd, seg_free, syn_acked,
  report_connected, refuse, process_syn_sent, report_accepted,
}
use rudp.Tcp.In.Process.Rfc.{
  rst_in_window, rst_of_syn, rcv_fin, rcv_ack_of_syn, rcv_syn_ack, abort, Consistent, along, here,
  Allowed, AllowedIfAny, Arrow, Arrows, LeavesState,
}
use rudp.Tcp.App.{App}
use rudp.Tcp.Seq.{seq_between-window, half, seq_sub, u32_mod, seq_between}
use rudp.Tcp.Env.{Env}
use rudp.Tcp.Types.{is_state, closed, syn_rcvd, syn_sent, established, TcpState, Seg, Pcb}
use rudp.Prelude.{
  ◌∙◌, leb→le, ==_iff, if◌then◌else◌, if_elim, [], false, ◌==◌, ◌∷◌, inr, inl, ◌&&◌, Bool-cases,
  arith, ◌≤◌, List, sym, true, subst, ◌≡◌, ◌<◌, Bool, ℕ, refl,
}

pub from_state :
    (p : Pcb) (i : Seg) (got_fin aborted : Bool) (a b : TcpState)
    → p.state ≡ a
    → Arrows p i got_fin aborted a b
    → Arrows p i got_fin aborted p.state b
from_state p i got_fin aborted a b e h = subst (λ st. Arrows p i got_fin aborted st b) (sym e) h

-- An acknowledgement that passes the test of the state SYN_RCVD is of the SYN, and of nothing that
-- was not sent.
acks_in_flight :
    (ackno lastack snd_nxt : ℕ)
    → ackno < u32_mod
    → lastack < u32_mod
    → snd_nxt < u32_mod
    → 0 < seq_sub snd_nxt lastack
    → seq_sub snd_nxt lastack < half
    → seq_between ackno (seq_add lastack 1) snd_nxt ≡ true
    → (0 < seq_sub ackno lastack) × (seq_sub ackno lastack ≤ seq_sub snd_nxt lastack)
unfolding seq_between
acks_in_flight ackno lastack snd_nxt a b c d e h = ground arith

is_syn_sent : (st : TcpState) → is_state st syn_sent ≡ true → st ≡ syn_sent
is_syn_sent syn_sent e = refl
is_syn_sent st e = cc

pub reset-Arrow :
    (p : Pcb) (i : Seg)
    → Consistent p i
    → i.tcphdr.flags.rst ≡ true
    → acceptable p i ≡ true
    → Arrow p i false false p.state closed
unfolding acceptable
reset-Arrow p i c r a = elim (Bool-cases (is_state p.state syn_sent)) [
  | inl e ↦
      let h : (if true then i.tcphdr.ackno == p.snd_nxt else true) ≡ true = rw e at a in
      subst (λ st. Arrow p i false false st closed) (sym (is_syn_sent p.state e))
        (rst_of_syn r ((==_iff _ _).0 h))
  | inr e ↦ rst_in_window e r (
      leb→le _ _ (
        sym (
          seq_between-window i.tcphdr.seqno p.rcv_nxt p.rcv_wnd c.seqno_lt c.rcv_nxt_lt
            (omega (arith, c.rcv_wnd_lt)))
        ∙ (rw e at a)))
]

accepted-Arrows :
    (p : Pcb) (i : Seg) (q : Pcb) (got_fin : Bool)
    → StateKept established got_fin q.state
    → Arrows p i got_fin false established (accepted q got_fin).state
accepted-Arrows p i q true k = along (rcv_fin refl) here
accepted-Arrows p i q false (inl e) = stay p i false false established q.state e
accepted-Arrows p i q false (inr (x, y, f)) = cc

module _ {W : Type 0} (env : Env W) (tcp_ticks : ℕ) (app : App W) (leaves : LeavesState app) where
  pub process_syn_sent-Allowed :
      (segs : List Seg) (p : Pcb) (i : Seg) (s : Buffers W)
      → p.unacked ≡ segs
      → p.state ≡ syn_sent
      → AllowedIfAny p i (process_syn_sent env tcp_ticks app segs p i s)
  unfolding process_syn_sent refuse report_connected
  process_syn_sent-Allowed [] p i s u e =
      elim (Bool-cases (i.tcphdr.flags.ack && i.tcphdr.flags.syn)) [
        | inl both ↦ rw both tt
        | inr one ↦ rw one (elim (Bool-cases i.tcphdr.flags.ack) [
          | inl acked ↦ rw acked here
          | inr bare ↦ rw bare here
        ])
      ]
  process_syn_sent-Allowed (rseg ∷ rest) p i s u e =
      let c = app.connected (syn_acked p i rest) ok (seg_free env s rseg) in
      let est : c.1.state ≡ established =
        leaves.connected_state (syn_acked p i rest) ok (seg_free env s rseg) in
      elim (Bool-cases (
        i.tcphdr.flags.ack
        && i.tcphdr.flags.syn
        && i.tcphdr.ackno == seq_add rseg.tcphdr.seqno 1)) [
          | inl all ↦ rw all (elim (Bool-cases (is_abrt c.0)) [
            | inl ab ↦ rw ab (along (abort refl) here)
            | inr on ↦ rw on (
                from_state p i false false syn_sent c.1.state e (
                  along (rcv_syn_ack rseg rest (ground arith) (ground arith) u (ground arith))
                    (stay p i false false established c.1.state est)))
          ])
          | inr other ↦ rw other (elim (Bool-cases i.tcphdr.flags.ack) [
            | inl acked ↦ rw acked here
            | inr bare ↦ rw bare here
          ])
        ]

  report_accepted-Allowed :
      (p : Pcb) (i : Seg) (a : Err × Pcb × Buffers W)
      → a.1.state ≡ established
      → p.state ≡ syn_rcvd
      → i.tcphdr.flags.ack ≡ true
      → 0 < seq_sub i.tcphdr.ackno p.lastack
      → seq_sub i.tcphdr.ackno p.lastack ≤ seq_sub p.snd_nxt p.lastack
      → Allowed p i (report_accepted env tcp_ticks app a i)
  unfolding report_accepted
  report_accepted-Allowed p i a est e acked new in_flight =
      let r = receive env tcp_ticks a.1 i a.2 in
      let k = receive-KeepsOpen env tcp_ticks a.1 i a.2 in
      let g = r.delivery.got_fin in
      elim (Bool-cases (is_ok a.0)) [
        | inl taken ↦ rw taken (
            from_state p i g false syn_rcvd (accepted r.pcb g).state e (
              along (rcv_ack_of_syn acked new in_flight)
                (accepted-Arrows p i r.pcb g (subst (λ st. StateKept st g r.pcb.state) est k.0))))
        | inr refused ↦ rw refused (elim (Bool-cases (is_abrt a.0)) [
          | inl ab ↦ rw ab (along (abort refl) here)
          | inr other ↦ rw other (along (abort refl) here)
        ])
      ]

  pub process_syn_rcvd-Allowed :
      (p : Pcb) (i : Seg) (s : Buffers W)
      → Consistent p i
      → p.state ≡ syn_rcvd
      → Allowed p i (process_syn_rcvd env tcp_ticks app p i s)
  unfolding process_syn_rcvd refuse
  process_syn_rcvd-Allowed p i s c e =
      let p1 = record p { state = established } in
      let a = app.accept p1 ok s in
      let P = λ (r : Processed W). Allowed p i r in
      let fits = seq_between i.tcphdr.ackno (seq_add p.lastack 1) p.snd_nxt in
      let again = i.tcphdr.flags.syn && i.tcphdr.seqno == seq_sub p.rcv_nxt 1 in
      let taken = report_accepted env tcp_ticks app a i in
      let refused = refuse env tcp_ticks app p i s in
      let repeated = unreceived ok (rexmit p) i s in
      let ignored = unreceived ok p i s in
      if_elim P i.tcphdr.flags.ack (if fits then taken else refused)
        (if again then repeated else ignored)
        (λ acked.
          if_elim P fits taken refused
            (λ h.
              let nums =
                acks_in_flight i.tcphdr.ackno p.lastack p.snd_nxt c.ackno_lt c.lastack_lt
                  c.snd_nxt_lt (c.syn_out e) c.outstanding h in
              report_accepted-Allowed p i a (leaves.accept_state p1 ok s) e acked nums.0 nums.1)
            (λ h. here))
        (λ bare.
          if_elim P again repeated ignored
            (λ h. stay p i false false p.state (rexmit p).state (rexmit-Keeps p).0) (λ h. here))
