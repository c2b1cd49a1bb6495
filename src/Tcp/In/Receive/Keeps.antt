-- ===== src/Tcp/In/Receive/Keeps.antt =====
-- What `tcp_receive` of src/tcp_in.c leaves of the state of a connection, and of the next number to
-- be sent.
use rudp.Tcp.Segs.{seg_free}
use rudp.Tcp.Seq.{seq_between, u32_mod, seq_leq}
use rudp.Pbuf.Alloc.{alloc, Buffers}
use rudp.Tcp.Out.Make.{is_empty, output_alloc_header, header_packet}
use rudp.Tcp.Out.Output.{finish_ack, send_empty_ack}
use rudp.Pbuf.{ram, u16_mod, ip, Chain}
use rudp.Tcp.Types.{tcp_hlen, TcpHdr, Seg, Pcb}
use rudp.Tcp.Env.{Env}
use rudp.Prelude.{
  refl, none, ◌==◌, ltb, inr, some, inl, ◌%◌, if◌then◌else◌, ◌+◌, not, [], ◌∷◌, Bool-cases, arith,
  ◌∙◌, List, ℕ, ◌≡◌, Option,
}
use rudp.Tcp.Out.Rexmit.{rexmit_fast, rexmit, requeue_first}
use rudp.Tcp.In.Ack.{
  seg_end, is_dupack, forget, new_ack, remove_unacked, remove_unsent, estimate_rtt, receive_ack,
  ack_cases, count_dupack, Incoming, old_ack, update_window,
}

abbrev pub Keeps : Pcb → Pcb → Type 0
Keeps a b = (b.state ≡ a.state) × (b.snd_nxt ≡ a.snd_nxt)

Keeps-trans : (a b c : Pcb) → Keeps a b → Keeps b c → Keeps a c
Keeps-trans a b c h k = (k.0 ∙ h.0, k.1 ∙ h.1)

header_packet-Keeps :
    (e : Option Chain) (pcb : Pcb) (optlen seqno : ℕ)
    → Keeps pcb (header_packet e pcb optlen seqno).1
header_packet-Keeps none pcb optlen seqno = (refl, refl)
header_packet-Keeps (some p) pcb optlen seqno = (refl, refl)

update_window-Keeps : (pcb : Pcb) (i : Incoming) → Keeps pcb (update_window pcb i)
unfolding update_window
update_window-Keeps pcb i = ground arith

requeue_first-Keeps : (segs : List Seg) (pcb : Pcb) → Keeps pcb (requeue_first segs pcb)
unfolding requeue_first
requeue_first-Keeps [] pcb = (refl, refl)
requeue_first-Keeps (seg ∷ rest) pcb = (refl, refl)

pub rexmit-Keeps : (pcb : Pcb) → Keeps pcb (rexmit pcb)
unfolding rexmit
rexmit-Keeps pcb = requeue_first-Keeps pcb.unacked pcb

rexmit_fast-Keeps : (pcb : Pcb) → Keeps pcb (rexmit_fast pcb)
unfolding rexmit_fast
rexmit_fast-Keeps pcb = ground (arith, rexmit-Keeps pcb)

old_ack-Keeps : (pcb : Pcb) (i : Incoming) (edge : ℕ) → Keeps pcb (old_ack pcb i edge)
unfolding old_ack
old_ack-Keeps pcb i edge =
    let counted = record pcb { acked = 0; dupacks = count_dupack pcb.dupacks } in
    let k = rexmit_fast-Keeps counted in
    elim (Bool-cases (not (is_dupack pcb i edge))) [
      | inl fresh ↦ rw fresh (refl, refl)
      | inr dup ↦ rw dup (elim (Bool-cases (ltb 3 (count_dupack pcb.dupacks))) [
        | inl many ↦ rw many (refl, refl)
        | inr few ↦ rw few (elim (Bool-cases (count_dupack pcb.dupacks == 3)) [
          | inl third ↦ rw third k
          | inr other ↦ rw other (refl, refl)
        ])
      ])
    ]

module _ {W : Type 0} (env : Env W) (tcp_ticks : ℕ) where
  finish_ack-Keeps :
      (e : Option (TcpHdr × Chain)) (pcb : Pcb) (s : Buffers W)
      → Keeps pcb (finish_ack env tcp_ticks e pcb s).1
  unfolding finish_ack
  finish_ack-Keeps none pcb s = (refl, refl)
  finish_ack-Keeps (some (tcphdr, p)) pcb s = (refl, refl)

  pub send_empty_ack-Keeps :
      (pcb : Pcb) (s : Buffers W) → Keeps pcb (send_empty_ack env tcp_ticks pcb s).1
  unfolding send_empty_ack output_alloc_header
  send_empty_ack-Keeps pcb s =
      let (e, s') = alloc env.mem_malloc s ip ((tcp_hlen + 0 + 0) % u16_mod) ram in
      let h = header_packet e pcb 0 pcb.snd_nxt in
      Keeps-trans pcb h.1 (finish_ack env tcp_ticks h.0 h.1 s').1
        (header_packet-Keeps e pcb 0 pcb.snd_nxt) (finish_ack-Keeps h.0 h.1 s')

  remove_unacked-Keeps :
      (segs : List Seg) (pcb : Pcb) (ackno : ℕ) (s : Buffers W)
      → Keeps pcb (remove_unacked env tcp_ticks segs pcb ackno s).0
  unfolding remove_unacked
  remove_unacked-Keeps [] pcb ackno s = (refl, refl)
  remove_unacked-Keeps (seg ∷ rest) pcb ackno s =
      let ih =
        remove_unacked-Keeps rest (record (forget pcb seg) { unacked = rest }) ackno
          (seg_free env s seg) in
      elim (Bool-cases (seq_leq (seg_end seg) ackno)) [
        | inl old ↦ rw old ih
        | inr new ↦ rw new (refl, refl)
      ]

  remove_unsent-Keeps :
      (segs : List Seg) (pcb : Pcb) (ackno : ℕ) (s : Buffers W)
      → Keeps pcb (remove_unsent env tcp_ticks segs pcb ackno s).0
  unfolding remove_unsent
  remove_unsent-Keeps [] pcb ackno s = (refl, refl)
  remove_unsent-Keeps (seg ∷ rest) pcb ackno s =
      let removed = record (forget pcb seg) {
        unsent = rest;
        unsent_oversize = if is_empty rest then 0 else pcb.unsent_oversize;
      } in
      let ih = remove_unsent-Keeps rest removed ackno (seg_free env s seg) in
      elim (Bool-cases (seq_between ackno (seg_end seg) pcb.snd_nxt)) [
        | inl old ↦ rw old ih
        | inr new ↦ rw new (refl, refl)
      ]

  estimate_rtt-Keeps : (pcb : Pcb) (ackno : ℕ) → Keeps pcb (estimate_rtt env tcp_ticks pcb ackno)
  unfolding estimate_rtt
  estimate_rtt-Keeps pcb ackno = ground arith

  ack_cases-Keeps :
      (pcb : Pcb) (i : Incoming) (edge : ℕ) (s : Buffers W)
      → Keeps pcb (ack_cases env tcp_ticks pcb i edge s).0
  unfolding ack_cases new_ack
  ack_cases-Keeps pcb i edge s =
      let removed = remove_unacked-Keeps pcb.unacked (new_ack pcb i) i.ackno s in
      elim (Bool-cases (seq_leq i.ackno pcb.lastack)) [
        | inl old ↦ rw old (old_ack-Keeps pcb i edge)
        | inr new ↦
            rw new
              (elim (Bool-cases (seq_between i.ackno ((pcb.lastack + 1) % u32_mod) pcb.snd_nxt)) [
                | inl fits ↦ rw fits removed
                | inr off ↦ rw off (send_empty_ack-Keeps (record pcb { acked = 0 }) s)
              ])
      ]

  pub receive_ack-Keeps :
      (pcb : Pcb) (i : Incoming) (s : Buffers W) → Keeps pcb (receive_ack env tcp_ticks pcb i s).0
  unfolding receive_ack
  receive_ack-Keeps pcb i s =
      let edge = (pcb.snd_wnd + pcb.snd_wl2) % u32_mod in
      let pcb0 = update_window pcb i in
      let (pcb1, s1) = ack_cases env tcp_ticks pcb0 i edge s in
      let (pcb2, s2) = remove_unsent env tcp_ticks pcb1.unsent pcb1 i.ackno s1 in
      let pcb3 = estimate_rtt env tcp_ticks pcb2 i.ackno in
      Keeps-trans pcb pcb0 pcb3 (update_window-Keeps pcb i) (
        Keeps-trans pcb0 pcb1 pcb3 (ack_cases-Keeps pcb0 i edge s) (
          Keeps-trans pcb1 pcb2 pcb3 (remove_unsent-Keeps pcb1.unsent pcb1 i.ackno s1)
            (estimate_rtt-Keeps pcb2 i.ackno)))
