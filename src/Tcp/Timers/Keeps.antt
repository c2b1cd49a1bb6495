-- ===== src/Tcp/Timers/Keeps.antt =====
-- What the timers of src/tcp.c, and what they call of src/tcp_out.c, leave of the fields that the
-- timeouts are measured by.
use rudp.Pbuf.Read.{copy_partial}
use rudp.Tcp.Seq.{seq_sub}
use rudp.Tcp.Segs.{seg_free}
use rudp.Pbuf.Alloc.{alloc, Buffers}
use rudp.Tcp.Out.Rexmit.{
  put_data, keepalive, rexmit_rto, zero_window_probe, requeue_unacked, finish_probe, probe_first,
}
use rudp.Tcp.Out.Output.{
  is_ok, do_output_nagle, sent, fits, prepare, output_segment, send_empty_ack, output, output_loop,
  finish_ack,
}
use rudp.Tcp.Out.Make.{is_empty, output_alloc_header, header_packet}
use rudp.Pbuf.{tot_len, ram, u16_mod, ip, Chain}
use rudp.Tcp.Env.{Env}
use rudp.Tcp.Types.{tcp_hlen, tcplen, Seg, TcpHdr, Pcb}
use rudp.Prelude.{
  ◌-◌, ◌++◌, if_elim, ◌==◌, false, none, inr, some, inl, ◌&&◌, ◌%◌, ◌||◌, ◌+◌, Bool-cases, ltb, not,
  if◌then◌else◌, true, [], ◌∷◌, List, Bool, ℕ, ◌∙◌, ◌≡◌, Option, refl,
}

abbrev pub KeepsTimes : Pcb → Pcb → Type 0
KeepsTimes a b = (b.state ≡ a.state) × (b.tmr ≡ a.tmr) × (b.last_timer ≡ a.last_timer)

pub KeepsTimes-trans : (a b c : Pcb) → KeepsTimes a b → KeepsTimes b c → KeepsTimes a c
KeepsTimes-trans a b c h k = (k.0 ∙ h.0, k.1 ∙ h.1, k.2 ∙ h.2)

header_packet-Keeps :
    (e : Option Chain) (pcb : Pcb) (optlen seqno : ℕ)
    → KeepsTimes pcb (header_packet e pcb optlen seqno).1
header_packet-Keeps none pcb optlen seqno = (refl, refl, refl)
header_packet-Keeps (some p) pcb optlen seqno = (refl, refl, refl)

requeue_unacked-Keeps : (pcb : Pcb) → KeepsTimes pcb (requeue_unacked pcb)
unfolding requeue_unacked
requeue_unacked-Keeps pcb = (refl, refl, refl)

module _ {W : Type 0} (env : Env W) (tcp_ticks : ℕ) where
  finish_ack-Keeps :
      (e : Option (TcpHdr × Chain)) (pcb : Pcb) (s : Buffers W)
      → KeepsTimes pcb (finish_ack env tcp_ticks e pcb s).1
  unfolding finish_ack
  finish_ack-Keeps none pcb s = (refl, refl, refl)
  finish_ack-Keeps (some (tcphdr, p)) pcb s = (refl, refl, refl)

  output_loop-Keeps :
      (segs : List Seg) (pcb : Pcb) (s : Buffers W)
      → KeepsTimes pcb (output_loop env tcp_ticks segs pcb s).1
  unfolding output_loop output_segment
  output_loop-Keeps [] pcb s = (refl, refl, refl)
  output_loop-Keeps (seg ∷ rest) pcb s =
      let (err, seg', pcb', s') = output_segment env tcp_ticks (prepare pcb seg) pcb s in
      let s2 = if ltb 0 (tcplen seg') then s' else seg_free env s' seg' in
      let next = sent pcb' seg' rest in
      elim (Bool-cases (
        not (fits pcb seg)
        || not (do_output_nagle pcb) && not (pcb.flags.nagle_mem_err || pcb.flags.fin))) [
          | inl stops ↦ rw stops (refl, refl, refl)
          | inr goes ↦ elim (Bool-cases (is_ok err)) [
            | inl fine ↦
                rw (goes, fine)
                  (KeepsTimes-trans pcb next (output_loop env tcp_ticks rest next s2).1
                    (refl, refl, refl) (output_loop-Keeps rest next s2))
            | inr failed ↦ rw (goes, failed) (refl, refl, refl)
          ]
        ]

  -- `tcp_output` keeps the state of the connection, and when it was last active.
  pub output-Keeps :
      (is_input_pcb : Bool) (pcb : Pcb) (s : Buffers W)
      → KeepsTimes pcb (output env tcp_ticks is_input_pcb pcb s).1
  unfolding output send_empty_ack output_alloc_header
  output-Keeps true pcb s = (refl, refl, refl)
  output-Keeps false pcb s =
      let ack_only : Bool = elim pcb.unsent [ [] ↦ true | seg ∷ rest ↦ not (fits pcb seg) ] in
      let (e, s') = alloc env.mem_malloc s ip ((tcp_hlen + 0 + 0) % u16_mod) ram in
      let (packet, pcb') = header_packet e pcb 0 pcb.snd_nxt in
      elim (Bool-cases (pcb.flags.ack_now && ack_only)) [
        | inl ack ↦ rw ack (
            KeepsTimes-trans pcb pcb' (finish_ack env tcp_ticks packet pcb' s').1
              (header_packet-Keeps e pcb 0 pcb.snd_nxt) (finish_ack-Keeps packet pcb' s'))
        | inr segs ↦ rw segs (output_loop-Keeps pcb.unsent pcb s)
      ]

  finish_probe-Keeps :
      (e : Option (TcpHdr × Chain)) (is_fin : Bool) (pcb : Pcb) (s : Buffers W)
      → KeepsTimes pcb (finish_probe env tcp_ticks e is_fin pcb s).1
  unfolding finish_probe
  finish_probe-Keeps none is_fin pcb s = (refl, refl, refl)
  finish_probe-Keeps (some (tcphdr, p)) is_fin pcb s = (refl, refl, refl)

  output_alloc_header-Keeps :
      (pcb : Pcb) (optlen datalen seqno : ℕ) (s : Buffers W)
      → KeepsTimes pcb (output_alloc_header env pcb optlen datalen seqno s).1
  unfolding output_alloc_header
  output_alloc_header-Keeps pcb optlen datalen seqno s =
      header_packet-Keeps
        (alloc env.mem_malloc s ip ((tcp_hlen + optlen + datalen) % u16_mod) ram).0 pcb optlen seqno

  probe_first-Keeps :
      (segs : List Seg) (pcb : Pcb) (s : Buffers W)
      → KeepsTimes pcb (probe_first env tcp_ticks segs pcb s).1
  unfolding probe_first
  probe_first-Keeps [] pcb s = (refl, refl, refl)
  probe_first-Keeps (seg ∷ rest) pcb s =
      let is_fin = seg.tcphdr.flags.fin && seg.len == 0 in
      let len = if is_fin then 0 else 1 in
      let (e, pcb', s') = output_alloc_header env pcb 0 len seg.tcphdr.seqno s in
      let data_byte = copy_partial seg.p 1 ((tot_len seg.p + u16_mod - seg.len) % u16_mod) in
      let e' = if is_fin then e else put_data env tcp_ticks e data_byte in
      KeepsTimes-trans pcb pcb' (finish_probe env tcp_ticks e' is_fin pcb' s').1
        (output_alloc_header-Keeps pcb 0 len seg.tcphdr.seqno s)
        (finish_probe-Keeps e' is_fin pcb' s')

  pub zero_window_probe-Keeps :
      (pcb : Pcb) (s : Buffers W) → KeepsTimes pcb (zero_window_probe env tcp_ticks pcb s).1
  unfolding zero_window_probe
  zero_window_probe-Keeps pcb s = probe_first-Keeps (pcb.unacked ++ pcb.unsent) pcb s

  pub keepalive-Keeps :
      (pcb : Pcb) (s : Buffers W) → KeepsTimes pcb (keepalive env tcp_ticks pcb s).1
  unfolding keepalive
  keepalive-Keeps pcb s =
      let (e, pcb', s') = output_alloc_header env pcb 0 0 (seq_sub pcb.snd_nxt 1) s in
      KeepsTimes-trans pcb pcb' (finish_probe env tcp_ticks e false pcb' s').1
        (output_alloc_header-Keeps pcb 0 0 (seq_sub pcb.snd_nxt 1) s)
        (finish_probe-Keeps e false pcb' s')

  pub rexmit_rto-Keeps :
      (is_input_pcb : Bool) (pcb : Pcb) (s : Buffers W)
      → KeepsTimes pcb (rexmit_rto env tcp_ticks is_input_pcb pcb s).0
  unfolding rexmit_rto
  rexmit_rto-Keeps is_input_pcb pcb s =
      let requeued = requeue_unacked pcb in
      let out = output env tcp_ticks is_input_pcb requeued s in
      if_elim (λ (r : Pcb × Buffers W). KeepsTimes pcb r.0) (is_empty pcb.unacked) (pcb, s)
        (out.1, out.2) (λ h. (refl, refl, refl))
        (λ h.
          KeepsTimes-trans pcb requeued out.1 (requeue_unacked-Keeps pcb)
            (output-Keeps is_input_pcb requeued s))
