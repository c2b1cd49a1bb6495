-- ===== src/Tcp/In/Inseg/Trim.antt =====
-- What src/tcp_in.c cuts off the front of an incoming segment.
use rudp.Tcp.In.Ooseq.{data_end}
use rudp.Tcp.Seq.{seq_sub, u32_mod}
use rudp.Tcp.In.Ooseq.Dequeue.{IsWhole}
use rudp.Tcp.Types.{Seg}
use rudp.Pbuf.Header.{header_hide}
use rudp.Prelude.Int.{negsuc, sub_ℕ}
use rudp.Tcp.In.Rtt.{to_s16}
use rudp.Pbuf.{u16_mod, length-payload_bytes, payload_bytes, bytes, tot_len, IsChain, Chain}
use rudp.Tcp.In.Inseg.{trim_front, skip_front}
use rudp.Prelude.{
  ◌%◌, ◌+◌, ap, ◌∙◌, zero, ltb→le, drop-append_right, ltb→lt, drop_zero, le→not_ltb, false,
  drop-nil, sym, refl, [], inr, inl, ltb, Bool-cases, ◌∷◌, arith, drop, ◌-◌, ◌≡◌, ◌≤◌, ◌<◌, suc, ℕ,
}

to_s16-neg : (n : ℕ) → suc n < 32768 → to_s16 (sub_ℕ 0 (suc n)) ≡ negsuc n
to_s16-neg n h = ground arith

tot_len_lt : (ps : Chain) → IsChain ps → tot_len ps < u16_mod
tot_len_lt [] c = omega arith
tot_len_lt (p ∷ ps) c = c.2

-- The front of a chain, of at most as many bytes as there are, is skipped: the bytes behind it are
-- left, and the chain keeps its invariant.
skip_front-drop :
    (ps : Chain) (off : ℕ)
    → IsChain ps
    → off ≤ tot_len ps
    → off < 32768
    → (bytes (skip_front ps off (tot_len ps - off)) ≡ drop off (bytes ps))
      × IsChain (skip_front ps off (tot_len ps - off))
      × (tot_len (skip_front ps off (tot_len ps - off)) ≡ tot_len ps - off)
unfolding skip_front
skip_front-drop [] off c h k = (sym (drop-nil off), tt, omega (arith, h))
skip_front-drop (p ∷ ps) zero c h k =
    let e : ltb p.len 0 ≡ false = le→not_ltb 0 p.len (omega arith) in
    rw e (sym (drop_zero (bytes (p ∷ ps))), c, omega arith)
skip_front-drop (p ∷ ps) (suc m) c h k = elim (Bool-cases (ltb p.len (suc m))) [
  | inl short ↦
      let l = ltb→lt p.len (suc m) short in
      let n : p.tot_len - suc m ≡ tot_len ps - (suc m - p.len) = omega (arith, c.0) in
      let ih = skip_front-drop ps (suc m - p.len) c.3 (omega (arith, c.0)) (omega arith) in
      let d =
        drop-append_right (suc m) (payload_bytes p) (bytes ps)
          (omega (arith, length-payload_bytes p c.1)) in
      rw (short, n)
        (
          ih.0 ∙ sym (d ∙ ap (λ (a : ℕ). drop (suc m - a) (bytes ps)) (length-payload_bytes p c.1)),
          (omega (arith, ih.2), omega (arith, c.1), omega (arith, c.0, c.2), ih.1),
          refl,
        )
  | inr long ↦
      let l = ltb→le p.len (suc m) long in
      let hd = header_hide p ps m c l in rw (long, to_s16-neg m k) (hd.1, hd.2, omega (arith, hd.3))
]

-- A segment whose pbufs hold its data, and nothing else, and that starts before `rcv_nxt`, by less
-- than 32768 bytes, and reaches up to it: `trim_front` drops exactly the bytes in front of `rcv_nxt`, across the wrap of
-- the sequence numbers. The segment then starts at `rcv_nxt` and ends where it ended, and its pbufs
-- still hold its data and nothing else.
pub trim_front-drop :
    (i : Seg) (rcv_nxt : ℕ)
    → IsWhole i
    → i.tcphdr.seqno < u32_mod
    → rcv_nxt < u32_mod
    → seq_sub rcv_nxt i.tcphdr.seqno ≤ i.len
    → seq_sub rcv_nxt i.tcphdr.seqno < 32768
    → (bytes (trim_front i rcv_nxt).p ≡ drop (seq_sub rcv_nxt i.tcphdr.seqno) (bytes i.p))
      × ((trim_front i rcv_nxt).tcphdr.seqno ≡ rcv_nxt)
      × (data_end (trim_front i rcv_nxt) ≡ data_end i)
      × IsWhole (trim_front i rcv_nxt)
unfolding trim_front
trim_front-drop i rcv_nxt w a b h k =
    let off = seq_sub rcv_nxt i.tcphdr.seqno in
    let t = tot_len_lt i.p w.0 in
    let n : (tot_len i.p + u16_mod - off) % u16_mod ≡ tot_len i.p - off = omega (arith, w.1, t) in
    let m : (i.len + u16_mod - off % u16_mod) % u16_mod ≡ i.len - off = omega (arith, w.1, t) in
    let d = skip_front-drop i.p off w.0 (omega (arith, w.1)) k in
    rw (n, m) (d.0, refl, omega arith, (d.1, omega (arith, d.2, w.1)))
