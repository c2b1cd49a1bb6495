-- ===== src/Tcp/RcvWnd.antt =====
-- src/tcp.c: the announced receive window, `tcp_update_rcv_ann_wnd`.
use rudp.Prelude.{
  ltb→le, ltb→lt, leb→le, ◌/◌, ℕ, ◌+◌, ◌-◌, ◌%◌, ◌≤◌, ◌<◌, ◌≡◌, refl, ltb, leb, if◌then◌else◌,
  arith, min, Bool-cases, inl, inr,
}
use rudp.Pbuf.{u16_mod}
use rudp.Tcp.Seq.{u32_mod, seq_sub, seq_geq, seq_gt, seq_geq-leb, seq_gt-ltb}
use rudp.Tcp.Types.{Pcb, tcp_wnd}

-- `tcp_update_rcv_ann_wnd`: how much more is announced, and the control block.
unfoldable pub update_rcv_ann_wnd : Pcb → ℕ × Pcb
unfolding seq_geq seq_gt
update_rcv_ann_wnd pcb =
    let new_right_edge = (pcb.rcv_nxt + pcb.rcv_wnd) % u32_mod in
    if seq_geq new_right_edge ((pcb.rcv_ann_right_edge + min (tcp_wnd / 2) pcb.mss) % u32_mod)
    then (seq_sub new_right_edge pcb.rcv_ann_right_edge, record pcb { rcv_ann_wnd = pcb.rcv_wnd })
    else if seq_gt pcb.rcv_nxt pcb.rcv_ann_right_edge
    then (0, record pcb { rcv_ann_wnd = 0 })
    else (0, record pcb { rcv_ann_wnd = seq_sub pcb.rcv_ann_right_edge pcb.rcv_nxt % u16_mod })

-- The update changes only the announced window.
pub update_rcv_ann_wnd-keeps :
    (pcb : Pcb)
    → (update_rcv_ann_wnd pcb).1
      ≡ record pcb { rcv_ann_wnd = (update_rcv_ann_wnd pcb).1.rcv_ann_wnd }
unfolding update_rcv_ann_wnd
update_rcv_ann_wnd-keeps pcb = ground arith

-- The control block stands at the positions `nxt` and `edge` of the stream of received bytes: the
-- next byte that is expected, and the first byte behind the announced window.
pub record StandsAt (pcb : Pcb) (nxt edge : ℕ) : Type 0 where
  pub nxt_low : pcb.rcv_nxt ≡ nxt % u32_mod
  pub edge_low : pcb.rcv_ann_right_edge ≡ edge % u32_mod
  pub wnd_le : pcb.rcv_wnd ≤ tcp_wnd
  pub mss_lt : pcb.mss < u16_mod
  pub edge_le : edge ≤ nxt + pcb.rcv_wnd
  pub nxt_le : nxt ≤ edge + tcp_wnd

-- What an update leaves behind: the announced window and the result.
abbrev pub Announced : Pcb → (nxt edge : ℕ) → ℕ × Pcb → Type 0
Announced pcb nxt edge (more, pcb') =
    (pcb' ≡ record pcb { rcv_ann_wnd = pcb'.rcv_ann_wnd })
    × (pcb'.rcv_ann_wnd ≤ pcb.rcv_wnd)
    × (edge ≤ nxt + pcb'.rcv_ann_wnd)
    × (if leb (edge + min (tcp_wnd / 2) pcb.mss) (nxt + pcb.rcv_wnd)
        then (nxt + pcb'.rcv_ann_wnd ≡ edge + more) × (pcb'.rcv_ann_wnd ≡ pcb.rcv_wnd)
        else (more ≡ 0) × (pcb'.rcv_ann_wnd ≡ edge - nxt))

-- The branches that keep the right edge.
keep_edge :
    (pcb : Pcb) (nxt edge : ℕ)
    → StandsAt pcb nxt edge
    → let r : ℕ × Pcb =
        if seq_gt pcb.rcv_nxt pcb.rcv_ann_right_edge then (0, record pcb { rcv_ann_wnd = 0 }) else (
          0,
          record pcb { rcv_ann_wnd = seq_sub pcb.rcv_ann_right_edge pcb.rcv_nxt % u16_mod },
        ) in
      (r.1 ≡ record pcb { rcv_ann_wnd = r.1.rcv_ann_wnd })
      × (r.1.rcv_ann_wnd ≤ pcb.rcv_wnd)
      × (edge ≤ nxt + r.1.rcv_ann_wnd)
      × ((r.0 ≡ 0) × (r.1.rcv_ann_wnd ≡ edge - nxt))
keep_edge pcb nxt edge s =
    let g : seq_gt pcb.rcv_nxt pcb.rcv_ann_right_edge ≡ ltb edge nxt =
      rw (s.nxt_low, s.edge_low)
        (seq_gt-ltb nxt edge (omega (arith, s.nxt_le)) (omega (arith, s.edge_le, s.wnd_le))) in
    elim (Bool-cases (ltb edge nxt)) [
      | inl past ↦
          let h = ltb→lt edge nxt past in
          rw (g, past) (refl, omega arith, omega arith, (refl, omega arith))
      | inr before ↦
          let h = ltb→le edge nxt before in
          let d : seq_sub pcb.rcv_ann_right_edge pcb.rcv_nxt % u16_mod ≡ edge - nxt =
            omega (arith, s.nxt_low, s.edge_low, s.edge_le, s.wnd_le) in
          rw (g, before) (refl, omega (arith, d, s.edge_le), omega (arith, d), (refl, d))
    ]

-- When the announced window ends neither behind the available one nor a whole window before the
-- next byte, an update changes only the announced window. It never takes back what was announced,
-- and never announces more than is available. It announces all that is available, and returns by
-- how much the right edge moves, exactly if that is at least the smaller of half a window and the
-- mss; else it keeps the right edge and returns 0. This holds across the wrap of the sequence
-- numbers.
pub update_rcv_ann_wnd-Announced :
    (pcb : Pcb) (nxt edge : ℕ)
    → StandsAt pcb nxt edge
    → Announced pcb nxt edge (update_rcv_ann_wnd pcb)
unfolding update_rcv_ann_wnd
update_rcv_ann_wnd-Announced pcb nxt edge s =
    let step = min (tcp_wnd / 2) pcb.mss in
    let e : (pcb.rcv_nxt + pcb.rcv_wnd) % u32_mod ≡ (nxt + pcb.rcv_wnd) % u32_mod =
      omega (arith, s.nxt_low) in
    let f : (pcb.rcv_ann_right_edge + step) % u32_mod ≡ (edge + step) % u32_mod =
      omega (arith, s.edge_low) in
    let g =
      seq_geq-leb (nxt + pcb.rcv_wnd) (edge + step) (omega (arith, s.edge_le, s.nxt_le))
        (omega (arith, s.edge_le, s.nxt_le)) in
    let more : seq_sub ((nxt + pcb.rcv_wnd) % u32_mod) pcb.rcv_ann_right_edge
        ≡ nxt + pcb.rcv_wnd - edge =
      omega (arith, s.edge_low, s.edge_le, s.nxt_le, s.wnd_le) in
    elim (Bool-cases (leb (edge + step) (nxt + pcb.rcv_wnd))) [
      | inl grows ↦
          let h = leb→le (edge + step) (nxt + pcb.rcv_wnd) grows in
          rw (e, f, g, grows)
            (refl, omega arith, omega (arith, s.edge_le), (omega (arith, more, s.edge_le), refl))
      | inr stays ↦ rw (e, f, g, stays) (keep_edge pcb nxt edge s)
    ]
