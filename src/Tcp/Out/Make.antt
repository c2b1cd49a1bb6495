-- ===== src/Tcp/Out/Make.antt =====
-- src/tcp_out.c: `tcp_output_alloc_header`, `tcp_create_segment` and `tcp_pbuf_prealloc`.
use rudp.Prelude.{
  ℕ, ◌+◌, ◌-◌, ◌/◌, ◌%◌, Bool, true, false, not, ◌&&◌, ◌||◌, List, [], ◌∷◌, Option, none, some, ltb,
  min, if◌then◌else◌, ◌==◌, length,
}
use rudp.Prelude.Int.{pos}
use rudp.Memp.{tcp_seg, memp_malloc}
use rudp.Pbuf.{Chain, PbufLayer, ip, ram, u16_mod, tot_len}
use rudp.Pbuf.Alloc.{Buffers, alloc}
use rudp.Pbuf.Header.{header}
use rudp.Pbuf.Release.{release}
use rudp.Pbuf.Write.{write_payload}
use rudp.Tcp.Seq.{u32_mod}
use rudp.Tcp.Types.{Pcb, Seg, TcpHdr, HdrFlags, no_hdr_flags, opt_length, tcp_hlen, tcp_mss}
use rudp.Tcp.Env.{Env}
use rudp.Tcp.Segs.{seg_free}

-- The payload offset of the first pbuf.
abbrev pub head_payload : Chain → ℕ
head_payload [] = 0
head_payload (p ∷ ps) = p.payload

abbrev pub is_empty {ℓ} : {A : Type ℓ} → List A → Bool
is_empty [] = true
is_empty (x ∷ xs) = false

-- A single pbuf, cut down to its used size.
abbrev pub trim : Chain → ℕ → Chain
trim [] len = []
trim (p ∷ ps) len = record p { len = len; tot_len = len } ∷ ps

-- The same of a new pbuf, with the number of bytes to spare at its end.
abbrev pub spare : Option Chain → (length : ℕ) → Option (Chain × ℕ)
spare none length = none
spare (some p) length = some (trim p length, (tot_len p + u16_mod - length) % u16_mod)

-- Bytes written at an offset of the first payload.
abbrev pub write_head : Chain → ℕ → List ℕ → Chain
write_head [] at data_bytes = []
write_head (p ∷ ps) at data_bytes = write_payload p at data_bytes ∷ ps

-- The header in the pbuf of `tcp_output_alloc_header`, and the control block with the announced
-- right edge that the packet will tell.
abbrev pub header_packet : Option Chain → Pcb → (optlen seqno : ℕ) → Option (TcpHdr × Chain) × Pcb
header_packet none pcb optlen seqno = (none, pcb)
header_packet (some p) pcb optlen seqno =
    let hdr : TcpHdr = record {
      conn_id = pcb.conn_id;
      seqno = seqno;
      ackno = pcb.rcv_nxt;
      hdrlen = 5 + optlen / 4;
      flags = record no_hdr_flags { ack = true };
      wnd = pcb.rcv_ann_wnd;
    } in
    (some (hdr, p), record pcb { rcv_ann_right_edge = (pcb.rcv_nxt + pcb.rcv_ann_wnd) % u32_mod })

module _ {W : Type 0} (env : Env W) where
  -- `tcp_output_alloc_header`.
  unfoldable pub output_alloc_header :
      Pcb → (optlen datalen seqno : ℕ) → Buffers W → Option (TcpHdr × Chain) × Pcb × Buffers W
  unfolding alloc
  output_alloc_header pcb optlen datalen seqno s =
      let (e, s') = alloc env.mem_malloc s ip ((tcp_hlen + optlen + datalen) % u16_mod) ram in
      let (packet, pcb') = header_packet e pcb optlen seqno in (packet, pcb', s')

  -- The segment of `tcp_create_segment`, once its element is allocated, or not.
  unfoldable pub build_segment :
      Option (List ℕ)
      → Pcb
      → Chain
      → HdrFlags
      → (seqno : ℕ) → (opt_mss : Bool) → Buffers W
      → Option Seg × Buffers W
  unfolding release header seg_free
  build_segment none pcb p flags seqno opt_mss s = (none, release env.mem_free s p)
  build_segment (some b) pcb p flags seqno opt_mss s =
      let optlen = opt_length opt_mss in
      let (p', refused) = header p (pos tcp_hlen) in
      let seg : Seg = record {
        p = p';
        len = (tot_len p + u16_mod - optlen) % u16_mod;
        oversize_left = 0;
        opt_mss = opt_mss;
        hdr_at = head_payload p';
        tcphdr = record {
          conn_id = pcb.conn_id;
          seqno = seqno;
          ackno = 0;
          hdrlen = 5 + optlen / 4;
          flags = flags;
          wnd = 0;
        };
      } in
      if refused == 0 then (some seg, s) else (none, seg_free env s seg)

  -- `tcp_create_segment`. On failure the pbufs are freed.
  unfoldable pub create_segment :
      Pcb → Chain → HdrFlags → (seqno : ℕ) → (opt_mss : Bool) → Buffers W → Option Seg × Buffers W
  unfolding memp_malloc build_segment
  create_segment pcb p flags seqno opt_mss s =
      let (e, m) = memp_malloc s.memp tcp_seg in
      build_segment e pcb p flags seqno opt_mss (record s { memp = m })

  -- `tcp_pbuf_prealloc`: a pbuf, and the number of bytes to spare at its end. An oversized one has
  -- up to TCP_OVERSIZE, which is TCP_MSS, bytes more.
  unfoldable pub pbuf_prealloc :
      PbufLayer
      → (length max_length : ℕ) → Pcb
      → (more first_seg : Bool) → Buffers W
      → Option (Chain × ℕ) × Buffers W
  unfolding alloc
  pbuf_prealloc layer length max_length pcb more first_seg s =
      let oversized =
        ltb length max_length
        && (more
            || not pcb.flags.nodelay
              && (not first_seg || not (is_empty pcb.unsent) || not (is_empty pcb.unacked))) in
      let size = if oversized then min max_length (length + tcp_mss) else length in
      let (e, s') = alloc env.mem_malloc s layer size ram in (spare e length, s')
