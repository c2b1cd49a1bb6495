-- ===== src/Memp/Tests.antt =====
-- Runs of the memory pools.
use rudp.Prelude.{ℕ, ◌≡◌, refl, [], ◌∷◌, some}
use rudp.Memp.{MempTab, tcp_seg, memp_malloc, memp_free}

abbrev one_seg : MempTab ℕ
one_seg = record {
  tcp_pcbs = [];
  tcp_pcb_listens = [];
  tcp_segs = 5 ∷ [];
  pbufs = [];
  pbuf_pools = [];
}

one_seg_run : memp_malloc (memp_free one_seg tcp_seg 7) tcp_seg ≡ (some 7, one_seg)
unfolding memp_malloc memp_free
one_seg_run = refl
