-- ===== src/Tcp/Out/Draft.antt =====
-- src/tcp_out.c: the local variables of `tcp_write`, its first phase, and what it commits at its
-- end.
pub mod Grows
pub mod Ready
use rudp.Tcp.Seq.{u32_mod}
use rudp.Tcp.Out.Make.{write_head, is_empty}
use rudp.Pbuf.Write.{write_payload}
use rudp.Pbuf.{u16_mod, tot_len, Chain}
use rudp.Pbuf.Cat.{cat}
use rudp.Tcp.Types.{opt_length, Pcb, Seg}
use rudp.Prelude.{
  length, ◌&&◌, ltb, not, ◌||◌, ◌-◌, ◌*◌, ◌==◌, some, ◌%◌, drop, false, ◌++◌, ◌/◌, [], true, none,
  ◌+◌, ◌∷◌, if◌then◌else◌, min, Bool, take, List, Option, ℕ,
}

-- The local `mss_local`: not more than half of the largest window ever received.
abbrev pub mss_local : Pcb → ℕ
mss_local pcb = let m = min pcb.mss (pcb.snd_wnd_max / 2) in if m == 0 then pcb.mss else m

-- `last_unsent`, the last segment of the queue.
abbrev pub last_seg : List Seg → Option Seg
last_seg [] = none
last_seg (seg ∷ []) = some seg
last_seg (seg ∷ (next ∷ segs)) = last_seg (next ∷ segs)

-- A change of the last segment of the queue.
abbrev pub on_last : (Seg → Seg) → List Seg → List Seg
on_last f [] = []
on_last f (seg ∷ []) = f seg ∷ []
on_last f (seg ∷ (next ∷ segs)) = seg ∷ on_last f (next ∷ segs)

-- The local variables that the phases set. `touched` tells that `seg` is set to the last unsent
-- segment.
pub record Draft : Type 0 where
  pub pos : ℕ
  pub oversize : ℕ
  pub oversize_used : ℕ
  pub concat_p : Chain
  pub queue : List Seg
  pub queuelen : ℕ
  pub touched : Bool

-- Phase 1: how many bytes are put into the bytes to spare at the end of the last segment.
abbrev pub phase1 : Pcb → Option Seg → (len : ℕ) → Draft
phase1 pcb none len = record {
  pos = 0;
  oversize = 0;
  oversize_used = 0;
  concat_p = [];
  queue = [];
  queuelen = pcb.snd_queuelen;
  touched = false;
}
phase1 pcb (some last) len =
    let used = min pcb.unsent_oversize len in
    record {
      pos = used;
      oversize = pcb.unsent_oversize - used;
      oversize_used = used;
      concat_p = [];
      queue = [];
      queuelen = pcb.snd_queuelen;
      touched = ltb 0 pcb.unsent_oversize;
    }

-- The usable space at the end of the last segment, behind phase 1, in a u16_t.
abbrev pub space : Pcb → Seg → (used : ℕ) → ℕ
space pcb last used =
    let room = (mss_local pcb + 2 * u16_mod - (last.len + opt_length last.opt_mss)) % u16_mod in
    (room + u16_mod - used) % u16_mod

-- The bytes from `pos` on.
abbrev pub piece : List ℕ → (pos n : ℕ) → List ℕ
piece data_bytes pos n = take n (drop pos data_bytes)

-- A new pbuf with data copied into it.
abbrev pub fill : Option (Chain × ℕ) → List ℕ → Option (Chain × ℕ)
fill none data_bytes = none
fill (some (p, oversize)) data_bytes = some (write_head p 0 data_bytes, oversize)

-- A new pbuf whose payload pointer is set into the data. `oversize` stays as it is.
abbrev pub point_to : Option Chain → List ℕ → (pos oversize : ℕ) → Option (Chain × ℕ)
point_to none data_bytes pos oversize = none
point_to (some []) data_bytes pos oversize = some ([], oversize)
point_to (some (p ∷ ps)) data_bytes pos oversize =
    some (record p { block = data_bytes; payload = pos } ∷ ps, oversize)

-- The end of the last segment is filled, with `used` bytes more in all of its lengths.
unfoldable pub extend : Chain → (used : ℕ) → List ℕ → Chain
extend [] used data_bytes = []
extend (p ∷ []) used data_bytes =
    let q = write_payload p p.len data_bytes in
    record q { len = (p.len + used) % u16_mod; tot_len = (p.tot_len + used) % u16_mod } ∷ []
extend (p ∷ (q ∷ ps)) used data_bytes =
    record p { tot_len = (p.tot_len + used) % u16_mod } ∷ extend (q ∷ ps) used data_bytes

-- Phase 1 is committed.
unfoldable pub commit1 : (used : ℕ) → List ℕ → Seg → Seg
unfolding extend
commit1 used data_bytes last = if used == 0 then last else record last {
  p = extend last.p used (take used data_bytes);
  len = (last.len + used) % u16_mod;
  oversize_left = (last.oversize_left + u16_mod - used) % u16_mod;
}

-- Phase 2 is committed.
unfoldable pub commit2 : (concat_p : Chain) → Seg → Seg
unfolding cat
commit2 concat_p last =
    if is_empty concat_p
    then last
    else record last { p = cat last.p concat_p; len = (last.len + tot_len concat_p) % u16_mod }

-- The flag PSH.
abbrev pub set_psh : Seg → Seg
set_psh seg = record seg {
  tcphdr = record seg.tcphdr { flags = record seg.tcphdr.flags { psh = true } };
}

-- The end of `tcp_write` when all phases were successful.
unfoldable pub commit : Draft → Pcb → List ℕ → (more : Bool) → Pcb
unfolding commit1 commit2
commit d pcb data_bytes more =
    let queued =
      on_last (λ last. commit2 d.concat_p (commit1 d.oversize_used data_bytes last)) pcb.unsent
      ++ d.queue in
    record pcb {
      unsent_oversize = d.oversize;
      unsent =
          if (d.touched || not (is_empty d.queue)) && not more
          then on_last set_psh queued
          else queued;
      snd_lbb = (pcb.snd_lbb + length data_bytes) % u32_mod;
      snd_buf = (pcb.snd_buf + u16_mod - length data_bytes) % u16_mod;
      snd_queuelen = d.queuelen;
    }

-- The bytes to spare behind phase 2 are noted in the last segment at once.
abbrev pub note_oversize : (oversize : ℕ) → Seg → Seg
note_oversize oversize last = record last {
  oversize_left = (last.oversize_left + oversize) % u16_mod;
}
