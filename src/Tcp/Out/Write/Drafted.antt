-- ===== src/Tcp/Out/Write/Drafted.antt =====
-- What the phases of `tcp_write` of src/tcp_out.c keep true of their local variables.
use rudp.Tcp.Out.Draft.Grows.{Room, Grows}
use rudp.Tcp.Seq.{u32_mod}
use rudp.Tcp.Segs.{free_segs}
use rudp.Tcp.Out.Write.Grown.{grow-phase1, last_seg-HasRoom, grow}
use rudp.Tcp.Out.Draft.Ready.{Spares, IsReady-on_last, Runs, queued_bytes, IsReady}
use rudp.Pbuf.Alloc.{Buffers}
use rudp.Tcp.Out.Draft.{mss_local, phase1, on_last, last_seg, Draft}
use rudp.Tcp.Types.{opt_length, Seg, Pcb}
use rudp.Prelude.{
  min, append-nil, length-take, subst, arith, take, sym, false, ◌<◌, refl, ap, ◌%◌, ◌∙◌, ◌≤◌, ◌∷◌,
  length, ◌++◌, [], ◌+◌, some, none, ◌≡◌, Option, Bool, List, ℕ,
}

-- The unsent queue as the commit would make it.
abbrev pub drafted_queue : List ℕ → Pcb → Draft → List Seg
drafted_queue data_bytes pcb d =
    on_last (grow d.concat_p d.oversize_used data_bytes) pcb.unsent ++ d.queue

-- The queue of the control block is ready, and holds the bytes `old`. It starts at `n`.
pub record IsOld {W : Type 0} (n total : ℕ) (old : List ℕ) (pcb : Pcb) (s : Buffers W)
    : Type 0 where
  pub old_ready : IsReady (mss_local pcb) pcb.unsent_oversize n pcb.snd_lbb pcb.unsent
  pub old_bytes : queued_bytes pcb.unsent ≡ old
  pub old_segs : length pcb.unsent + free_segs s ≡ total
  pub old_mss : mss_local pcb < 1000
  pub old_lbb : pcb.snd_lbb < u32_mod

-- With the draft it would be ready too, with the first bytes of the data behind the old ones, and
-- its segments and the free ones are `total` as before.
pub record IsDraft {W : Type 0} (data_bytes : List ℕ) (copy : Bool) (n total : ℕ) (old : List ℕ)
    (pcb : Pcb) (d : Draft) (s : Buffers W) : Type 0 where
  pub drafted :
      IsReady
        (mss_local pcb)
        d.oversize
        n
        ((pcb.snd_lbb + d.pos) % u32_mod)
        (drafted_queue data_bytes pcb d)
  pub drafted_bytes : queued_bytes (drafted_queue data_bytes pcb d) ≡ old ++ take d.pos data_bytes
  pub drafted_segs : length pcb.unsent + length d.queue + free_segs s ≡ total
  pub within : d.pos ≤ length data_bytes
  pub uncopied : copy ≡ false → d.pos < length data_bytes → d.oversize ≡ 0

last_seg-none : (segs : List Seg) → last_seg segs ≡ none → segs ≡ []
last_seg-none [] e = refl
last_seg-none (seg ∷ []) e = absurd (cc e)
last_seg-none (seg ∷ (next ∷ segs)) e = absurd (cc (last_seg-none (next ∷ segs) e))

-- The draft of a last segment that has grown.
pub grown-IsDraft :
    {W : Type 0} (data_bytes : List ℕ) (copy : Bool) (n total : ℕ) (old : List ℕ) (pcb : Pcb)
    (d : Draft) (s : Buffers W) (last : Seg)
    → IsOld n total old pcb s
    → last_seg pcb.unsent ≡ some last
    → d.queue ≡ []
    → d.pos ≤ length data_bytes
    → (copy ≡ false → d.pos < length data_bytes → d.oversize ≡ 0)
    → Grows last (grow d.concat_p d.oversize_used data_bytes last) (take d.pos data_bytes)
      × Room (grow d.concat_p d.oversize_used data_bytes last).p d.oversize
    → last.len + opt_length last.opt_mss + d.pos + d.oversize ≤ mss_local pcb
    → IsDraft data_bytes copy n total old pcb d s
grown-IsDraft data_bytes copy n total old pcb d s last o e q w z g fits =
    let size : length (take d.pos data_bytes) ≡ d.pos =
      omega (arith, length-take d.pos data_bytes) in
    let ready =
      IsReady-on_last (mss_local pcb) pcb.unsent_oversize d.oversize n pcb.snd_lbb
        (grow d.concat_p d.oversize_used data_bytes) (take d.pos data_bytes) pcb.unsent last
        o.old_ready e g.0 g.1 (omega (arith, size)) in
    let same : on_last (grow d.concat_p d.oversize_used data_bytes) pcb.unsent
        ≡ drafted_queue data_bytes pcb d =
      sym (append-nil _)
      ∙ ap (λ segs. on_last (grow d.concat_p d.oversize_used data_bytes) pcb.unsent ++ segs)
          (sym q) in
    record {
      drafted =
          subst (IsReady (mss_local pcb) d.oversize n ((pcb.snd_lbb + d.pos) % u32_mod)) same (
            subst
              (λ (m : ℕ).
                IsReady (mss_local pcb) d.oversize n ((pcb.snd_lbb + m) % u32_mod)
                  (on_last (grow d.concat_p d.oversize_used data_bytes) pcb.unsent))
              size ready.0);
      drafted_bytes =
          ap queued_bytes (sym same) ∙ ready.1 ∙ ap (λ ys. ys ++ take d.pos data_bytes) o.old_bytes;
      drafted_segs = omega (arith, ap length q, o.old_segs);
      within = w;
      uncopied = z;
    }

-- Phase 1.
pub phase1-IsDraft :
    {W : Type 0} (data_bytes : List ℕ) (copy : Bool) (n total : ℕ) (old : List ℕ) (pcb : Pcb)
    (s : Buffers W) (last : Option Seg)
    → IsOld n total old pcb s
    → last_seg pcb.unsent ≡ last
    → IsDraft data_bytes copy n total old pcb (phase1 pcb last (length data_bytes)) s
phase1-IsDraft data_bytes copy n total old pcb s none o e =
    let nothing : pcb.unsent ≡ [] = last_seg-none pcb.unsent e in
    let same : pcb.unsent ≡ drafted_queue data_bytes pcb (phase1 pcb none (length data_bytes)) =
      nothing ∙ ap (λ segs. on_last (grow [] 0 data_bytes) segs ++ []) (sym nothing) in
    let m : (pcb.snd_lbb + 0) % u32_mod ≡ pcb.snd_lbb = omega (arith, o.old_lbb) in
    let r = o.old_ready in
    record {
      drafted = subst (IsReady (mss_local pcb) 0 n ((pcb.snd_lbb + 0) % u32_mod)) same (record {
        runs = subst (λ (k : ℕ). Runs n pcb.unsent k) (sym m) r.runs;
        filled = r.filled;
        spares = subst (Spares (mss_local pcb) 0) (sym e) tt;
      });
      drafted_bytes = ap queued_bytes (sym same) ∙ o.old_bytes ∙ sym (append-nil old);
      drafted_segs = omega (arith, o.old_segs);
      within = omega arith;
      uncopied = λ c l. refl;
    }
phase1-IsDraft data_bytes copy n total old pcb s (some last) o e =
    let room =
      last_seg-HasRoom (mss_local pcb) pcb.unsent_oversize n pcb.snd_lbb pcb.unsent last o.old_ready
        e in
    let used = min pcb.unsent_oversize (length data_bytes) in
    grown-IsDraft data_bytes copy n total old pcb (phase1 pcb (some last) (length data_bytes)) s
      last o e refl (omega arith) (λ c l. omega arith)
      (grow-phase1 (mss_local pcb) pcb.unsent_oversize used data_bytes last room o.old_mss
        (omega arith) (omega arith))
      (omega (arith, room.room_fits))

pub IsDraft-moved :
    {W : Type 0} (data_bytes : List ℕ) (copy : Bool) (n total : ℕ) (old : List ℕ) (pcb : Pcb)
    (d : Draft) (s s' : Buffers W)
    → free_segs s' ≡ free_segs s
    → IsDraft data_bytes copy n total old pcb d s
    → IsDraft data_bytes copy n total old pcb d s'
IsDraft-moved data_bytes copy n total old pcb d s s' f g = record {
  drafted = g.drafted;
  drafted_bytes = g.drafted_bytes;
  drafted_segs = omega (arith, g.drafted_segs);
  within = g.within;
  uncopied = g.uncopied;
}
