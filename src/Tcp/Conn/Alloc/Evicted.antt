-- ===== src/Tcp/Conn/Alloc/Evicted.antt =====
-- src/tcp.c: which connections `tcp_alloc` may take off the lists.
use rudp.Memp.{tcp_pcb, memp_malloc}
use rudp.Pbuf.Alloc.{Buffers}
use rudp.Tcp.Conn.{put_back}
use rudp.Tcp.App.{App}
use rudp.Tcp.Conn.Alloc.{
  new_pcb, next_iss, any_pcb, in_state, prio_max, has_free, oldest, oldest_prio, kill_timewait,
  alloc_pcb, make_room, kill_state, kill, kill_prio, extract_if, extract, Pcbs,
}
use rudp.Tcp.Types.{closing, last_ack, TcpState, Pcb}
use rudp.Prelude.{
  zero, suc, ap, inr, some, is_none, refl, none, sym, Bool-cases, if_elim, ◌++◌, inl, if◌then◌else◌,
  subst, ◌⊎◌, ◌∙◌, [], true, ◌∷◌, ◌≡◌, false, ℕ, Bool, List, Option,
}
use rudp.Tcp.Env.{Env}

-- The second list is the first one, or the first one without one of its control blocks.
abbrev pub OneLess : List Pcb → List Pcb → Type 0
OneLess pcbs pcbs' =
    (pcbs' ≡ pcbs)
    ⊎ ((before : List Pcb) × (pcb : Pcb) × (behind : List Pcb) × (pcbs ≡ before ++ (pcb ∷ behind))
        × (pcbs' ≡ before ++ behind))

-- While a control block is free, the lists are kept; else one connection in TIME-WAIT and three
-- active ones may be gone, and no others.
abbrev pub Evicted : (free : Bool) → Pcbs → Pcbs → Type 0
Evicted true l l' = l' ≡ l
Evicted false l l' =
    (l'.listeners ≡ l.listeners)
    × (l'.bound ≡ l.bound)
    × OneLess l.tw l'.tw
    × ((active1 : List Pcb) × (active2 : List Pcb) × OneLess l.active active1
        × OneLess active1 active2
        × OneLess active2 l'.active)

Extracted : List Pcb → Option (Pcb × List Pcb) → Type 0
Extracted pcbs none = Unit {0}
Extracted pcbs (some (pcb, others)) =
    (before : List Pcb) × (behind : List Pcb) × (pcbs ≡ before ++ (pcb ∷ behind))
    × (others ≡ before ++ behind)

put_back-Extracted :
    (pcb : Pcb) (pcbs : List Pcb) (o : Option (Pcb × List Pcb))
    → Extracted pcbs o
    → Extracted (pcb ∷ pcbs) (put_back pcb o)
unfolding Extracted
put_back-Extracted pcb pcbs none h = tt
put_back-Extracted pcb pcbs (some (found, others)) (before, behind, e, f) =
    (pcb ∷ before, behind, ap (λ xs. pcb ∷ xs) e, ap (λ xs. pcb ∷ xs) f)

extract-Extracted : (n : ℕ) (pcbs : List Pcb) → Extracted pcbs (extract n pcbs)
unfolding Extracted
extract-Extracted n [] = tt
extract-Extracted zero (pcb ∷ pcbs) = ([], pcbs, refl, refl)
extract-Extracted (suc n) (pcb ∷ pcbs) =
    put_back-Extracted pcb pcbs (extract n pcbs) (extract-Extracted n pcbs)

extract_if-Extracted : (o : Option ℕ) (pcbs : List Pcb) → Extracted pcbs (extract_if o pcbs)
unfolding Extracted
extract_if-Extracted none pcbs = tt
extract_if-Extracted (some n) pcbs = extract-Extracted n pcbs

-- One active control block may be gone.
abbrev KillsActive : Pcbs → Pcbs → Type 0
KillsActive l l' =
    (l'.listeners ≡ l.listeners)
    × (l'.bound ≡ l.bound)
    × (l'.tw ≡ l.tw)
    × OneLess l.active l'.active

-- One control block in TIME-WAIT may be gone.
abbrev KillsTw : Pcbs → Pcbs → Type 0
KillsTw l l' =
    (l'.listeners ≡ l.listeners)
    × (l'.bound ≡ l.bound)
    × (l'.active ≡ l.active)
    × OneLess l.tw l'.tw

Kills-Evicted :
    (l l1 l2 l3 l4 : Pcbs)
    → KillsTw l l1
    → KillsActive l1 l2
    → KillsActive l2 l3
    → KillsActive l3 l4
    → Evicted false l l4
Kills-Evicted l l1 l2 l3 l4 (a1, b1, c1, d1) (a2, b2, c2, d2) (a3, b3, c3, d3) (a4, b4, c4, d4) = (
  a4 ∙ a3 ∙ a2 ∙ a1,
  b4 ∙ b3 ∙ b2 ∙ b1,
  subst (λ tw. OneLess l.tw tw) (sym (c4 ∙ c3 ∙ c2)) d1,
  (l2.active, l3.active, subst (λ xs. OneLess xs l2.active) c1 d2, d3, d4),
)

module _ {W : Type 0} (env : Env W) (tcp_ticks : ℕ) (app : App W) (is_input : Pcb → Bool) where
  kill-OneLess :
      (o : Option (Pcb × List Pcb)) (reset : Bool) (pcbs : List Pcb) (s : Buffers W)
      → Extracted pcbs o
      → OneLess pcbs (kill env tcp_ticks app is_input o reset pcbs s).0
  unfolding kill Extracted
  kill-OneLess none reset pcbs s h = inl refl
  kill-OneLess (some (pcb, others)) reset pcbs s (before, behind, e, f) =
      inr (before, pcb, behind, e, f)

  kill_timewait-KillsTw :
      (l : Pcbs) (s : Buffers W) → KillsTw l (kill_timewait env tcp_ticks app is_input l s).0
  unfolding kill_timewait
  kill_timewait-KillsTw l s =
      let o = oldest tcp_ticks any_pcb 0 none 0 l.tw in
      (refl, refl, refl, kill-OneLess (extract_if o l.tw) true l.tw s (extract_if-Extracted o l.tw))

  kill_state-KillsActive :
      (st : TcpState) (l : Pcbs) (s : Buffers W)
      → KillsActive l (kill_state env tcp_ticks app is_input st l s).0
  unfolding kill_state
  kill_state-KillsActive st l s =
      let o = oldest tcp_ticks (in_state st) 0 none 0 l.active in
      (
        refl,
        refl,
        refl,
        kill-OneLess (extract_if o l.active) false l.active s (extract_if-Extracted o l.active),
      )

  kill_prio-KillsActive :
      (prio : ℕ) (l : Pcbs) (s : Buffers W)
      → KillsActive l (kill_prio env tcp_ticks app is_input prio l s).0
  unfolding kill_prio
  kill_prio-KillsActive prio l s =
      let o = oldest_prio tcp_ticks prio prio_max 0 none 0 l.active in
      (
        refl,
        refl,
        refl,
        kill-OneLess (extract_if o l.active) true l.active s (extract_if-Extracted o l.active),
      )

  -- A step that is skipped while a control block is free.
  unless_free :
      (l : Pcbs) (s : Buffers W) (r : Pcbs × Buffers W)
      → KillsActive l r.0
      → KillsActive l (if has_free s then (l, s) else r).0
  unless_free l s r h =
      if_elim (λ (r : Pcbs × Buffers W). KillsActive l r.0) (has_free s) (l, s) r
        (λ t. (refl, refl, refl, inl refl)) (λ t. h)

  make_room-Evicted :
      (prio : ℕ) (l : Pcbs) (s : Buffers W)
      → Evicted (has_free s) l (make_room env tcp_ticks app is_input prio l s).0
  unfolding make_room
  make_room-Evicted prio l s = elim (Bool-cases (has_free s)) [
    | inl free ↦ rw (free, free, free, free) refl
    | inr full ↦
        let tw = kill_timewait env tcp_ticks app is_input l s in
        let (l1, s1) : Pcbs × Buffers W = if has_free s then (l, s) else tw in
        let killed = kill_state env tcp_ticks app is_input last_ack l1 s1 in
        let (l2, s2) : Pcbs × Buffers W = if has_free s1 then (l1, s1) else killed in
        let killed2 = kill_state env tcp_ticks app is_input closing l2 s2 in
        let (l3, s3) : Pcbs × Buffers W = if has_free s2 then (l2, s2) else killed2 in
        let killed3 = kill_prio env tcp_ticks app is_input prio l3 s3 in
        let (l4, s4) : Pcbs × Buffers W = if has_free s3 then (l3, s3) else killed3 in
        subst (λ (b : Bool). Evicted b l l4) (sym full)
          (Kills-Evicted l l1 l2 l3 l4
            (if_elim (λ (r : Pcbs × Buffers W). KillsTw l r.0) (has_free s) (l, s) tw
              (λ t. (refl, refl, refl, inl refl)) (λ t. kill_timewait-KillsTw l s))
            (unless_free l1 s1 killed (kill_state-KillsActive last_ack l1 s1))
            (unless_free l2 s2 killed2 (kill_state-KillsActive closing l2 s2))
            (unless_free l3 s3 killed3 (kill_prio-KillsActive prio l3 s3)))
  ]

  pub alloc_pcb-Evicted :
      (prio tcp_timer_ctr iss : ℕ) (l : Pcbs) (s : Buffers W)
      → Evicted (has_free s) l (alloc_pcb env tcp_ticks app is_input prio tcp_timer_ctr iss l s).2
  unfolding alloc_pcb
  alloc_pcb-Evicted prio tcp_timer_ctr iss l s =
      let (l1, s1) = make_room env tcp_ticks app is_input prio l s in
      let (e, m) = memp_malloc s1.memp tcp_pcb in
      let iss' = next_iss tcp_ticks iss in
      if_elim (λ (r : Option Pcb × ℕ × Pcbs × Buffers W). Evicted (has_free s) l r.2) (is_none e)
        (none, iss, l1, s1)
        (some (new_pcb prio tcp_ticks tcp_timer_ctr iss'), iss', l1, record s1 { memp = m })
        (λ t. make_room-Evicted prio l s) (λ t. make_room-Evicted prio l s)
