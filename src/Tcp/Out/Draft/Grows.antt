-- ===== src/Tcp/Out/Draft/Grows.antt =====
-- What `tcp_write` of src/tcp_out.c appends to the last unsent segment.
use rudp.Tcp.Types.{Seg}
use rudp.Pbuf.Cat.{cat-append, cat_loop, cat}
use rudp.Pbuf.Write.{length-copy_to, copy_to}
use rudp.Pbuf.{length-bytes, Pbuf, payload_bytes, bytes, u16_mod, tot_len, IsChain, Chain}
use rudp.Tcp.Out.Draft.{commit1, commit2, extend}
use rudp.Prelude.{
  length_zero, ==_iff, ◌==◌, if_elim, subst, ◌≢◌, take_all, refl, take-append_left, append_assoc,
  take-append_right, drop-append_left, sym, ◌-◌, ap, drop-take, length-drop, ◌∙◌, append-nil,
  length-take, length-append, arith, ◌%◌, ◌++◌, ◌≡◌, drop, ◌<◌, take, [], ◌≤◌, length, ◌+◌, ◌∷◌,
  List, ℕ,
}

-- The block of the last pbuf has `n` bytes behind those that are used.
abbrev pub Room : Chain → ℕ → Type 0
Room [] n = ⊥
Room (p ∷ []) n = p.payload + p.len + n ≤ length p.block
Room (p ∷ (q ∷ ps)) n = Room (q ∷ ps) n

pub copy_to-append :
    (block : List ℕ) (start len : ℕ) (xs : List ℕ)
    → start + len + length xs ≤ length block
    → take (len + length xs) (drop start (copy_to block (start + len) xs))
      ≡ take len (drop start block) ++ xs
copy_to-append block start len xs h =
    let front = take (start + len) block in
    let rest = drop (start + len + length xs) block in
    let whole : length front ≡ start + len = omega (arith, length-take (start + len) block) in
    let mid = take len (drop start block) in
    let same : drop start front ≡ mid =
      drop-take start (start + len) block
      ∙ ap (λ (m : ℕ). take m (drop start block)) (omega arith) in
    let size : length mid ≡ len =
      omega (arith, length-take len (drop start block), length-drop start block) in
    let m : length xs ≡ len + length xs - length mid = omega (arith, size) in
    ap (take (len + length xs)) (
      drop-append_left start front (xs ++ rest) (omega (arith, whole))
      ∙ ap (λ ys. ys ++ (xs ++ rest)) same)
    ∙ take-append_right (len + length xs) mid (xs ++ rest) (omega (arith, size))
    ∙ ap (◌++◌ mid) (
        ap (λ (m : ℕ). take m (xs ++ rest)) (sym m)
        ∙ take-append_left (length xs) xs rest (omega arith)
        ∙ take_all (length xs) xs (omega arith))

Room-cons : (p : Pbuf) (ps : Chain) (n : ℕ) → Room ps n → Room (p ∷ ps) n
Room-cons p [] n h = absurd h
Room-cons p (q ∷ ps) n h = h

-- The bytes are appended, and the chain keeps its invariant and the rest of its room.
pub extend-append :
    (ps : Chain) (xs : List ℕ) (r : ℕ)
    → IsChain ps
    → Room ps (length xs + r)
    → tot_len ps + length xs < u16_mod
    → (bytes (extend ps (length xs) xs) ≡ bytes ps ++ xs)
      × IsChain (extend ps (length xs) xs)
      × (tot_len (extend ps (length xs) xs) ≡ tot_len ps + length xs)
      × Room (extend ps (length xs) xs) r
unfolding extend
extend-append [] xs r c h k = absurd h
extend-append (p ∷ []) xs r c h k =
    let sum : (p.len + length xs) % u16_mod ≡ p.len + length xs = omega arith in
    let tot : (p.tot_len + length xs) % u16_mod ≡ p.tot_len + length xs = omega arith in
    let block = length-copy_to p.block (p.payload + p.len) xs (omega arith) in
    rw (sum, tot)
      (
        append-nil _
            ∙ copy_to-append p.block p.payload p.len xs (omega arith)
            ∙ ap (λ ys. ys ++ xs) (sym (append-nil (payload_bytes p))),
        (omega arith, omega (arith, block), omega arith, tt),
        refl,
        omega (arith, block),
      )
extend-append (p ∷ (q ∷ ps)) xs r c h k =
    let tot : (p.tot_len + length xs) % u16_mod ≡ p.tot_len + length xs = omega arith in
    let later = extend-append (q ∷ ps) xs r c.3 h (omega (arith, c.0)) in
    rw tot (
      ap (◌++◌ (payload_bytes p)) later.0
          ∙ sym (append_assoc (payload_bytes p) (bytes (q ∷ ps)) xs),
      (omega (arith, later.2, c.0), c.1, omega arith, later.1),
      refl,
      Room-cons (record p { tot_len = p.tot_len + length xs }) (extend (q ∷ ps) (length xs) xs) r
          later.3,
    )

Room-cat_loop : (ps : Chain) (t : ℕ) (qs : Chain) (n : ℕ) → Room qs n → Room (cat_loop ps t qs) n
unfolding cat_loop
Room-cat_loop [] t qs n h = h
Room-cat_loop (p ∷ ps) t qs n h =
    Room-cons (record p { tot_len = (p.tot_len + t) % u16_mod }) (cat_loop ps t qs) n
      (Room-cat_loop ps t qs n h)

-- The room of a chain is that of its end.
pub Room-cat :
    (ps : Chain) (q : Pbuf) (qs : Chain) (n : ℕ)
    → Room (q ∷ qs) n
    → ps ≢ []
    → Room (cat ps (q ∷ qs)) n
unfolding cat
Room-cat [] q qs n h e = absurd (e refl)
Room-cat (p ∷ ps) q qs n h e = Room-cat_loop (p ∷ ps) q.tot_len (q ∷ qs) n h

pub Room-ne : (ps : Chain) (n : ℕ) → Room ps n → ps ≢ []
Room-ne [] n h = absurd h
Room-ne (p ∷ ps) n h = λ e. cc e

pub Room-length : (ps : Chain) (n : ℕ) → Room ps n → 1 ≤ length ps
Room-length [] n h = absurd h
Room-length (p ∷ ps) n h = omega arith

pub Room-le : (ps : Chain) (m n : ℕ) → m ≤ n → Room ps n → Room ps m
Room-le [] m n l h = h
Room-le (p ∷ []) m n l h = omega arith
Room-le (p ∷ (q ∷ ps)) m n l h = Room-le (q ∷ ps) m n l h

-- The segment `last'` is `last` with the data `xs` behind its data.
pub record Grows (last last' : Seg) (xs : List ℕ) : Type 0 where
  pub grown_bytes : bytes last'.p ≡ bytes last.p ++ xs
  pub grown_tot : tot_len last'.p ≡ tot_len last.p + length xs
  pub grown_len : last'.len ≡ last.len + length xs
  pub grown_chain : IsChain last'.p
  pub same_seqno : last'.tcphdr.seqno ≡ last.tcphdr.seqno
  pub same_fin : last'.tcphdr.flags.fin ≡ last.tcphdr.flags.fin
  pub same_syn : last'.tcphdr.flags.syn ≡ last.tcphdr.flags.syn
  pub same_opt : last'.opt_mss ≡ last.opt_mss

pub Grows-trans :
    (a b c : Seg) (xs ys : List ℕ) → Grows a b xs → Grows b c ys → Grows a c (xs ++ ys)
Grows-trans a b c xs ys g h = record {
  grown_bytes = h.grown_bytes ∙ ap (λ zs. zs ++ ys) g.grown_bytes ∙ append_assoc (bytes a.p) xs ys;
  grown_tot = omega (arith, g.grown_tot, h.grown_tot, length-append xs ys);
  grown_len = omega (arith, g.grown_len, h.grown_len, length-append xs ys);
  grown_chain = h.grown_chain;
  same_seqno = h.same_seqno ∙ g.same_seqno;
  same_fin = h.same_fin ∙ g.same_fin;
  same_syn = h.same_syn ∙ g.same_syn;
  same_opt = h.same_opt ∙ g.same_opt;
}

-- A change that concerns neither the data nor the place of a segment.
pub Grows-nil :
    (a b : Seg)
    → IsChain a.p
    → b.p ≡ a.p
    → b.len ≡ a.len
    → b.tcphdr.seqno ≡ a.tcphdr.seqno
    → b.tcphdr.flags.fin ≡ a.tcphdr.flags.fin
    → b.tcphdr.flags.syn ≡ a.tcphdr.flags.syn
    → b.opt_mss ≡ a.opt_mss
    → Grows a b []
Grows-nil a b c p l n f s o = record {
  grown_bytes = ap bytes p ∙ sym (append-nil (bytes a.p));
  grown_tot = omega (arith, ap tot_len p);
  grown_len = omega (arith, l);
  grown_chain = subst IsChain (sym p) c;
  same_seqno = n;
  same_fin = f;
  same_syn = s;
  same_opt = o;
}

-- Phase 1 puts the first bytes of the data into the room at the end.
pub commit1-Grows :
    (used r : ℕ) (data_bytes : List ℕ) (last : Seg)
    → IsChain last.p
    → used ≤ length data_bytes
    → Room last.p (used + r)
    → tot_len last.p + used < u16_mod
    → last.len + used < u16_mod
    → Grows last (commit1 used data_bytes last) (take used data_bytes)
      × Room (commit1 used data_bytes last).p r
unfolding commit1
commit1-Grows used r data_bytes last c l h k m =
    let xs = take used data_bytes in
    let size : length xs ≡ used = omega (arith, length-take used data_bytes) in
    let e =
      extend-append last.p xs r c (subst (λ m. Room last.p (m + r)) (sym size) h)
        (omega (arith, size)) in
    let grown = record last {
      p = extend last.p used xs;
      len = (last.len + used) % u16_mod;
      oversize_left = (last.oversize_left + u16_mod - used) % u16_mod;
    } in
    let same : extend last.p (length xs) xs ≡ extend last.p used xs =
      ap (λ (m : ℕ). extend last.p m xs) size in
    if_elim (λ (x : Seg). Grows last x xs × Room x.p r) (used == 0) last grown
      (λ z.
        let none_used : used ≡ 0 = (==_iff used 0).0 z in
        (
          subst (Grows last last) (sym (length_zero xs (size ∙ none_used)))
              (Grows-nil last last c refl refl refl refl refl refl),
          Room-le last.p r (used + r) (omega arith) h,
        ))
      (λ z. (
        record {
          grown_bytes = ap bytes (sym same) ∙ e.0;
          grown_tot = ap tot_len (sym same) ∙ e.2;
          grown_len = omega (arith, size);
          grown_chain = subst IsChain same e.1;
          same_seqno = refl;
          same_fin = refl;
          same_syn = refl;
          same_opt = refl;
        },
        subst (λ ps. Room ps r) same e.3,
      ))

pub cat_ne-append :
    (ps : Chain) (q : Pbuf) (qs : Chain)
    → IsChain ps
    → ps ≢ []
    → IsChain (q ∷ qs)
    → tot_len ps + q.tot_len < u16_mod
    → (bytes (cat ps (q ∷ qs)) ≡ bytes ps ++ bytes (q ∷ qs))
      × IsChain (cat ps (q ∷ qs))
      × (tot_len (cat ps (q ∷ qs)) ≡ tot_len ps + q.tot_len)
cat_ne-append [] q qs c n cq k = absurd (n refl)
cat_ne-append (p ∷ ps) q qs c n cq k = cat-append p q ps qs c cq k

-- Phase 2 puts a new pbuf behind it.
pub commit2-Grows :
    (q : Pbuf) (qs : Chain) (r : ℕ) (last : Seg)
    → IsChain last.p
    → last.p ≢ []
    → IsChain (q ∷ qs)
    → Room (q ∷ qs) r
    → tot_len last.p + q.tot_len < u16_mod
    → last.len + q.tot_len < u16_mod
    → Grows last (commit2 (q ∷ qs) last) (bytes (q ∷ qs)) × Room (commit2 (q ∷ qs) last).p r
unfolding commit2
commit2-Grows q qs r last c n cq h k m =
    let size = length-bytes (q ∷ qs) cq in
    let e = cat_ne-append last.p q qs c n cq k in
    (
      record {
        grown_bytes = e.0;
        grown_tot = e.2 ∙ omega (arith, size);
        grown_len = omega (arith, size);
        grown_chain = e.1;
        same_seqno = refl;
        same_fin = refl;
        same_syn = refl;
        same_opt = refl;
      },
      Room-cat last.p q qs r h n,
    )
