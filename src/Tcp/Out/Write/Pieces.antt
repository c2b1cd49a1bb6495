-- ===== src/Tcp/Out/Write/Pieces.antt =====
-- The new pbufs of `tcp_write` of src/tcp_out.c, and the segments that are made of them.
use rudp.Memp.{pbuf, memp_malloc}
use rudp.Tcp.Out.Write.{phase3_pbufs, join_header, add_header, phase2_pbuf}
use rudp.Pbuf.Cat.{length-cat, cat_loop, cat}
use mathlib.Core.Option
use rudp.Pbuf.Write.{length-copy_to, copy_to}
use rudp.Tcp.Out.Draft.{mss_local, Draft, point_to, piece, fill}
use rudp.Tcp.Types.{tcp_mss, Pcb}
use rudp.Tcp.Out.Draft.Grows.{Room-cat, cat_ne-append, copy_to-append, Room}
use rudp.Pbuf.Header.{owns_payload}
use rudp.Pbuf.Alloc.{header_offset, new_pbuf, Buffers, alloc}
use rudp.Tcp.Out.Make.{is_empty, spare, write_head, pbuf_prealloc}
use rudp.Pbuf.{transport, tot_len, raw, rom, ram, u16_mod, PbufLayer, bytes, IsChain, Chain}
use rudp.Tcp.Env.{Env}
use rudp.Prelude.{
  ◌*◌, ◌++◌, ◌≢◌, sym, subst, length-drop, length-take, inl, false, ◌%◌, ◌-◌, if_elim, min, drop,
  if◌then◌else◌, take, ap, not, ◌∙◌, append-nil, ◌||◌, ◌&&◌, ltb, refl, arith, inr, Bool, [], true,
  none, ◌<◌, ◌≤◌, ◌⊎◌, some, length, ◌≡◌, ◌∷◌, Option, ◌+◌, List, ℕ,
}

-- The memory that `malloc` gives has the size that it was asked for.
pub record SizedMalloc {W : Type 0} (env : Env W) : Type 0 where
  pub malloc_size : (w : W) (n : ℕ) (b : List ℕ) → (env.mem_malloc w n).0 ≡ some b → length b ≡ n

-- The first pbuf has room for a header of `n` bytes in front of it.
abbrev pub HeadRoom : ℕ → Chain → Type 0
HeadRoom n [] = ⊥
HeadRoom n (p ∷ ps) = (n ≡ 0) ⊎ ((owns_payload p.kind ≡ true) × (n ≤ p.payload))

-- New pbufs with the data `xs`, `oversize` bytes to spare behind it, and `n` bytes in front of it.
pub record IsPiece (n oversize : ℕ) (xs : List ℕ) (ps : Chain) : Type 0 where
  pub piece_chain : IsChain ps
  pub piece_bytes : bytes ps ≡ xs
  pub piece_room : Room ps oversize
  pub piece_head : HeadRoom n ps
  pub piece_count : 20 * length ps ≤ n + 20

-- The same of a result, if there is one; the spare bytes fit in `room` behind the data, and are
-- none if the data is not copied.
abbrev pub IsPieceIfAny : (copy : Bool) → (n room : ℕ) → List ℕ → Option (Chain × ℕ) → Type 0
IsPieceIfAny copy n room xs none = Unit {0}
IsPieceIfAny copy n room xs (some (ps, oversize)) =
    IsPiece n oversize xs ps × (length xs + oversize ≤ room) × (copy ≡ false → oversize ≡ 0)

ram-IsPiece :
    (b xs : List ℕ) (n oversize total : ℕ)
    → n + length xs + oversize ≤ length b
    → length xs < u16_mod
    → IsPiece n oversize xs (
        write_head
          (record (new_pbuf ram b n total total) { len = length xs; tot_len = length xs } ∷ [])
          0
          xs)
ram-IsPiece b xs n oversize total h k =
    let size : length (copy_to b (n + 0) xs) ≡ length b =
      length-copy_to b (n + 0) xs (omega arith) in
    record {
      piece_chain = (omega arith, omega (arith, size), k, tt);
      piece_bytes =
          append-nil _
          ∙ ap (λ (i : ℕ). take i (drop n (copy_to b (n + 0) xs))) (omega arith)
          ∙ copy_to-append b n 0 xs (omega arith);
      piece_room = omega (arith, size);
      piece_head = inr (refl, omega arith);
      piece_count = omega arith;
    }

-- A pbuf that points into the data of the application.
rom-IsPiece :
    (e : Option (List ℕ)) (data_bytes : List ℕ) (copy : Bool) (at n room : ℕ)
    → at + n ≤ length data_bytes
    → n ≤ room
    → room < u16_mod
    → IsPieceIfAny copy 0 room
        (piece data_bytes at n)
        (point_to (Option.map (λ b. new_pbuf rom [] 0 n n ∷ []) e) data_bytes at 0)
rom-IsPiece none data_bytes copy at n room h l k = tt
rom-IsPiece (some b) data_bytes copy at n room h l k = (
  record {
    piece_chain = (omega arith, omega arith, omega arith, tt);
    piece_bytes = append-nil (piece data_bytes at n);
    piece_room = omega arith;
    piece_head = inl refl;
    piece_count = omega arith;
  },
  omega (arith, length-take n (drop at data_bytes)),
  λ c. refl,
)

-- A header in front of it.
header-IsPiece :
    (e : Option (List ℕ)) (xs : List ℕ) (oversize : ℕ) (p2 : Chain)
    → ((b : List ℕ) → e ≡ some b → length b ≡ 20)
    → IsPiece 0 oversize xs p2
    → length xs < u16_mod
    → (p : Chain) → (Option.map (λ b. new_pbuf ram b 20 0 0 ∷ []) e ≡ some p)
    → IsPiece 20 oversize xs (cat p p2)
unfolding cat cat_loop
header-IsPiece none xs oversize p2 sized h k p i = absurd (cc i)
header-IsPiece (some b) xs oversize [] sized h k p i = absurd h.piece_head
header-IsPiece (some b) xs oversize (q ∷ qs) sized h k p i =
    let own : p ≡ new_pbuf ram b 20 0 0 ∷ [] = cc i in
    let size : length b ≡ 20 = sized b refl in
    let c : IsChain p =
      subst IsChain (sym own) (omega arith, omega (arith, size), omega arith, tt) in
    let joined =
      cat_ne-append p q qs c (subst (λ x. x ≢ []) (sym own) (λ e. cc e)) h.piece_chain
        (omega (arith, ap tot_len own, h.piece_chain)) in
    record {
      piece_chain = joined.1;
      piece_bytes = joined.0 ∙ ap (λ ys. ys ++ bytes (q ∷ qs)) (ap bytes own) ∙ h.piece_bytes;
      piece_room =
          Room-cat p q qs oversize h.piece_room (subst (λ x. x ≢ []) (sym own) (λ e. cc e));
      piece_head = subst (λ x. HeadRoom 20 (cat x (q ∷ qs))) (sym own) (inr (refl, omega arith));
      piece_count =
          subst (λ x. 20 * length (cat x (q ∷ qs)) ≤ 40) (sym own)
            (omega (arith, length-cat (new_pbuf ram b 20 0 0) [] q qs, h.piece_count));
    }

spare-IsPiece :
    (e : Option (List ℕ)) (xs : List ℕ) (n size max_length : ℕ)
    → ((b : List ℕ) → e ≡ some b → length b ≡ n + size)
    → length xs ≤ size
    → size ≤ max_length
    → max_length < 1000
    → IsPieceIfAny true n max_length xs
        (fill (spare (Option.map (λ b. new_pbuf ram b n size size ∷ []) e) (length xs)) xs)
spare-IsPiece none xs n size max_length sized h k m = tt
spare-IsPiece (some b) xs n size max_length sized h k m =
    let left : (size + u16_mod - length xs) % u16_mod ≡ size - length xs = omega arith in
    rw left (
      ram-IsPiece b xs n (size - length xs) size (omega (arith, sized b refl)) (omega arith),
      omega arith,
      λ c. absurd (cc c),
    )

module _ {W : Type 0} (env : Env W) (sized : SizedMalloc env) where
  -- A pbuf with a copy of a piece of the data.
  prealloc-IsPiece :
      (layer : PbufLayer) (data_bytes : List ℕ) (pos seglen max_length : ℕ) (pcb : Pcb)
      (more first_seg : Bool) (s : Buffers W)
      → seglen ≤ max_length
      → max_length < 1000
      → pos + seglen ≤ length data_bytes
      → IsPieceIfAny true (header_offset layer) max_length (piece data_bytes pos seglen) (
          fill
            (pbuf_prealloc env layer seglen max_length pcb more first_seg s).0
            (piece data_bytes pos seglen))
  unfolding pbuf_prealloc alloc
  prealloc-IsPiece layer data_bytes pos seglen max_length pcb more first_seg s h k l =
      let oversized =
        ltb seglen max_length
        && (more
            || not pcb.flags.nodelay
              && (not first_seg || not (is_empty pcb.unsent) || not (is_empty pcb.unacked))) in
      let n = if oversized then min max_length (seglen + tcp_mss) else seglen in
      let bounds : (seglen ≤ n) × (n ≤ max_length) =
        if_elim (λ (n : ℕ). (seglen ≤ n) × (n ≤ max_length)) oversized
          (min max_length (seglen + tcp_mss)) seglen (λ o. omega arith) (λ o. omega arith) in
      let xs = piece data_bytes pos seglen in
      let size : length xs ≡ seglen =
        omega (arith, length-take seglen (drop pos data_bytes), length-drop pos data_bytes) in
      let e = (env.mem_malloc s.heap (header_offset layer + n)).0 in
      subst
        (λ (m : ℕ).
          IsPieceIfAny true (header_offset layer) max_length xs
            (fill (spare (Option.map (λ b. new_pbuf ram b (header_offset layer) n n ∷ []) e) m) xs))
        size
        (spare-IsPiece e xs (header_offset layer) n max_length
          (sized.malloc_size s.heap (header_offset layer + n)) (omega (arith, size, bounds.0))
          bounds.1 k)

  -- The pbuf of phase 2.
  pub phase2_pbuf-IsPiece :
      (data_bytes : List ℕ) (copy more : Bool) (pcb : Pcb) (d : Draft) (room seglen : ℕ)
      (s : Buffers W)
      → seglen ≤ room
      → room < 1000
      → d.pos + seglen ≤ length data_bytes
      → (copy ≡ false → d.oversize ≡ 0)
      → IsPieceIfAny copy 0 room
          (piece data_bytes d.pos seglen)
          (phase2_pbuf env data_bytes copy more pcb d room seglen s).0
  unfolding phase2_pbuf alloc
  phase2_pbuf-IsPiece data_bytes true more pcb d room seglen s h k l z =
      prealloc-IsPiece raw data_bytes d.pos seglen room pcb more true s h k l
  phase2_pbuf-IsPiece data_bytes false more pcb d room seglen s h k l z =
      rw (z refl) (
        rom-IsPiece (memp_malloc s.memp pbuf).0 data_bytes false d.pos seglen room l h
          (omega arith))

  join_header-IsPiece :
      (data_bytes : List ℕ) (copy more : Bool) (e : Option (List ℕ)) (xs : List ℕ) (p2 : Chain)
      (oversize room : ℕ) (s : Buffers W)
      → ((b : List ℕ) → e ≡ some b → length b ≡ 20)
      → IsPieceIfAny copy 0 room xs (some (p2, oversize))
      → room < 1000
      → IsPieceIfAny copy 20 room xs
          (join_header env data_bytes copy more
            (Option.map (λ b. new_pbuf ram b 20 0 0 ∷ []) e)
            p2
            oversize
            s).0
  unfolding join_header
  join_header-IsPiece data_bytes copy more none xs p2 oversize room s size h m = tt
  join_header-IsPiece data_bytes copy more (some b) xs p2 oversize room s size h m =
      (header-IsPiece (some b) xs oversize p2 size h.0 (omega arith) _ refl, h.1, h.2)

  add_header-IsPiece :
      (data_bytes : List ℕ) (copy more : Bool) (e : Option (Chain × ℕ)) (xs : List ℕ) (room : ℕ)
      (s : Buffers W)
      → IsPieceIfAny copy 0 room xs e
      → room < 1000
      → IsPieceIfAny copy 20 room xs (add_header env data_bytes copy more e s).0
  unfolding add_header alloc
  add_header-IsPiece data_bytes copy more none xs room s h k = tt
  add_header-IsPiece data_bytes copy more (some (p2, oversize)) xs room s h k =
      join_header-IsPiece data_bytes copy more (env.mem_malloc s.heap 20).0 xs p2 oversize room
        (alloc env.mem_malloc s transport 0 ram).1 (sized.malloc_size s.heap 20) h k

  point_to-IsPiece :
      (data_bytes : List ℕ) (pcb : Pcb) (d : Draft) (seglen : ℕ) (s : Buffers W)
      → seglen ≤ mss_local pcb
      → mss_local pcb < 1000
      → d.pos + seglen ≤ length data_bytes
      → d.oversize ≡ 0
      → IsPieceIfAny false 0
          (mss_local pcb)
          (piece data_bytes d.pos seglen)
          (point_to (alloc env.mem_malloc s transport seglen rom).0 data_bytes d.pos d.oversize)
  unfolding alloc
  point_to-IsPiece data_bytes pcb d seglen s h k l z = rw z (
      rom-IsPiece (memp_malloc s.memp pbuf).0 data_bytes false d.pos seglen (mss_local pcb) l h
        (omega arith))

  -- The pbufs of phase 3.
  pub phase3_pbufs-IsPiece :
      (data_bytes : List ℕ) (copy more : Bool) (pcb : Pcb) (d : Draft) (seglen : ℕ) (s : Buffers W)
      → seglen ≤ mss_local pcb
      → mss_local pcb < 1000
      → d.pos + seglen ≤ length data_bytes
      → (copy ≡ false → d.oversize ≡ 0)
      → IsPieceIfAny copy 20
          (mss_local pcb)
          (piece data_bytes d.pos seglen)
          (phase3_pbufs env data_bytes copy more pcb d seglen s).0
  unfolding phase3_pbufs
  phase3_pbufs-IsPiece data_bytes true more pcb d seglen s h k l z =
      prealloc-IsPiece transport data_bytes d.pos seglen (mss_local pcb) pcb more (is_empty d.queue)
        s h k l
  phase3_pbufs-IsPiece data_bytes false more pcb d seglen s h k l z =
      let (e', s1') = alloc env.mem_malloc s transport seglen rom in
      add_header-IsPiece data_bytes false more (point_to e' data_bytes d.pos d.oversize)
        (piece data_bytes d.pos seglen) (mss_local pcb) s1'
        (point_to-IsPiece data_bytes pcb d seglen s h k l (z refl)) k
