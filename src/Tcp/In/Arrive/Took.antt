-- ===== src/Tcp/In/Arrive/Took.antt =====
-- What is left of a packet when `tcp_input` of src/tcp_in.c has taken its header off.
use rudp.Pbuf.Read.{byte_at}
use rudp.Pbuf.Header.{header_hide-eq, header_hide}
use rudp.Tcp.Options.{OptBytes, getoptbyte}
use rudp.Prelude.{
  if◌then◌else◌, none, drop-append_right, ◌++◌, refl, take, subst, lt→ltb, ltb, some, if_elim,
  get_or-drop, ap₂, get_or-append_right, get_or-take, ◌∙◌, ap, length, ◌%◌, get_or-append_left,
  zero, suc, suc, arith, drop_zero, sym, ◌-◌, drop, [], get_or, ◌≡◌, ◌+◌, ◌*◌, ◌≤◌, ◌<◌, ◌∷◌, zero,
  ℕ,
}
use rudp.Tcp.In.Arrive.{
  split_options, null_read, dropped, take_header, tcp_hlen, taken, Taken, hide,
}
use rudp.Pbuf.{
  u8_mod, payload_bytes, length-payload_bytes, u16_mod, tot_len, bytes, IsChain, Chain, Pbuf,
}

-- The pbufs hold the bytes behind the header, and the options are those between the fixed part and
-- the data.
abbrev pub Took : (hdrlen : ℕ) → Chain → Taken → Type 0
Took hdrlen ps dropped = ⊥
Took hdrlen ps null_read = ⊥
Took hdrlen ps (taken ps' o) =
    (bytes ps' ≡ drop (hdrlen * 4) (bytes ps))
    × IsChain ps'
    × ((i : ℕ) → tcp_hlen + i < hdrlen * 4 → getoptbyte o i ≡ get_or (bytes ps) (tcp_hlen + i) 0)

-- The header is in the first two pbufs.
abbrev pub Fits : (hdrlen : ℕ) → Chain → Type 0
Fits hdrlen [] = ⊥
Fits hdrlen (p ∷ []) = hdrlen * 4 ≤ p.len
Fits hdrlen (p ∷ (q ∷ ps)) = hdrlen * 4 ≤ p.len + q.len

abbrev hidden : Pbuf → (n : ℕ) → Pbuf
hidden p n = record p { payload = p.payload + n; len = p.len - n; tot_len = p.tot_len - n }

hide-eq :
    (p : Pbuf) (ps : Chain) (n : ℕ)
    → p.len < u16_mod
    → p.tot_len < u16_mod
    → n ≤ p.len
    → n ≤ p.tot_len
    → hide (p ∷ ps) n ≡ hidden p n ∷ ps
unfolding hide
hide-eq p ps zero l t h k = ground arith
hide-eq p ps (suc m) l t h k =
    let len : (p.len + u16_mod - suc m) % u16_mod ≡ p.len - suc m = omega arith in
    let tot : (p.tot_len + u16_mod - suc m) % u16_mod ≡ p.tot_len - suc m = omega arith in
    let shrunk : ℕ → ℕ → Chain =
      λ l t. record p { payload = p.payload + suc m; len = l; tot_len = t } ∷ ps in
    ap (λ (r : Chain × ℕ). r.0) (header_hide-eq p ps m h) ∙ ap₂ shrunk len tot

hide-drop :
    (p : Pbuf) (ps : Chain) (n : ℕ)
    → IsChain (p ∷ ps)
    → n ≤ p.len
    → (bytes (hide (p ∷ ps) n) ≡ drop n (bytes (p ∷ ps)))
      × IsChain (hide (p ∷ ps) n)
      × (tot_len (hide (p ∷ ps) n) + n ≡ p.tot_len)
unfolding hide
hide-drop p ps zero c h = (sym (drop_zero (bytes (p ∷ ps))), c, omega arith)
hide-drop p ps (suc m) c h = let hid = header_hide p ps m c h in (hid.1, hid.2, hid.3)

-- A byte of the first pbuf.
byte_at-bytes :
    (p : Pbuf) (ps : Chain) (i : ℕ)
    → IsChain (p ∷ ps)
    → i < p.len
    → byte_at p i ≡ get_or (bytes (p ∷ ps)) i 0
byte_at-bytes p ps i c h = sym (
    get_or-append_left (payload_bytes p) (bytes ps) i 0 (omega (arith, length-payload_bytes p c.1))
    ∙ get_or-take p.len i (drop p.payload p.block) 0 h
    ∙ get_or-drop p.payload i p.block 0)

-- A byte of the second one.
byte_at-second :
    (p q : Pbuf) (ps : Chain) (i : ℕ)
    → IsChain (p ∷ (q ∷ ps))
    → i < q.len
    → byte_at q i ≡ get_or (bytes (p ∷ (q ∷ ps))) (p.len + i) 0
byte_at-second p q ps i c h =
    let n = length-payload_bytes p c.1 in
    let at : p.len + i - length (payload_bytes p) ≡ i = omega (arith, n) in
    byte_at-bytes q ps i c.3 h
    ∙ sym (
        get_or-append_right (payload_bytes p) (bytes (q ∷ ps)) (p.len + i) 0 (omega (arith, n))
        ∙ ap (λ (k : ℕ). get_or (bytes (q ∷ ps)) k 0) at)

split_options-eq :
    (p q : Pbuf) (ps : Chain) (optlen : ℕ) (opt1 : ℕ → ℕ)
    → p.len < u16_mod
    → p.tot_len < u16_mod
    → p.len < optlen
    → p.len ≤ p.tot_len
    → let p' = hidden p p.len in
      split_options (p ∷ (q ∷ ps)) optlen opt1
      ≡ taken
          (record p' { tot_len = (p'.tot_len + u16_mod - (optlen - p.len)) % u16_mod }
            ∷ hide (q ∷ ps) (optlen - p.len))
          (record { opt1len = p.len; opt1 = opt1; opt2 = some (byte_at q) })
unfolding split_options
split_options-eq p q ps optlen opt1 l t h k =
    rw (lt→ltb p.len optlen h, hide-eq p [] p.len l t (omega arith) k) refl

-- The options go on in the second pbuf.
split-Took :
    (p q : Pbuf) (ps : Chain) (hdrlen : ℕ)
    → IsChain (p ∷ (q ∷ ps))
    → tcp_hlen ≤ p.len
    → hdrlen < 16
    → p.len < hdrlen * 4
    → hdrlen * 4 ≤ p.len + q.len
    → Took hdrlen (p ∷ (q ∷ ps)) (
        split_options
          (hide (p ∷ (q ∷ ps)) tcp_hlen)
          ((hdrlen * 4 + u16_mod - tcp_hlen) % u16_mod)
          (λ i. byte_at p (tcp_hlen + i)))
split-Took p q ps hdrlen c h m k f =
    let opt1 : ℕ → ℕ = λ i. byte_at p (tcp_hlen + i) in
    let optlen : (hdrlen * 4 + u16_mod - tcp_hlen) % u16_mod ≡ hdrlen * 4 - tcp_hlen =
      omega arith in
    let p1 = hidden p tcp_hlen in
    let n = hdrlen * 4 - tcp_hlen - p1.len in
    let p2 = record (hidden p1 p1.len) {
      tot_len = ((hidden p1 p1.len).tot_len + u16_mod - n) % u16_mod;
    } in
    let o : OptBytes = record { opt1len = p1.len; opt1 = opt1; opt2 = some (byte_at q) } in
    let e : split_options (hide (p ∷ (q ∷ ps)) tcp_hlen)
          ((hdrlen * 4 + u16_mod - tcp_hlen) % u16_mod) opt1
        ≡ taken (p2 ∷ hide (q ∷ ps) n) o =
      ap₂ (λ (x : Chain) (i : ℕ). split_options x i opt1)
        (hide-eq p (q ∷ ps) tcp_hlen (omega (arith, c)) c.2 h (omega (arith, c))) optlen
      ∙ split_options-eq p1 q ps (hdrlen * 4 - tcp_hlen) opt1 (omega (arith, c)) (omega (arith, c))
          (omega arith) (omega (arith, c)) in
    let rest = hide-drop q ps n c.3 (omega arith) in
    let none_left : p1.len - p1.len ≡ 0 = omega arith in
    let size = length-payload_bytes p c.1 in
    subst (Took hdrlen (p ∷ (q ∷ ps))) (sym e) (
      ap (λ (i : ℕ). take i (drop p2.payload p.block) ++ bytes (hide (q ∷ ps) n)) none_left
          ∙ rest.0
          ∙ ap (λ (i : ℕ). drop i (bytes (q ∷ ps))) (omega (arith, size))
          ∙ sym (
              drop-append_right (hdrlen * 4) (payload_bytes p) (bytes (q ∷ ps))
                (omega (arith, size))),
      (omega (arith, rest.2, c), omega (arith, c), omega arith, rest.1),
      λ i b.
          if_elim (λ (x : ℕ). x ≡ get_or (bytes (p ∷ (q ∷ ps))) (tcp_hlen + i) 0) (ltb i p1.len) _ _
            (λ t. byte_at-bytes p (q ∷ ps) (tcp_hlen + i) c (ground arith))
            (λ t.
              let behind : p1.len ≤ i = ground arith in
              let here : (i + u16_mod - p1.len) % u8_mod ≡ i - p1.len = omega arith in
              let there : p.len + (i - p1.len) ≡ tcp_hlen + i = omega arith in
              ap (byte_at q) here
              ∙ byte_at-second p q ps (i - p1.len) c (omega arith)
              ∙ ap (λ (k : ℕ). get_or (bytes (p ∷ (q ∷ ps))) k 0) there),
    )

continued-Took :
    (p : Pbuf) (ps : Chain) (hdrlen : ℕ)
    → IsChain (p ∷ ps)
    → tcp_hlen ≤ p.len
    → hdrlen < 16
    → p.len < hdrlen * 4
    → Fits hdrlen (p ∷ ps)
    → Took hdrlen (p ∷ ps) (
        split_options
          (hide (p ∷ ps) tcp_hlen)
          ((hdrlen * 4 + u16_mod - tcp_hlen) % u16_mod)
          (λ i. byte_at p (tcp_hlen + i)))
continued-Took p [] hdrlen c h m k f = let clash : ⊥ = omega arith in absurd clash
continued-Took p (q ∷ ps) hdrlen c h m k f = split-Took p q ps hdrlen c h m k f

-- If the first pbuf of a packet holds the fixed part of the header, and the options end in it or in
-- the next one, the header is taken off: the pbufs hold the bytes behind it and keep their
-- invariant, and the options are read from their places, wherever the packet is split.
pub take_header-Took :
    (p : Pbuf) (ps : Chain) (hdrlen : ℕ)
    → IsChain (p ∷ ps)
    → tcp_hlen ≤ p.len
    → hdrlen < 16
    → Fits hdrlen (p ∷ ps)
    → Took hdrlen (p ∷ ps) (take_header (p ∷ ps) hdrlen)
unfolding take_header
take_header-Took p ps hdrlen c h m f =
    let optlen = (hdrlen * 4 + u16_mod - tcp_hlen) % u16_mod in
    let opt1 : ℕ → ℕ = λ i. byte_at p (tcp_hlen + i) in
    let split = split_options (hide (p ∷ ps) tcp_hlen) optlen opt1 in
    let whole =
      taken (hide (p ∷ ps) (hdrlen * 4)) (record { opt1len = optlen; opt1 = opt1; opt2 = none }) in
    let long = ltb p.len (hdrlen * 4) in
    if_elim (Took hdrlen (p ∷ ps)) (ltb p.len tcp_hlen) dropped (if long then split else whole)
      (λ t. let clash : ⊥ = ground arith in absurd clash)
      (λ t.
        if_elim (Took hdrlen (p ∷ ps)) long split whole
          (λ u. continued-Took p ps hdrlen c h m (ground arith) f)
          (λ u.
            let fits : hdrlen * 4 ≤ p.len = ground arith in
            let rest = hide-drop p ps (hdrlen * 4) c fits in
            (rest.0, rest.1, λ i b. byte_at-bytes p ps (tcp_hlen + i) c (omega (arith, fits)))))
