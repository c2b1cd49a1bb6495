-- ===== src/Tcp/Options/Encode.antt =====
-- That the parse of the options in src/tcp_in.c reads back a list of options that is written as
-- RFC 793 lays it out.
use rudp.Prelude.{
  lt→ltb, le→not_ltb, ℕ, zero, suc, ◌+◌, ◌-◌, ◌*◌, ◌/◌, ◌%◌, ◌≤◌, ◌<◌, ◌≡◌, refl, arith, none, some,
  List, [], ◌∷◌, ◌++◌, length, get_or, All, sym, ap, ◌∙◌, append_assoc, length-append,
  get_or-append_right,
}
use rudp.Pbuf.{u8_mod, u16_mod}
use rudp.Tcp.Options.{OptBytes, getoptbyte, next, opt_step, parse_loop, parseopt, limit_mss}

-- An option: the padding byte, a maximum segment size, or another kind with its contents.
pub data Opt : Type 0 where
  nop : Opt
  mss : ℕ → Opt
  other : (kind : ℕ) → List ℕ → Opt

abbrev pub encode : Opt → List ℕ
encode nop = 1 ∷ []
encode (mss n) = 2 ∷ 4 ∷ n / 256 ∷ n % 256 ∷ []
encode (other kind contents) = kind ∷ (length contents + 2) ∷ contents

abbrev pub encode_all : List Opt → List ℕ
encode_all [] = []
encode_all (o ∷ os) = encode o ++ encode_all os

-- An option that can be written: the numbers fit in their bytes, and `other` is no kind of the
-- rest.
abbrev pub IsOpt : Opt → Type 0
IsOpt nop = Unit {0}
IsOpt (mss n) = n < u16_mod
IsOpt (other kind contents) = (2 < kind) × (length contents + 2 < u8_mod)

-- The mss after an option, and after a list of them: the last one counts.
abbrev pub apply : Opt → ℕ → ℕ
apply nop m = m
apply (mss n) m = limit_mss n
apply (other kind contents) m = m

abbrev pub apply_all : List Opt → ℕ → ℕ
apply_all [] m = m
apply_all (o ∷ os) m = apply_all os (apply o m)

-- Options that lie in one piece behind the header.
abbrev pub one_piece : List ℕ → OptBytes
one_piece xs = record { opt1len = length xs; opt1 = λ i. get_or xs i 0; opt2 = none }

-- What follows the options: nothing, or the end-of-options byte.
abbrev pub IsEnd : List ℕ → Type 0
IsEnd [] = Unit {0}
IsEnd (x ∷ xs) = x ≡ 0

byte_after :
    (xs zs : List ℕ) (i j : ℕ)
    → i ≡ length xs + j
    → getoptbyte (one_piece (xs ++ zs)) i ≡ get_or zs j 0
byte_after xs zs i j e =
    let f : i - length xs ≡ j = omega arith in
    get_or-append_right xs zs i 0 (omega arith) ∙ ap (λ (k : ℕ). get_or zs k 0) f

opt_step-encode :
    (o : Opt) (xs ys : List ℕ) (m max_c : ℕ)
    → IsOpt o
    → length xs + length (encode o) ≤ max_c
    → max_c < u8_mod
    → opt_step (one_piece (xs ++ (encode o ++ ys))) max_c (length xs) m
      ≡ next (length xs + length (encode o)) (apply o m)
opt_step-encode nop xs ys m max_c k h l =
    rw (byte_after xs (encode nop ++ ys) (length xs) 0 (omega arith)) refl
opt_step-encode (mss n) xs ys m max_c k h l =
    let zs = encode (mss n) ++ ys in
    let e : n / 256 * 256 + n % 256 ≡ n = omega arith in
    rw
      (
        byte_after xs zs (length xs) 0 (omega arith),
        byte_after xs zs (length xs + 1) 1 (omega arith),
        byte_after xs zs (length xs + 2) 2 (omega arith),
        byte_after xs zs (length xs + 3) 3 (omega arith),
        le→not_ltb (length xs + 2 - 2 + 4) max_c (omega arith),
        e,
      )
      refl
opt_step-encode (other kind contents) xs ys m max_c k h l =
    let zs = encode (other kind contents) ++ ys in
    let e : (length xs + 2 + (length contents + 2 - 2)) % u16_mod
        ≡ length xs + length (encode (other kind contents)) =
      omega arith in
    rw
      (
        byte_after xs zs (length xs) 0 (omega arith),
        byte_after xs zs (length xs + 1) 1 (omega arith),
        le→not_ltb 2 (length contents + 2) (omega arith),
        e,
      )
      (ground arith)

encode_nonempty : (o : Opt) → 0 < length (encode o)
encode_nonempty nop = omega arith
encode_nonempty (mss n) = omega arith
encode_nonempty (other kind contents) = omega arith

length-whole :
    (w xs zs es : List ℕ) → w ≡ xs ++ (zs ++ es) → length w ≡ length xs + length zs + length es
length-whole w xs zs es e =
    ap length e ∙ omega (arith, length-append xs (zs ++ es), length-append zs es)

parse_loop-end :
    (f : ℕ) (es xs w : List ℕ) (m : ℕ)
    → w ≡ xs ++ es
    → IsEnd es
    → length w ≤ f + length xs
    → parse_loop f (one_piece w) (length w) (length xs) m ≡ some m
unfolding parse_loop
parse_loop-end zero es xs w m e n k = rw (le→not_ltb (length w) (length xs) (omega arith)) refl
parse_loop-end (suc f) [] xs w m e n k =
    rw (le→not_ltb (length w) (length xs) (omega (arith, ap length e, length-append xs []))) refl
parse_loop-end (suc f) (y ∷ es) xs w m e n k =
    let b : getoptbyte (one_piece w) (length xs) ≡ 0 =
      ap (λ zs. getoptbyte (one_piece zs) (length xs)) e
      ∙ byte_after xs (y ∷ es) (length xs) 0 (omega arith)
      ∙ n in
    rw (lt→ltb (length xs) (length w) (omega (arith, ap length e, length-append xs (y ∷ es))), b)
      refl

parse_loop-encode_all :
    (os : List Opt) (f : ℕ) (es xs w : List ℕ) (m : ℕ)
    → w ≡ xs ++ (encode_all os ++ es)
    → IsEnd es
    → All IsOpt os
    → length w < u8_mod
    → length w ≤ f + length xs
    → parse_loop f (one_piece w) (length w) (length xs) m ≡ some (apply_all os m)
unfolding parse_loop
parse_loop-encode_all [] f es xs w m e n a h k = parse_loop-end f es xs w m e n k
parse_loop-encode_all (o ∷ os) zero es xs w m e n a h k = absurd (
    omega (
      arith,
      length-whole w xs (encode_all (o ∷ os)) es e,
      length-append (encode o) (encode_all os),
      encode_nonempty o,
    ))
parse_loop-encode_all (o ∷ os) (suc f) es xs w m e n a h k =
    let rest = encode_all os ++ es in
    let size = length-whole w xs (encode_all (o ∷ os)) es e in
    let split = length-append (encode o) (encode_all os) in
    let one = encode_nonempty o in
    let first : w ≡ xs ++ (encode o ++ rest) =
      e ∙ ap (◌++◌ xs) (append_assoc (encode o) (encode_all os) es) in
    let second : w ≡ (xs ++ encode o) ++ rest = first ∙ sym (append_assoc xs (encode o) rest) in
    let at : length (xs ++ encode o) ≡ length xs + length (encode o) =
      length-append xs (encode o) in
    let step : opt_step (one_piece w) (length w) (length xs) m
        ≡ next (length xs + length (encode o)) (apply o m) =
      ap (λ zs. opt_step (one_piece zs) (length w) (length xs) m) first
      ∙ opt_step-encode o xs rest m (length w) a.0 (omega (arith, size, split)) h in
    rw (lt→ltb (length xs) (length w) (omega (arith, size, split, one)), step, sym at)
      (parse_loop-encode_all os f es (xs ++ encode o) w (apply o m) second n a.1 h
        (omega (arith, at, one)))

-- Options that are written one after the other, followed by nothing or by the end-of-options byte,
-- and that fill the header's words behind the fifth, are read back: the parse leaves the last
-- maximum segment size among them, limited to the configured one, or the old one if there is none.
pub parseopt-encode_all :
    (os : List Opt) (es : List ℕ) (hdrlen m : ℕ)
    → IsEnd es
    → All IsOpt os
    → 5 < hdrlen
    → hdrlen < 16
    → length (encode_all os ++ es) ≡ (hdrlen - 5) * 4
    → parseopt (one_piece (encode_all os ++ es)) hdrlen m ≡ some (apply_all os m)
unfolding parseopt
parseopt-encode_all os es hdrlen m n a h k e =
    let w = encode_all os ++ es in
    let d : (hdrlen - 5) * 4 % u16_mod ≡ length w = omega arith in
    rw (lt→ltb 5 hdrlen h, d)
      (parse_loop-encode_all os (length w) es [] w m refl n a (omega arith) (omega arith))
