-- ===== src/Tcp/Options/Total.antt =====
-- That the parse of the options in src/tcp_in.c ends, keeps the mss in range, and reads no more
-- than one byte behind the options.
use rudp.Prelude.{
  ltb→le, or_true, ltb→lt, inr, inl, Bool-cases, le→not_ltb, ℕ, zero, suc, ◌+◌, ◌-◌, ◌*◌, ◌%◌, ◌≤◌,
  ◌<◌, ◌≡◌, refl, ltb, ◌==◌, not, arith, Option, none, some,
}
use rudp.Pbuf.{u8_mod, u16_mod}
use rudp.Tcp.Types.{tcp_mss}
use rudp.Tcp.Options.{OptBytes, getoptbyte, OptStep, stop, next, opt_step, parse_loop, parseopt}

abbrev pub InRange : ℕ → Type 0
InRange mss = (0 < mss) × (mss ≤ tcp_mss)

-- A result that is there, with an mss in range.
abbrev pub Parsed : Option ℕ → Type 0
Parsed none = ⊥
Parsed (some mss) = InRange mss

-- A round moves on, by no more than the longest option.
abbrev Moves : ℕ → OptStep → Type 0
Moves optidx stop = Unit {0}
Moves optidx (next optidx' mss) = (optidx < optidx') × (InRange mss)

opt_step-Moves :
    (o : OptBytes) (max_c optidx mss : ℕ)
    → ((i : ℕ) → getoptbyte o i < u8_mod)
    → optidx < u8_mod
    → InRange mss
    → Moves optidx (opt_step o max_c optidx mss)
opt_step-Moves o max_c optidx mss b h r = let k = b (optidx + 1) in ground arith

parse_more :
    (f : ℕ) (o : OptBytes) (max_c optidx mss : ℕ) (s : OptStep)
    → Moves optidx s
    → InRange mss
    → ((optidx' mss' : ℕ)
        → optidx < optidx'
        → InRange mss'
        → Parsed (parse_loop f o max_c optidx' mss'))
    → Parsed (elim s [ stop ↦ some mss | next optidx' mss' ↦ parse_loop f o max_c optidx' mss' ])
parse_more f o max_c optidx mss stop m r k = r
parse_more f o max_c optidx mss (next optidx' mss') m r k = k optidx' mss' m.0 m.1

parse_loop-Parsed :
    (f : ℕ) (o : OptBytes) (max_c optidx mss : ℕ)
    → ((i : ℕ) → getoptbyte o i < u8_mod)
    → max_c < u8_mod
    → max_c ≤ f + optidx
    → InRange mss
    → Parsed (parse_loop f o max_c optidx mss)
unfolding parse_loop
parse_loop-Parsed zero o max_c optidx mss b c e r = rw (le→not_ltb max_c optidx (omega arith)) r
parse_loop-Parsed (suc f) o max_c optidx mss b c e r = elim (Bool-cases (ltb optidx max_c)) [
  | inl more ↦
      let h = ltb→lt optidx max_c more in
      rw more (
        parse_more f o max_c optidx mss (opt_step o max_c optidx mss)
          (opt_step-Moves o max_c optidx mss b (omega arith) r) r
          (λ optidx' mss' k r'. parse_loop-Parsed f o max_c optidx' mss' b c (omega arith) r'))
  | inr done ↦ rw done r
]

-- For a header of at most 15 words and memory made of bytes, the parse ends within its fuel,
-- whatever the options are, and leaves an mss between 1 and TCP_MSS if it was there before.
pub parseopt-Parsed :
    (o : OptBytes) (hdrlen mss : ℕ)
    → ((i : ℕ) → getoptbyte o i < u8_mod)
    → hdrlen < 16
    → InRange mss
    → Parsed (parseopt o hdrlen mss)
unfolding parseopt
parseopt-Parsed o hdrlen mss b h r = elim (Bool-cases (ltb 5 hdrlen)) [
  | inl more ↦
      let max_c = (hdrlen - 5) * 4 % u16_mod in
      rw more (parse_loop-Parsed max_c o max_c 0 mss b (omega arith) (omega arith) r)
  | inr short ↦ rw short r
]

-- That the bytes agree up to the index `n`, inclusive.
abbrev pub Agree : OptBytes → OptBytes → ℕ → Type 0
Agree o o' n = (i : ℕ) → i ≤ n → getoptbyte o i ≡ getoptbyte o' i

opt_step-Agree :
    (o o' : OptBytes) (max_c optidx mss : ℕ)
    → Agree o o' max_c
    → optidx < max_c
    → opt_step o max_c optidx mss ≡ opt_step o' max_c optidx mss
opt_step-Agree o o' max_c optidx mss a h = elim (Bool-cases (ltb max_c (optidx + 2 - 2 + 4))) [
  | inl short ↦
      rw
        (
          a optidx (omega arith),
          a (optidx + 1) (omega arith),
          short,
          or_true (not (getoptbyte o' (optidx + 1) == 4)),
        )
        refl
  | inr fits ↦
      let k = ltb→le max_c (optidx + 2 - 2 + 4) fits in
      rw
        (
          a optidx (omega arith),
          a (optidx + 1) (omega arith),
          a (optidx + 2) (omega arith),
          a (optidx + 3) (omega arith),
        )
        refl
]

agree_more :
    (f : ℕ) (o o' : OptBytes) (max_c mss : ℕ) (s : OptStep)
    → ((optidx' mss' : ℕ) → parse_loop f o max_c optidx' mss' ≡ parse_loop f o' max_c optidx' mss')
    → (elim s [ stop ↦ some mss | next optidx' mss' ↦ parse_loop f o max_c optidx' mss' ])
      ≡ (elim s [ stop ↦ some mss | next optidx' mss' ↦ parse_loop f o' max_c optidx' mss' ])
agree_more f o o' max_c mss stop k = refl
agree_more f o o' max_c mss (next optidx' mss') k = k optidx' mss'

parse_loop-Agree :
    (f : ℕ) (o o' : OptBytes) (max_c optidx mss : ℕ)
    → Agree o o' max_c
    → parse_loop f o max_c optidx mss ≡ parse_loop f o' max_c optidx mss
unfolding parse_loop
parse_loop-Agree zero o o' max_c optidx mss a = refl
parse_loop-Agree (suc f) o o' max_c optidx mss a = elim (Bool-cases (ltb optidx max_c)) [
  | inl more ↦
      rw (more, opt_step-Agree o o' max_c optidx mss a (ltb→lt optidx max_c more))
        (agree_more f o o' max_c mss (opt_step o' max_c optidx mss)
          (λ optidx' mss'. parse_loop-Agree f o o' max_c optidx' mss' a))
  | inr done ↦ rw done refl
]

-- The parse depends on no byte behind the first one that follows the options: with the same bytes
-- up to that one, the result is the same.
pub parseopt-Agree :
    (o o' : OptBytes) (hdrlen mss : ℕ)
    → Agree o o' ((hdrlen - 5) * 4)
    → hdrlen < 16
    → parseopt o hdrlen mss ≡ parseopt o' hdrlen mss
unfolding parseopt
parseopt-Agree o o' hdrlen mss a h =
    let e : (hdrlen - 5) * 4 % u16_mod ≡ (hdrlen - 5) * 4 = omega arith in
    rw (e, parse_loop-Agree ((hdrlen - 5) * 4) o o' ((hdrlen - 5) * 4) 0 mss a) refl
