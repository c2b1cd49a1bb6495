-- ===== src/Tcp/In/Rtt.antt =====
-- src/tcp_in.c: the round-trip time estimation in `tcp_receive`. The fields `sa`, `sv` and `rto`
-- and the variable `m` are s16_t.
use rudp.Prelude.{
  leb→lt, suc, leb→le, lt→ltb, ℕ, ◌+◌, ◌-◌, ◌*◌, ◌/◌, ◌%◌, ◌≤◌, ◌<◌, ◌≡◌, refl, ap, true, false,
  ltb, leb, if◌then◌else◌, arith, Bool-cases, inl, inr,
}
use rudp.Prelude.Int.{ℤ, pos, negsuc, ◌+ℤ◌, ◌-ℤ◌, div_ℤ}
use rudp.Pbuf.{u16_mod}

-- The conversion to an s16_t.
abbrev pub to_s16 : ℤ → ℤ
to_s16 (pos n) = let r = n % u16_mod in if ltb r 32768 then pos r else negsuc (65535 - r)
to_s16 (negsuc n) = let r = n % u16_mod in if ltb r 32768 then negsuc r else pos (65535 - r)

abbrev pub abs_ℤ : ℤ → ℤ
abs_ℤ (pos n) = pos n
abs_ℤ (negsuc n) = pos (n + 1)

-- The new `sa`, `sv` and `rto` for a measured time `m`.
unfoldable pub rtt_update : (m sa sv : ℤ) → ℤ × ℤ × ℤ
rtt_update m sa sv =
    let m1 = to_s16 (m -ℤ div_ℤ sa 8) in
    let sa' = to_s16 (sa +ℤ m1) in
    let m2 = to_s16 (abs_ℤ m1) in
    let m3 = to_s16 (m2 -ℤ div_ℤ sv 4) in
    let sv' = to_s16 (sv +ℤ m3) in (sa', sv', to_s16 (div_ℤ sa' 8 +ℤ sv'))

pos-to_s16 : (n : ℕ) → n < 32768 → to_s16 (pos n) ≡ pos n
pos-to_s16 n h = let e : n % u16_mod ≡ n = omega arith in rw (e, lt→ltb n 32768 h) refl

negsuc-to_s16 : (n : ℕ) → n < 32768 → to_s16 (negsuc n) ≡ negsuc n
negsuc-to_s16 n h = let e : n % u16_mod ≡ n = omega arith in rw (e, lt→ltb n 32768 h) refl

diff_le : (m d : ℕ) → d ≤ m → pos m -ℤ pos d ≡ pos (m - d)
diff_le m d h =
    let e : leb (0 + d) (m + 0) ≡ true = ground arith in
    let f : m + 0 - (0 + d) ≡ m - d = omega arith in rw e (ap pos f)

diff_lt : (m d : ℕ) → m < d → pos m -ℤ pos d ≡ negsuc (d - m - 1)
diff_lt m d h =
    let e : leb (0 + d) (m + 0) ≡ false = ground arith in
    let f : 0 + d - (m + 0) - 1 ≡ d - m - 1 = omega arith in rw e (ap negsuc f)

sum_pos : (a b : ℕ) → pos a +ℤ pos b ≡ pos (a + b)
sum_pos a b =
    let e : leb (0 + 0) (a + b) ≡ true = ground arith in
    let f : a + b - (0 + 0) ≡ a + b = omega arith in rw e (ap pos f)

sum_neg : (a n : ℕ) → n < a → pos a +ℤ negsuc n ≡ pos (a - n - 1)
sum_neg a n h =
    let e : leb (0 + suc n) (a + 0) ≡ true = ground arith in
    let f : a + 0 - (0 + suc n) ≡ a - n - 1 = omega arith in rw e (ap pos f)

-- The distance of two numbers.
abbrev pub dist : ℕ → ℕ → ℕ
dist m d = m - d + (d - m)

-- A sum that cannot overflow: `a` and the difference of `m` and `d`, when `d` is no more than `a`;
-- and the size of that difference.
shifted_sum :
    (a m d : ℕ)
    → d ≤ a
    → a < 32768
    → m < 32768
    → a - d + m < 32768
    → (to_s16 (pos a +ℤ to_s16 (pos m -ℤ pos d)) ≡ pos (a - d + m))
      × (to_s16 (abs_ℤ (to_s16 (pos m -ℤ pos d))) ≡ pos (dist m d))
shifted_sum a m d h k j i = elim (Bool-cases (leb d m)) [
  | inl less ↦
      let l = leb→le d m less in
      let e : a + (m - d) ≡ a - d + m = omega arith in
      let f : m - d ≡ dist m d = omega arith in
      rw
        (
          diff_le m d l,
          pos-to_s16 (m - d) (omega arith),
          sum_pos a (m - d),
          pos-to_s16 (a + (m - d)) (omega arith),
          pos-to_s16 (m - d) (omega arith),
        )
        (ap pos e, ap pos f)
  | inr more ↦
      let l = leb→lt d m more in
      let n = d - m - 1 in
      let e : a - n - 1 ≡ a - d + m = omega arith in
      let f : n + 1 ≡ dist m d = omega arith in
      rw
        (
          diff_lt m d l,
          negsuc-to_s16 n (omega arith),
          sum_neg a n (omega arith),
          pos-to_s16 (a - n - 1) (omega arith),
          pos-to_s16 (n + 1) (omega arith),
        )
        (ap pos e, ap pos f)
]

-- With a measured time of at most `top` ticks, and with `sa` and `sv` at most 8 and 4 times that,
-- where `top` is at most 4095, no 16-bit computation overflows: the new `sa`, `sv` and `rto` are
-- those of Jacobson's formulas, and `sa` and `sv` keep their bounds, so that `rto` is at most 5
-- times `top`.
pub rtt_update_jacobson :
    (top m a v : ℕ)
    → top ≤ 4095
    → m ≤ top
    → a ≤ 8 * top
    → v ≤ 4 * top
    → let sa' = a - a / 8 + m in
      let sv' = v - v / 4 + dist m (a / 8) in
      (rtt_update (pos m) (pos a) (pos v) ≡ (pos sa', pos sv', pos (sa' / 8 + sv')))
      × (sa' ≤ 8 * top)
      × (sv' ≤ 4 * top)
      × (sa' / 8 + sv' ≤ 5 * top)
unfolding rtt_update
rtt_update_jacobson top m a v t hm ha hv =
    let sa' = a - a / 8 + m in
    let e = dist m (a / 8) in
    let sv' = v - v / 4 + e in
    let first = shifted_sum a m (a / 8) (omega arith) (omega arith) (omega arith) (omega arith) in
    let second = shifted_sum v e (v / 4) (omega arith) (omega arith) (omega arith) (omega arith) in
    (
      rw
          (
            first.0,
            first.1,
            second.0,
            sum_pos (sa' / 8) sv',
            pos-to_s16 (sa' / 8 + sv') (omega arith),
          )
          refl,
      omega arith,
      omega arith,
      omega arith,
    )
