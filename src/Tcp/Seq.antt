-- ===== src/Tcp/Seq.antt =====
-- include/lwip/tcp_impl.h: the comparisons of sequence numbers, which are u32_t. A difference is
-- read as an s32_t, so it is negative if its top bit is set.
use rudp.Prelude.{ℕ, ◌+◌, ◌-◌, ◌%◌, ◌^◌, ◌<◌, ◌≡◌, Bool, ◌&&◌, ◌||◌, not, ltb, leb, ◌==◌, arith}

abbrev pub u32_mod : ℕ
u32_mod = 2 ^ 32

-- The largest difference that is not negative, plus 1.
abbrev pub half : ℕ
half = 2 ^ 31

-- a - b in a u32_t.
abbrev pub seq_sub : ℕ → ℕ → ℕ
seq_sub a b = (a + u32_mod - b) % u32_mod

unfoldable pub seq_lt : ℕ → ℕ → Bool
seq_lt a b = leb half (seq_sub a b)

unfoldable pub seq_leq : ℕ → ℕ → Bool
seq_leq a b = leb half (seq_sub a b) || seq_sub a b == 0

unfoldable pub seq_gt : ℕ → ℕ → Bool
seq_gt a b = ltb (seq_sub a b) half && not (seq_sub a b == 0)

unfoldable pub seq_geq : ℕ → ℕ → Bool
seq_geq a b = ltb (seq_sub a b) half

-- Whether b <= a <= c.
unfoldable pub seq_between : (a b c : ℕ) → Bool
unfolding seq_geq seq_leq
seq_between a b c = seq_geq a b && seq_leq a c

pub seq_lt-ltb :
    (x y : ℕ) → x < y + half → y < x + half → seq_lt (x % u32_mod) (y % u32_mod) ≡ ltb x y
unfolding seq_lt
seq_lt-ltb x y h k = ground arith

pub seq_leq-leb :
    (x y : ℕ) → x < y + half → y < x + half → seq_leq (x % u32_mod) (y % u32_mod) ≡ leb x y
unfolding seq_leq
seq_leq-leb x y h k = ground arith

pub seq_gt-ltb :
    (x y : ℕ) → x < y + half → y < x + half → seq_gt (x % u32_mod) (y % u32_mod) ≡ ltb y x
unfolding seq_gt
seq_gt-ltb x y h k = ground arith

pub seq_geq-leb :
    (x y : ℕ) → x < y + half → y < x + half → seq_geq (x % u32_mod) (y % u32_mod) ≡ leb y x
unfolding seq_geq
seq_geq-leb x y h k = ground arith

-- Of two positions in an unbounded stream that are less than 2^31 apart, the four comparisons of
-- the 32-bit sequence numbers agree with the order of the positions.
pub seq_order :
    (x y : ℕ)
    → x < y + half
    → y < x + half
    → (seq_lt (x % u32_mod) (y % u32_mod) ≡ ltb x y)
      × (seq_leq (x % u32_mod) (y % u32_mod) ≡ leb x y)
      × (seq_gt (x % u32_mod) (y % u32_mod) ≡ ltb y x)
      × (seq_geq (x % u32_mod) (y % u32_mod) ≡ leb y x)
seq_order x y h k =
    (seq_lt-ltb x y h k, seq_leq-leb x y h k, seq_gt-ltb x y h k, seq_geq-leb x y h k)

-- A window of `w` bytes from `b` on, with w below 2^31: `a` lies in it exactly if it is at most `w`
-- bytes behind `b`. It is what the definition that is switched off in tcp_impl.h computes.
pub seq_between-window :
    (a b w : ℕ)
    → a < u32_mod
    → b < u32_mod
    → w < half
    → seq_between a b ((b + w) % u32_mod) ≡ leb (seq_sub a b) w
unfolding seq_between
seq_between-window a b w ha hb hw = ground arith
