-- ===== src/Tcp/Ports.antt =====
-- src/tcp.c: the choice of a local port, `tcp_new_port`. The local ports of all the control blocks
-- on the lists are the list `used`.
use rudp.Prelude.{
  ℕ, zero, suc, ◌+◌, ◌-◌, ◌%◌, ◌≤◌, ◌<◌, ◌≡◌, refl, Bool, true, false, ◌==◌, ◌||◌, if◌then◌else◌,
  arith, List, [], ◌∷◌, ◌⊎◌, inl, inr, Bool-cases, ap, ◌∙◌, sym,
}

-- TCP_LOCAL_PORT_RANGE_START, and the number of ports from there to TCP_LOCAL_PORT_RANGE_END.
abbrev pub range_start : ℕ
range_start = 0xc000

abbrev pub range_end : ℕ
range_end = 0xffff

abbrev pub range_size : ℕ
range_size = 0x4000

abbrev pub contains : ℕ → List ℕ → Bool
contains n [] = false
contains n (m ∷ ms) = m == n || contains n ms

-- The step at the label `again`. The increment wraps to 0 only at the end of the range.
abbrev pub next_port : ℕ → ℕ
next_port port = if port == range_end then range_start else port + 1

-- The rounds from `again` on, of which `k` are left before the counter `n` passes its limit. The
-- result, or 0, and the new `tcp_port`.
port_loop : (k : ℕ) → (used : List ℕ) → (port : ℕ) → ℕ × ℕ
port_loop zero used port = (0, port)
port_loop (suc k) used port =
    let onward = port_loop k used (next_port port) in
    if contains (next_port port) used then onward else (next_port port, next_port port)

-- `tcp_new_port`. The counter allows as many rounds as the range has ports.
unfoldable pub new_port : (used : List ℕ) → (tcp_port : ℕ) → ℕ × ℕ
unfolding port_loop
new_port used tcp_port = port_loop range_size used tcp_port

abbrev pub InRange : ℕ → Type 0
InRange port = (range_start ≤ port) × (port ≤ range_end)

-- The port that is `i` steps behind `port`.
abbrev behind : ℕ → ℕ → ℕ
behind port i = range_start + (port - range_start + 1 + i) % range_size

-- What `k` rounds find: a port of the range that nobody uses, or that the next `k` ports are in
-- use.
abbrev Found : ℕ → List ℕ → ℕ → ℕ × ℕ → Type 0
Found k used port (r, port') =
    InRange port'
    × (((r ≡ 0) × ((i : ℕ) → i < k → contains (behind port i) used ≡ true))
        ⊎ (InRange r × (contains r used ≡ false)))

next_port-InRange : (port : ℕ) → InRange port → InRange (next_port port)
next_port-InRange port h = ground arith

next_port-behind : (port : ℕ) → InRange port → next_port port ≡ behind port 0
next_port-behind port h = ground arith

behind-next_port : (port i : ℕ) → InRange port → behind (next_port port) i ≡ behind port (suc i)
behind-next_port port i h = ground arith

taken_later :
    (k : ℕ) (used : List ℕ) (port i : ℕ)
    → InRange port
    → contains (next_port port) used ≡ true
    → ((j : ℕ) → j < k → contains (behind (next_port port) j) used ≡ true)
    → i < suc k
    → contains (behind port i) used ≡ true
taken_later k used port zero h c t l =
    ap (λ (n : ℕ). contains n used) (sym (next_port-behind port h)) ∙ c
taken_later k used port (suc i) h c t l =
    ap (λ (n : ℕ). contains n used) (sym (behind-next_port port i h)) ∙ t i (omega arith)

Found-later :
    (k : ℕ) (used : List ℕ) (port : ℕ) (r : ℕ × ℕ)
    → InRange port
    → contains (next_port port) used ≡ true
    → Found k used (next_port port) r
    → Found (suc k) used port r
Found-later k used port r h c (p, inr free) = (p, inr free)
Found-later k used port r h c (p, inl (z, t)) =
    (p, inl (z, λ i l. taken_later k used port i h c t l))

port_loop-Found :
    (k : ℕ) (used : List ℕ) (port : ℕ) → InRange port → Found k used port (port_loop k used port)
unfolding port_loop
port_loop-Found zero used port h = (h, inl (refl, λ i l. absurd (omega arith)))
port_loop-Found (suc k) used port h = elim (Bool-cases (contains (next_port port) used)) [
  | inl taken ↦ rw taken (
      Found-later k used port (port_loop k used (next_port port)) h taken
        (port_loop-Found k used (next_port port) (next_port-InRange port h)))
  | inr free ↦ rw free (next_port-InRange port h, inr (next_port-InRange port h, free))
]

-- From a counter in the range of local ports, `tcp_new_port` leaves the counter in the range, and
-- either returns a port of the range that no control block uses, or it returns 0 and each port of
-- the range is in use.
pub new_port_free :
    (used : List ℕ) (tcp_port : ℕ)
    → InRange tcp_port
    → let (r, tcp_port') = new_port used tcp_port in
      InRange tcp_port'
      × (((r ≡ 0) × ((q : ℕ) → InRange q → contains q used ≡ true))
          ⊎ (InRange r × (contains r used ≡ false)))
unfolding new_port
new_port_free used tcp_port h =
    let (range, found) = port_loop-Found range_size used tcp_port h in
    (
      range,
      elim found [
        | inr free ↦ inr free
        | inl taken ↦ inl (
          taken.0,
          λ q z.
              let i =
                (q - range_start + range_size - (tcp_port - range_start) + (range_size - 1))
                % range_size in
              let e : behind tcp_port i ≡ q = omega (arith, h, z) in
              ap (λ (n : ℕ). contains n used) (sym e) ∙ taken.1 i (omega arith),
        )
      ],
    )
