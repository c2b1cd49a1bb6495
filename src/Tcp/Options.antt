-- ===== src/Tcp/Options.antt =====
-- src/tcp_in.c: the options of an incoming segment, `tcp_getoptbyte` and `tcp_parseopt`. The memory
-- behind a pointer is a function from an offset to the byte there, since the code may read behind
-- the options.
pub mod Total
pub mod Encode
use rudp.Prelude.{
  ℕ, zero, suc, ◌+◌, ◌-◌, ◌*◌, ◌%◌, ◌≤◌, ◌<◌, ◌≡◌, refl, Bool, true, false, ltb, leb, ◌==◌, ◌||◌,
  not, if◌then◌else◌, arith, Option, none, some,
}
use rudp.Pbuf.{u8_mod, u16_mod}
use rudp.Tcp.Types.{Pcb, tcp_mss}

-- `tcphdr_opt1len`, the options behind the header, and `tcphdr_opt2`, those in the next pbuf.
pub record OptBytes : Type 0 where
  pub opt1len : ℕ
  pub opt1 : ℕ → ℕ
  pub opt2 : Option (ℕ → ℕ)

-- `tcp_getoptbyte` at the index `tcp_optidx`, which it increments.
abbrev pub getoptbyte : OptBytes → ℕ → ℕ
getoptbyte o optidx = elim o.opt2 [
  | none ↦ o.opt1 optidx
  | some opt2 ↦
      if ltb optidx o.opt1len then o.opt1 optidx else opt2 ((optidx + u16_mod - o.opt1len) % u8_mod)
]

-- The option mss, limited to the configured value.
abbrev pub limit_mss : ℕ → ℕ
limit_mss mss = if ltb tcp_mss mss || mss == 0 then tcp_mss else mss

-- One round of the loop: the end of the parse, or the next index and mss.
pub data OptStep : Type 0 where
  stop : OptStep
  next : (optidx mss : ℕ) → OptStep

abbrev mss_step : OptBytes → (max_c optidx mss : ℕ) → OptStep
mss_step o max_c optidx mss =
    if not (getoptbyte o (optidx + 1) == 4) || ltb max_c (optidx + 2 - 2 + 4)
    then stop
    else next (optidx + 4) (limit_mss (getoptbyte o (optidx + 2) * 256 + getoptbyte o (optidx + 3)))

abbrev other_step : OptBytes → (optidx mss : ℕ) → OptStep
other_step o optidx mss =
    let data_byte = getoptbyte o (optidx + 1) in
    if ltb data_byte 2 then stop else next ((optidx + 2 + (data_byte - 2)) % u16_mod) mss

abbrev opt_step : OptBytes → (max_c optidx mss : ℕ) → OptStep
opt_step o max_c optidx mss =
    let opt = getoptbyte o optidx in
    if opt == 0
    then stop
    else if opt == 1
    then next (optidx + 1) mss
    else if opt == 2
    then mss_step o max_c optidx mss
    else other_step o optidx mss

-- The loop, with the mss that it leaves; none if the fuel does not last.
parse_loop : ℕ → OptBytes → (max_c optidx mss : ℕ) → Option ℕ
parse_loop zero o max_c optidx mss = if ltb optidx max_c then none else some mss
parse_loop (suc f) o max_c optidx mss =
    if ltb optidx max_c
    then (elim (opt_step o max_c optidx mss) [
      | stop ↦ some mss
      | next optidx' mss' ↦ parse_loop f o max_c optidx' mss'
    ])
    else some mss

-- `tcp_parseopt` of a segment whose header has `hdrlen` words: the new mss of the control block.
-- Every round moves the index on, so as many rounds as there are option bytes are enough.
unfoldable pub parseopt : OptBytes → (hdrlen : ℕ) → (mss : ℕ) → Option ℕ
unfolding parse_loop
parseopt o hdrlen mss =
    let max_c = (hdrlen - 5) * 4 % u16_mod in
    if ltb 5 hdrlen then parse_loop max_c o max_c 0 mss else some mss
