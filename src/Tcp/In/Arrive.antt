-- ===== src/Tcp/In/Arrive.antt =====
-- src/tcp_in.c: the start of `tcp_input`: how the header and the options are taken off a packet.
pub mod Took
use rudp.Pbuf.Read.{byte_at}
use rudp.Tcp.Types.{tcp_hlen}
use rudp.Tcp.Options.{OptBytes}
use rudp.Prelude.{zero, suc, suc, some, ◌%◌, [], none, ◌-◌, ltb, ◌*◌, if◌then◌else◌, ◌+◌, ◌∷◌, ℕ}
use rudp.Pbuf.{u16_mod, Chain}
use rudp.Pbuf.Header.{header}
use rudp.Prelude.Int.{negsuc}

-- What becomes of a packet: it is dropped, or its header is read through a null pointer, or the
-- data is left in its pbufs, and the options are found.
pub data Taken : Type 0 where
  dropped null_read : Taken
  taken : Chain → OptBytes → Taken

-- `pbuf_header(p, -n)`, whose result is not looked at.
unfoldable pub hide : Chain → ℕ → Chain
unfolding header
hide ps zero = ps
hide ps (suc m) = (header ps (negsuc m)).0

-- The first pbuf with a total that is less by `n`, in front of the others.
abbrev pub lower_tot : Chain → (n : ℕ) → Chain → Chain
lower_tot [] n rest = rest
lower_tot (p ∷ ps) n rest = record p { tot_len = (p.tot_len + u16_mod - n) % u16_mod } ∷ rest

-- The options do not fit in the first pbuf, whose header is hidden already. They continue in the
-- next one.
unfoldable pub split_options : Chain → (optlen : ℕ) → (opt1 : ℕ → ℕ) → Taken
unfolding hide
split_options [] optlen opt1 = null_read
split_options (p ∷ []) optlen opt1 =
    if ltb p.len optlen
    then null_read
    else taken (p ∷ []) (record { opt1len = p.len; opt1 = opt1; opt2 = none })
split_options (p ∷ (q ∷ ps)) optlen opt1 =
    let opt2len = optlen - p.len in
    if ltb p.len optlen
    then taken (lower_tot (hide (p ∷ []) p.len) opt2len (hide (q ∷ ps) opt2len))
        (record { opt1len = p.len; opt1 = opt1; opt2 = some (byte_at q) })
    else taken (p ∷ (q ∷ ps)) (record { opt1len = p.len; opt1 = opt1; opt2 = none })

-- The header of `hdrlen` words at the start of a packet is taken off.
unfoldable pub take_header : Chain → (hdrlen : ℕ) → Taken
unfolding hide split_options
take_header [] hdrlen = null_read
take_header (p ∷ ps) hdrlen =
    let opt1len = (hdrlen * 4 + u16_mod - tcp_hlen) % u16_mod in
    let opt1 : ℕ → ℕ = λ i. byte_at p (tcp_hlen + i) in
    if ltb p.len tcp_hlen
    then dropped
    else if ltb p.len (hdrlen * 4)
    then split_options (hide (p ∷ ps) tcp_hlen) opt1len opt1
    else taken (hide (p ∷ ps) (hdrlen * 4)) (record { opt1len = opt1len; opt1 = opt1; opt2 = none })
