-- ===== src/Pbuf.antt =====
-- Packet buffers: include/lwip/pbuf.h and src/pbuf.c. A `struct pbuf *` is the list of the pbufs
-- that its `next` fields lead through. A block stands for the memory that a payload pointer points
-- into, and the pointer is the offset into it.
pub mod Free
pub mod Cat
pub mod Shrink
pub mod Header
pub mod Read
pub mod Write
pub mod Copy
pub mod Alloc
pub mod Release
mod Tests
use rudp.Prelude.{
  refl, length-drop, length-append, length-take, arith, ℕ, ◌+◌, ◌%◌, ◌^◌, ◌≤◌, ◌<◌, ◌≡◌, Bool, List,
  [], ◌∷◌, ◌++◌, length, take, drop,
}

pub data PbufType : Type 0 where
  ram rom ref pool : PbufType

pub data PbufLayer : Type 0 where
  transport ip raw : PbufLayer

-- The bits of `flags` that the library sets or tests.
pub record PbufFlags : Type 0 where
  pub push : Bool
  pub tcp_fin : Bool

-- Without its `next` field, which the list stands for.
pub record Pbuf : Type 0 where
  pub block : List ℕ
  pub payload : ℕ
  pub tot_len : ℕ
  pub len : ℕ
  pub kind : PbufType
  pub flags : PbufFlags
  pub refs : ℕ

abbrev pub Chain : Type 0
Chain = List Pbuf

abbrev pub u8_mod : ℕ
u8_mod = 2 ^ 8

abbrev pub u16_mod : ℕ
u16_mod = 2 ^ 16

-- The bytes from the payload pointer on.
abbrev pub payload_bytes : Pbuf → List ℕ
payload_bytes p = take p.len (drop p.payload p.block)

abbrev pub bytes : Chain → List ℕ
bytes [] = []
bytes (p ∷ ps) = payload_bytes p ++ bytes ps

abbrev pub tot_len : Chain → ℕ
tot_len [] = 0
tot_len (p ∷ ps) = p.tot_len

-- The invariant that pbuf.h states of a chain, with the bounds of its fields.
abbrev pub IsChain : Chain → Type 0
IsChain [] = Unit {0}
IsChain (p ∷ ps) =
    (p.tot_len ≡ p.len + tot_len ps)
    × (p.payload + p.len ≤ length p.block)
    × (p.tot_len < u16_mod)
    × IsChain ps

pub length-payload_bytes :
    (p : Pbuf) → p.payload + p.len ≤ length p.block → length (payload_bytes p) ≡ p.len
length-payload_bytes p h =
    omega (arith, length-take p.len (drop p.payload p.block), length-drop p.payload p.block)

pub length-bytes : (ps : Chain) → IsChain ps → length (bytes ps) ≡ tot_len ps
length-bytes [] c = refl
length-bytes (p ∷ ps) c = omega (
  arith,
  length-append (payload_bytes p) (bytes ps),
  length-payload_bytes p c.1,
  length-bytes ps c.3,
)
