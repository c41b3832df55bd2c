-- ===== src/Bytes.antt =====
-- Raw memory under packed structures: bytes, little-endian fields, and the calls of the C library
-- that fill and move bytes.
pub mod Laws
pub mod Units
use msgcore.Prelude.{
  ℕ, zero, suc, ◌+◌, ◌-◌, ◌*◌, ◌/◌, ◌%◌, Bool, ◌&&◌, List, [], ◌∷◌, leb, ltb, ◌==◌, if◌then◌else◌,
  update,
}
use msgcore.Width.{AddrType, addr08, addr16, addr32, addr64}

-- The byte at each address.
abbrev pub Memory : Type 0
Memory = ℕ → ℕ

-- `q` is one of the `n` bytes at `p`.
abbrev pub within : ℕ → ℕ → ℕ → Bool
within p n q = leb p q && ltb q (p + n)

abbrev pub get08 : Memory → ℕ → ℕ
get08 m p = m p

abbrev pub get16 : Memory → ℕ → ℕ
get16 m p = m p + 0x100 * m (p + 1)

abbrev pub get32 : Memory → ℕ → ℕ
get32 m p = get16 m p + 0x1_0000 * get16 m (p + 2)

abbrev pub get64 : Memory → ℕ → ℕ
get64 m p = get32 m p + 0x1_0000_0000 * get32 m (p + 4)

-- A store casts to the field's width.
abbrev pub put08 : ℕ → ℕ → Memory → Memory
put08 p v m = update m p (v % 0x100)

abbrev pub put16 : ℕ → ℕ → Memory → Memory
put16 p v m = put08 (p + 1) (v / 0x100) (put08 p v m)

abbrev pub put32 : ℕ → ℕ → Memory → Memory
put32 p v m = put16 (p + 2) (v / 0x1_0000) (put16 p v m)

abbrev pub put64 : ℕ → ℕ → Memory → Memory
put64 p v m = put32 (p + 4) (v / 0x1_0000_0000) (put32 p v m)

-- A field of a width.
abbrev pub get : AddrType → Memory → ℕ → ℕ
get addr08 = get08
get addr16 = get16
get addr32 = get32
get addr64 = get64

abbrev pub put : AddrType → ℕ → ℕ → Memory → Memory
put addr08 = put08
put addr16 = put16
put addr32 = put32
put addr64 = put64

-- `memcpy`, which the source uses where the two do not overlap.
abbrev pub copy_bytes : ℕ → ℕ → ℕ → Memory → Memory
copy_bytes dst src n m q = if within dst n q then m (src + (q - dst)) else m q

-- `ZeroMemory`
abbrev pub zero_bytes : ℕ → ℕ → Memory → Memory
zero_bytes p n m q = if within p n q then 0 else m q

-- Units of 16 bits, one after the other.
abbrev pub put_units : ℕ → List ℕ → Memory → Memory
put_units p [] m = m
put_units p (u ∷ us) m = put_units (p + 2) us (put16 p u m)

abbrev pub get_units : Memory → ℕ → ℕ → List ℕ
get_units m p zero = []
get_units m p (suc n) = get16 m p ∷ get_units m (p + 2) n

-- How code over raw memory ends. What had been written by a throw stays.
pub data Fault : Type 0 where
  name_undersized name_size name_overrun bad_chain name_absent blob_zero below_floor : Fault
  blob_overused data_undersized copy_overrun blob_overrun leaves_block unknown_type : Fault
  block_absent : Fault

pub data Outcome (A : Type 0) : Type 0 where
  ok : A → Memory → Outcome A
  throw : Fault → Memory → Outcome A
