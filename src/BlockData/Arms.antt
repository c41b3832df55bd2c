-- ===== src/BlockData/Arms.antt =====
-- The ladders of type tests, as functions of a type's number.
use msgcore.Prelude.{
  ℕ, ◌+◌, ◌/◌, ◌%◌, ◌^◌, ◌≤◌, ◌<◌, ◌≡◌, refl, true, false, some, none, arith, ◌==◌, if◌then◌else◌,
}
use msgcore.Width.{AddrType, addr08, addr16, addr32, addr_bytes, addr_limit}
use msgcore.BlockData.{is_blob, blob_arm, sizeof_scalar, sizeof_blob, type_sizeof_uv, type_sizeof}

-- The width of a counted type's counts.
abbrev pub arm_at : ℕ → AddrType
arm_at t = if t % 8 / 2 == 0 then addr08 else if t % 8 / 2 == 1 then addr16 else addr32

pub blob_arm-is_blob : (t : ℕ) → is_blob t ≡ true → blob_arm t ≡ some (arm_at t)
unfolding is_blob blob_arm
blob_arm-is_blob t b = ground arith

pub blob_arm-other : (t : ℕ) → is_blob t ≡ false → blob_arm t ≡ none
unfolding is_blob blob_arm
blob_arm-other t nb = ground arith

pub sizeof_scalar-is_blob : (t : ℕ) → is_blob t ≡ true → sizeof_scalar t ≡ none
unfolding is_blob sizeof_scalar
sizeof_scalar-is_blob t b = ground arith

-- The counts of a blob type fit 32 bits.
pub arm_narrow : (t : ℕ) → (addr_bytes (arm_at t) ≤ 4) × (addr_limit (arm_at t) ≤ 0x1_0000_0000)
arm_narrow t = ground arith

nonzero : (t : ℕ) → is_blob t ≡ true → (t == 0) ≡ false
unfolding is_blob
nonzero t b = ground arith

-- Room for a type with a blob of `n` bytes has room for the header, the counts, the blob and its
-- terminator.
pub type_sizeof-room :
    (u t n size : ℕ)
    → is_blob t ≡ true
    → n < 2 ^ 32
    → type_sizeof u t n ≤ size
    → 2 + sizeof_blob (arm_at t) + n ≤ size
unfolding type_sizeof type_sizeof_uv
type_sizeof-room u t n size b small le =
    let a = blob_arm-is_blob t b in
    let s = sizeof_scalar-is_blob t b in
    let nz : (t == 0) ≡ false = nonzero t b in
    let narrow = arm_narrow t in
    let uv : type_sizeof_uv t n ≡ (sizeof_blob (arm_at t) + n) % 2 ^ 64 =
      rw (type_sizeof_uv, nz, s, a) refl in
    ground arith
