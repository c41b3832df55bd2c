-- ===== src/BlockData/Copy.antt =====
-- Copying data from one place to another (P2PmsgVBLock.cpp, `VBLockData_Copy`).
pub mod Counted
pub mod Overrun
pub mod Scalar
use msgcore.Prelude.{
  ℕ, ◌+◌, ◌-◌, ◌*◌, ◌%◌, ◌^◌, Bool, true, false, ◌||◌, Option, none, some, ltb, leb, ◌==◌,
  if◌then◌else◌,
}
use msgcore.Width.{AddrType, addr_bytes}
use msgcore.Bytes.{
  Memory, Outcome, ok, throw, get08, put08, put, copy_bytes, zero_bytes, copy_overrun,
}
use msgcore.BlockData.{bstr08, guid, time32, blob_arm, blob_size, blob_used, c_blob, sizeof_scalar}

-- The scalars that the ladder moves: all but the 32-bit time, which it leaves to an assertion.
unfoldable pub moved_scalar : ℕ → Option ℕ
moved_scalar t = if t == time32 then none else sizeof_scalar t

-- The variable types are laid out by their capacity, the others by what is used.
abbrev pub is_var : ℕ → Bool
is_var t = t % 2 == 1

-- The copy of a blob whose destination gets the capacity `size`. Two bytes of zero end it.
unfoldable pub copy_blob : AddrType → ℕ → ℕ → ℕ → Memory → Memory
copy_blob w size dst src m =
    let used = blob_used w m src in
    let m₁ = copy_bytes (c_blob w dst) (c_blob w src) used m in
    let m₂ = if ltb used size then zero_bytes (c_blob w dst + used) (size - used) m₁ else m₁ in
    let m₃ = put w (dst + 2 + addr_bytes w) used (put w (dst + 2) size m₂) in
    put08 (c_blob w dst + used + 1) 0 (put08 (c_blob w dst + used) 0 m₃)

-- The destination, or 0 for a type that is not copied. The type and the attributes are stored before
-- the sizes are compared.
unfoldable pub data_copy : ℕ → ℕ → ℕ → ℕ → Memory → Outcome ℕ
data_copy dst size_dst src size_src m =
    let t = get08 m src in
    let m₁ = put08 dst t m in
    let m₂ = put08 (dst + 1) (get08 m₁ (src + 1)) m₁ in
    if ltb size_dst size_src
    then throw copy_overrun m₂
    else if ltb t bstr08
    then if t == 0
      then ok dst (zero_bytes (dst + 2) ((size_dst + 2 ^ 64 - 2) % 2 ^ 64) m₂)
      else elim (moved_scalar t) [
        | some s ↦ ok dst (copy_bytes (dst + 2) (src + 2) s m₂)
        | none ↦ ok dst m₂
      ]
    else elim (blob_arm t) [
      | some w ↦
          ok dst
            (copy_blob w (if is_var t then blob_size w m₂ src else blob_used w m₂ src) dst src m₂)
      | none ↦ if t == guid then ok dst (copy_bytes (dst + 2) (src + 2) 16 m₂) else ok 0 m₂
    ]
