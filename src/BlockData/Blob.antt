-- ===== src/BlockData/Blob.antt =====
-- Counted blobs (P2PmsgVBLock.cpp): `VBLockData_InitBlob`, `VBLockData_BlobCopy`,
-- `VBLockData_BlobMaxOf` and `VBLockData_WidenBlob`.
pub mod Fill
pub mod Init
pub mod Store
pub mod Widen
use msgcore.Prelude.{
  ℕ, zero, suc, ◌+◌, ◌-◌, ◌*◌, ◌/◌, ◌%◌, ◌^◌, Bool, true, false, ◌&&◌, Option, none, some, ltb, leb,
  ◌==◌, if◌then◌else◌,
}
use msgcore.Width.{AddrType, addr08, addr16, addr32, addr_bytes, addr_limit}
use msgcore.Bytes.{
  Memory, Outcome, ok, throw, get08, put08, put16, put, copy_bytes, zero_bytes, data_undersized,
}
use msgcore.BlockData.{bstr08, wstr08, blob08, blob_arm, sizeof_blob, c_blob}

-- The greatest count of a width.
abbrev pub clamp : AddrType → ℕ → ℕ
clamp w n = if ltb (addr_limit w - 1) n then addr_limit w - 1 else n

-- Sizes are 64-bit numbers: the header and the counts are taken off before the size is checked.
unfoldable pub init_blob : ℕ → ℕ → ℕ → ℕ → Memory → Outcome (Unit {0})
init_blob p attr t size m =
    let m₁ = put08 p t (put08 (p + 1) attr m) in
    elim (blob_arm t) [
      | none ↦ ok tt m₁
      | some w ↦
          let room = (size + 2 ^ 64 - 2 + 2 ^ 64 - sizeof_blob w) % 2 ^ 64 in
          if ltb size (sizeof_blob w)
          then throw data_undersized m₁
          else ok tt (
              put16 (c_blob w p) 0
                (put w (p + 2 + addr_bytes w) 0 (put w (p + 2) (clamp w room) m₁)))
    ]

-- The place of the blob, or 0. The type is read before the null bit is cleared.
unfoldable pub blob_copy : ℕ → ℕ → ℕ → Memory → Outcome ℕ
blob_copy p pv n m =
    let m₁ = put08 (p + 1) (get08 m (p + 1) % 0x80) m in
    elim (blob_arm (get08 m p)) [
      | none ↦ ok 0 m₁
      | some w ↦
          let at = c_blob w p in
          let m₂ = if pv == 0 then zero_bytes at n m₁ else copy_bytes at pv n m₁ in
          let m₃ = put w (p + 2 + addr_bytes w) n m₂ in
          ok at (put08 (at + n + 1) 0 (put08 (at + n) 0 m₃))
    ]

-- `VBLockData_BlobFamily_`: the base of the family and the place in it.
unfoldable pub blob_family : ℕ → Option (ℕ × ℕ)
blob_family t =
    if leb bstr08 t && leb t 21
    then some (bstr08, t - bstr08)
    else if leb wstr08 t && leb t 29
    then some (wstr08, t - wstr08)
    else if leb blob08 t && leb t 37
    then some (blob08, t - blob08)
    else none

unfoldable pub blob_max_of : ℕ → ℕ
blob_max_of t = elim (blob_family t) [
  | none ↦ 0
  | some (base, k) ↦ if k / 2 == 0 then 0xFF else if k / 2 == 1 then 0xFFFF else 0xFFFF_FFFF
]

-- The loop, which takes two turns at most, since the width is below 2 before each.
unfoldable pub widen_loop : ℕ → ℕ → ℕ → ℕ → ℕ → ℕ
widen_loop zero base width var n = width
widen_loop (suc turns) base width var n =
    let rest = widen_loop turns base (width + 1) var n in
    if ltb width 2 && ltb (blob_max_of (base + width * 2 + var)) n then rest else width

unfoldable pub widen_blob : ℕ → ℕ → ℕ
widen_blob t n = elim (blob_family t) [
  | none ↦ t
  | some (base, k) ↦ base + widen_loop 2 base (k / 2) (k % 2) n * 2 + k % 2
]
