-- ===== src/BlockData.antt =====
-- Typed data as it stands inside a block (P2PmsgVBLock.cpp, `VBLockData_*`): a type byte, an
-- attribute byte, and then a scalar, a counted blob, or the address of the block that holds the
-- data. The counts take 8, 16 or 32 bits, and two bytes for a terminator follow each blob.
pub mod Blob
pub mod Chain
pub mod Arms
pub mod Copy
use msgcore.Prelude.{
  ℕ, ◌+◌, ◌-◌, ◌*◌, ◌/◌, ◌%◌, ◌^◌, Bool, true, false, ◌||◌, ◌&&◌, Option, none, some, ltb, leb,
  ◌==◌, if◌then◌else◌,
}
use msgcore.Width.{AddrType, addr08, addr16, addr32, addr_bytes, addr_limit}
use msgcore.Bytes.{Memory, get08, get}

-- The scalar types, in the order of their numbers from 1, and the first number of each family of
-- counted types. A family has six: 08, 08var, 16, 16var, 32 and 32var.
abbrev pub bstr08 : ℕ
bstr08 = 16

abbrev pub wstr08 : ℕ
wstr08 = 24

abbrev pub blob08 : ℕ
blob08 = 32

abbrev pub guid : ℕ
guid = 47

abbrev pub time32 : ℕ
time32 = 11

-- `VBLockData_IsChained`
abbrev pub data_is_chained : Memory → ℕ → Bool
data_is_chained m p = get08 m p == 0xFF

-- The six equality tests of a family, which are one ladder in each of the routines: the width of the
-- counts.
abbrev pub family_arm : ℕ → ℕ → Option AddrType
family_arm base t =
    if t == base || t == base + 1
    then some addr08
    else if t == base + 2 || t == base + 3
    then some addr16
    else if t == base + 4 || t == base + 5
    then some addr32
    else none

abbrev pub orelse : Option AddrType → Option AddrType → Option AddrType
orelse (some w) o = some w
orelse none o = o

-- The three families, one after the other. A test that holds of no type is an assertion, which falls
-- through.
unfoldable pub blob_arm : ℕ → Option AddrType
blob_arm t = orelse (if leb t 21 then family_arm bstr08 t else none) (
    orelse (if leb t 29 then family_arm wstr08 t else none)
      (if leb t 37 then family_arm blob08 t else none))

-- sizeof ( VBLobnn ): two counts and a terminator.
abbrev pub sizeof_blob : AddrType → ℕ
sizeof_blob w = 2 * addr_bytes w + 2

-- The two counts, and the place of the blob.
abbrev pub blob_size : AddrType → Memory → ℕ → ℕ
blob_size w m p = get w m (p + 2)

abbrev pub blob_used : AddrType → Memory → ℕ → ℕ
blob_used w m p = get w m (p + 2 + addr_bytes w)

abbrev pub c_blob : AddrType → ℕ → ℕ
c_blob w p = p + 2 + 2 * addr_bytes w

-- `VBLockData_IsBlob`
unfoldable pub is_blob : ℕ → Bool
is_blob t =
    if ltb t bstr08
    then false
    else if leb wstr08 t && leb t 29
    then true
    else if leb bstr08 t && leb t 21
    then true
    else leb blob08 t && leb t 37

-- `VBLockData_BlobSize` and `VBLockData_BlobUsed`
unfoldable pub data_blob_size : Memory → ℕ → ℕ
data_blob_size m p = elim (blob_arm (get08 m p)) [ none ↦ 0 | some w ↦ blob_size w m p ]

unfoldable pub data_blob_used : Memory → ℕ → ℕ
data_blob_used m p = elim (blob_arm (get08 m p)) [ none ↦ 0 | some w ↦ blob_used w m p ]

-- The scalars; `wchar_t` has 32 bits here.
unfoldable pub sizeof_scalar : ℕ → Option ℕ
sizeof_scalar t =
    if t == 1 || t == 2
    then some 1
    else if t == 3 || t == 4
    then some 2
    else if t == 5 || t == 6
    then some 4
    else if t == 7 || t == 8
    then some 8
    else if t == 10
    then some 8
    else if t == 9
    then some 4
    else if t == time32
    then some 4
    else if t == 12
    then some 8
    else if t == 13
    then some 1
    else if t == 14
    then some 4
    else none

-- `VBLockData_Sizeof_uv ( uVBlock, uDataType, nSizeBlob )`
unfoldable pub type_sizeof_uv : ℕ → ℕ → ℕ
type_sizeof_uv t n = if t == 0 then 0 else elim (sizeof_scalar t) [
  | some s ↦ s
  | none ↦ elim (blob_arm t) [
    | some w ↦ (sizeof_blob w + n) % 2 ^ 64
    | none ↦ if t == guid then 16 else 0
  ]
]

-- The variable types of the last family are sized by their capacity, all other blobs by what is used.
abbrev pub by_capacity : ℕ → Bool
by_capacity t = t == blob08 + 1 || t == blob08 + 3 || t == blob08 + 5

-- `VBLockData_Sizeof_uv ( uVBlock, pData )`
unfoldable pub data_sizeof_uv : ℕ → Memory → ℕ → ℕ
data_sizeof_uv u m p =
    let t = get08 m p in
    if data_is_chained m p
    then if u == 1 then 2 else if u == 2 then 4 else if u == 3 then 8 else 0
    else if t == 0
    then 0
    else elim (sizeof_scalar t) [
      | some s ↦ s
      | none ↦ elim (blob_arm t) [
        | some w ↦ sizeof_blob w + (if by_capacity t then blob_size w m p else blob_used w m p)
        | none ↦ if t == guid then 16 else 0
      ]
    ]

-- `VBLockData_Sizeof_Min`; -1 for a mode that is not one of three.
unfoldable pub data_sizeof_min : ℕ → ℕ
data_sizeof_min u = if u == 1 then 4 else if u == 2 then 6 else if u == 3 then 10 else 2 ^ 64 - 1

-- `VBLockData_Sizeof` of a type with a blob, and of data.
unfoldable pub type_sizeof : ℕ → ℕ → ℕ → ℕ
type_sizeof u t n =
    let size = (2 + type_sizeof_uv t n) % 2 ^ 64 in
    if ltb (data_sizeof_min u) size then size else data_sizeof_min u

unfoldable pub data_sizeof : ℕ → Memory → ℕ → ℕ
data_sizeof u m p =
    let size = 2 + data_sizeof_uv u m p in
    if ltb (data_sizeof_min u) size then size else data_sizeof_min u
