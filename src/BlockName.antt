-- ===== src/BlockName.antt =====
-- Names as they stand inside a block (P2PmsgVBLock.cpp, `VBLockName_*`): an attribute byte, the
-- capacity, and then either the units used with the units themselves, or the address of the block
-- that holds the name.
pub mod Chain
pub mod Laid
use msgcore.Prelude.{
  ℕ, ◌+◌, ◌-◌, ◌*◌, ◌/◌, ◌%◌, ◌^◌, Bool, true, false, ◌||◌, ◌&&◌, not, List, ltb, leb, ◌==◌,
  if◌then◌else◌,
}
use msgcore.Bytes.{
  Memory, Outcome, ok, throw, get08, get16, get32, get64, put08, put16, put32, put64, put_units,
  get_units, name_undersized, name_size, name_overrun, bad_chain, name_absent, blob_zero,
  below_floor, blob_overused,
}
use msgcore.Wide.{wide_units, store_wide, load_wide}

-- `uVBLock & VBLock_AddrMask`
abbrev pub mode : ℕ → ℕ
mode u = u % 4

-- `VBLockName_Sizeof_Min`
unfoldable pub name_sizeof_min : ℕ → ℕ
name_sizeof_min u =
    if mode u == 1 then 7 else if mode u == 2 then 9 else if mode u == 3 then 13 else 1

-- The characters that a name is laid out for.
abbrev pub laid_out : ℕ → ℕ → ℕ
laid_out u n =
    if mode u == 2
    then (if ltb n 2 then 2 else n)
    else if mode u == 3
    then (if ltb n 4 then 4 else n)
    else if mode u == 1
    then (if ltb n 2 then 2 else n)
    else n

-- `VBLockName_Sizeof ( uVBLock, nNameSize )`
unfoldable pub name_sizeof : ℕ → ℕ → ℕ
name_sizeof u n =
    let size = (5 + laid_out u n * 2) % 2 ^ 64 in
    if ltb size (name_sizeof_min u) then name_sizeof_min u else size

-- `VBLockName_IsChained`: the legacy flag and the revised one.
abbrev pub name_is_chained : Memory → ℕ → Bool
name_is_chained m p = get08 m p == 0xFF || get08 m p == 0x7F

-- `nBlobSize` is at the same offset in all three variants of the union, `nBlobUsed` is not.
abbrev pub name_blob_size : Memory → ℕ → ℕ
name_blob_size m p = get08 m (p + 1)

abbrev pub name_blob_used : Memory → ℕ → ℕ
name_blob_used m p = get08 m (p + 2)

-- `VBLockName_Sizenn`, and `VBLockName_Sizeof_Alloc`, which gives the same number.
unfoldable pub name_sizenn : Memory → ℕ → ℕ
name_sizenn m p = 5 + name_blob_size m p * 2

-- `VBLockName_Sizeof ( uVBLock, pName )`, which does not mask its mode.
unfoldable pub name_sizeof_used : ℕ → Memory → ℕ → ℕ
name_sizeof_used u m p =
    let used = (4 + name_blob_used m p) * 2 in
    if u == 3 then name_sizenn m p else 1 + (if ltb used 5 then 5 else used)

-- `VBLockName_Init`, for a name of characters, which has none where the pointer is null. The units
-- are followed by one of zero.
unfoldable pub name_init : ℕ → ℕ → ℕ → List ℕ → ℕ → Memory → Outcome (Unit {0})
name_init u p attr name size m =
    let m₁ = put08 p attr m in
    let room = (size + 2 ^ 64 - 5) % 2 ^ 64 in
    let m₂ = put08 (p + 1) (room / 2) m₁ in
    let used = wide_units name in
    if ltb size (name_sizeof_min u)
    then throw name_undersized m₁
    else if not (room % 0x100 == room)
    then throw name_size m₁
    else if ltb (name_blob_size m₂ p) used
    then throw name_overrun m₂
    else ok tt
        (put08 (p + 2) used (put16 (p + 3 + 2 * used) 0 (put_units (p + 3) (store_wide name) m₂)))

-- `P3PmsgName::c_name`
unfoldable pub c_name : Memory → ℕ → List ℕ
c_name m p = load_wide (get_units m (p + 3) (name_blob_used m p))

-- `VBLockName_ChkWellFormed`; 0 stands for null.
unfoldable pub name_chk_well_formed : ℕ → ℕ → Memory → Outcome (Unit {0})
name_chk_well_formed u p m =
    if p == 0
    then throw name_absent m
    else if name_blob_size m p == 0
    then throw blob_zero m
    else if ltb (name_sizenn m p) (name_sizeof_min u)
    then throw below_floor m
    else if not (name_is_chained m p) && ltb (name_blob_size m p) (name_blob_used m p)
    then throw blob_overused m
    else ok tt m

-- `VBLockName_SetChain2Next`, which tests the whole byte and not the mode alone.
unfoldable pub name_set_chain2next : ℕ → ℕ → ℕ → Memory → Outcome ℕ
name_set_chain2next u p a m =
    if u == 1 && a % 0x1_0000 == a
    then ok a (put16 (p + 2) a (put08 p 0x7F m))
    else if u == 2 && a % 0x1_0000_0000 == a
    then ok a (put32 (p + 2) a (put08 p 0x7F m))
    else if u == 3 && a % 0x1_0000_0000_0000 == a
    then ok a (put64 (p + 2) a (put08 p 0x7F m))
    else throw bad_chain m

-- `VBLockName_GetChain2Next`
unfoldable pub name_get_chain2next : ℕ → ℕ → Memory → Outcome ℕ
name_get_chain2next u p m =
    if get08 m p == 0xFF
    then ok (get32 m (p + 2)) m
    else if u == 1
    then ok (get16 m (p + 2)) m
    else if u == 2
    then ok (get32 m (p + 2)) m
    else if u == 3
    then ok (get64 m (p + 2)) m
    else throw bad_chain m
