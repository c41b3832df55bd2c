-- ===== src/BlockField.antt =====
-- The way from a block to the name and the data inside it (P2PmsgVBLock.cpp, `VBLock_pName` and
-- `VBLock_pData` with what they call). A block holds a field, a list, a vector, an item around one
-- of these, or bare data; a field is an attribute byte, a name, and the data behind the name.
-- No object reaches past the end of the address space, so sums of pointers do not wrap.
pub mod Same
pub mod Outside
pub mod Place
use msgcore.Prelude.{ℕ, ◌+◌, ◌*◌, ◌/◌, ◌%◌, Bool, ◌||◌, not, leb, ◌==◌, if◌then◌else◌}
use msgcore.Width.{AddrType, addr64, addr_bytes, sizeof_hdr}
use msgcore.Heap.{Block}
use msgcore.Heap.Bounds.{chk_contained}
use msgcore.Heap.Load.{width_of}
use msgcore.Bytes.{Memory, Outcome, ok, throw, get08, get, leaves_block, unknown_type, block_absent}
use msgcore.BlockName.{name_sizeof_min, name_sizenn, name_chk_well_formed}

-- The codes of `VBLock_TypeMask`, which the type byte of an item has too.
abbrev pub item_type : ℕ
item_type = 4

abbrev pub field_type : ℕ
field_type = 20

abbrev pub name_type : ℕ
name_type = 36

abbrev pub data_type : ℕ
data_type = 32

abbrev pub list_type : ℕ
list_type = 44

abbrev pub vect_type : ℕ
vect_type = 48

-- `uVBLock & VBLock_TypeMask`
abbrev pub type_of : ℕ → ℕ
type_of u = u / 4 % 16 * 4

-- The header of the block at `b`.
abbrev pub width_at : Memory → ℕ → AddrType
width_at m b = width_of (get08 m b % 4)

abbrev pub block_at : Memory → ℕ → Block
block_at m b =
    let w = width_at m b in
    record {
      addr = w;
      type = type_of (get08 m b);
      alloc = get08 m b / 64 % 2 == 1;
      linked = get08 m b / 128 % 2 == 1;
      size = get w m (b + 1);
      prev = get w m (b + sizeof_hdr w);
      next = get w m (b + sizeof_hdr w + addr_bytes w);
    }

-- `VBLock_ChkContained`, where 0 is the owner that is not given: whether it returns.
unfoldable pub owner_chk : Memory → ℕ → ℕ → ℕ → Bool
owner_chk m owner pv span = owner == 0 || chk_contained (block_at m owner) owner pv span

-- `VBLock_pud`
abbrev pub block_pud : Memory → ℕ → ℕ
block_pud m b = b + sizeof_hdr (width_at m b)

abbrev pub count_bytes : AddrType → ℕ
count_bytes addr64 = 4
count_bytes w = addr_bytes w

-- The field of a list stands behind its two links and count, that of a vector behind its
-- continuation, count and 32 slots.
abbrev pub list_pfield : ℕ → ℕ → ℕ
list_pfield u p = let w = width_of (u % 4) in p + 1 + 2 * addr_bytes w + count_bytes w

abbrev pub vect_pfield : ℕ → ℕ → ℕ
vect_pfield u p =
    let w = width_of (u % 4) in p + 1 + addr_bytes w + count_bytes w + 32 * addr_bytes w

-- `VBLockItem_vpu`: what the item holds stands behind its type and six addresses.
abbrev pub item_vpu : ℕ → ℕ → ℕ
item_vpu u p = p + 1 + 6 * addr_bytes (width_of (u % 4))

abbrev pub field_pname : ℕ → ℕ
field_pname p = p + 1

-- `VBLockField_pData`
unfoldable pub field_pdata : ℕ → ℕ → ℕ → Memory → Outcome ℕ
field_pdata u p owner m =
    let n = field_pname p in
    if not (owner_chk m owner n (name_sizeof_min u))
    then throw leaves_block m
    else elim (name_chk_well_formed u n m) [
      | throw f m' ↦ throw f m'
      | ok _ m' ↦
          let d = n + name_sizenn m' n in
          if not (owner_chk m' owner d 2) then throw leaves_block m' else ok d m'
    ]

-- `VBLockItem_pDataChk`, for an item that is there.
unfoldable pub item_pdata : ℕ → ℕ → ℕ → Memory → Outcome ℕ
item_pdata u p owner m =
    let t = type_of (get08 m p) in
    if t == field_type
    then field_pdata u (item_vpu u p) owner m
    else if t == data_type
    then ok (item_vpu u p) m
    else if t == list_type
    then field_pdata u (list_pfield u (item_vpu u p)) owner m
    else if t == vect_type
    then field_pdata u (vect_pfield u (item_vpu u p)) owner m
    else throw unknown_type m

-- `VBLock_pData`; 0 stands for null.
unfoldable pub block_pdata : ℕ → Memory → Outcome ℕ
block_pdata b m =
    if b == 0
    then throw block_absent m
    else let u = get08 m b in
      let t = type_of u in
      let p = block_pud m b in
      if t == data_type
      then ok p m
      else if t == field_type
      then field_pdata u p b m
      else if t == item_type
      then item_pdata u p b m
      else if t == list_type
      then field_pdata u (list_pfield u p) b m
      else if t == vect_type
      then field_pdata u (vect_pfield u p) b m
      else throw unknown_type m

-- `VBLockItem_pName`, for an item that is there.
unfoldable pub item_pname : ℕ → ℕ → Memory → Outcome ℕ
item_pname u p m =
    let t = type_of (get08 m p) in
    if t == field_type
    then ok (field_pname (item_vpu u p)) m
    else if t == list_type
    then ok (field_pname (list_pfield u (item_vpu u p))) m
    else if t == vect_type
    then ok (field_pname (vect_pfield u (item_vpu u p))) m
    else throw unknown_type m

-- `VBLock_pName`, for a block that is there.
unfoldable pub block_pname : ℕ → Memory → Outcome ℕ
block_pname b m =
    let u = get08 m b in
    let t = type_of u in
    let p = block_pud m b in
    if t == name_type
    then ok p m
    else if t == field_type
    then ok (field_pname p) m
    else if t == item_type
    then item_pname u p m
    else if t == list_type
    then ok (field_pname (list_pfield u p)) m
    else if t == vect_type
    then ok (field_pname (vect_pfield u p)) m
    else throw unknown_type m
