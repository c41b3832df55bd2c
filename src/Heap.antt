-- ===== src/Heap.antt =====
-- The state of an IOMAGE heap (`VBListHANDLE` with its image, MsgVBHeap.cpp) and the primitives
-- that its operations are made of. A block stands at its offset in the image, and a boundary tag
-- at the offset just past its own end, which is the end of the block that it describes.
-- `ASSERT` is empty in a release build and is left out. A throw keeps what was already written.
pub mod Alloc
pub mod Bounds
pub mod Chain
pub mod Collate
pub mod Create
pub mod Extend
pub mod Free
pub mod FreeList
pub mod Grow
pub mod Isolate
pub mod Load
pub mod Merge
pub mod Push
pub mod Session
pub mod Sound
pub mod Split
pub mod Take
pub mod Validate
pub mod WellFormed
use msgcore.Prelude.{
  ℕ, ◌+◌, ◌/◌, ◌%◌, ◌^◌, Bool, true, false, ◌||◌, ◌&&◌, Option, none, some, ltb, leb, ◌==◌, update,
  if◌then◌else◌,
}
use msgcore.Width.{AddrType, addr08, addr64, addr_limit, sizeof_hdr, same_addr}
use msgcore.Root.{Root, int_minus_one}
use msgcore.Root

-- A block's header and, in a free block, its two links. The byte `uVBLockDefs` is held as its
-- fields: the width (bits 0-1), the type (bits 2-5, zero for a free block), `VBLock_Alloc` (bit 6)
-- and `VBLock_Linked` (bit 7).
pub record Block : Type 0 where
  pub addr : AddrType
  pub type : ℕ
  pub alloc : Bool
  pub linked : Bool
  pub size : ℕ
  pub prev : ℕ
  pub next : ℕ

-- `VBHeapFoot`
pub record Foot : Type 0 where
  pub magic : ℕ
  pub size : ℕ

-- 'FBTF'
abbrev pub foot_magic : ℕ
foot_magic = 0x4654_4246

pub record Heap : Type 0 where
  pub root : Root
  pub blocks : ℕ → Block
  pub feet : ℕ → Foot
  pub addr_type : AddrType
  pub size_used : ℕ
  pub size_alloc : ℕ
  pub size_max : ℕ
  pub vblock_min : ℕ
  pub hi_wm : ℕ
  pub free_entries : ℕ
  pub dirty : Bool
  pub collate_zero_size : ℕ
  pub collate_corrupt : ℕ

-- The throws, named for what their messages say; `null_block` is a read through the null pointer
-- that `P2PmsgHeap_Addr2Phys` returns for offset 0.
pub data Error : Type 0 where
  key_overflow outside_image out_of_range overrun null_block : Error
  not_free not_allocated arena_full exceeds_max : Error
  cyclic_free_list not_survived resizes_exhausted : Error

-- `out_of_fuel` is no outcome of the code: a loop that has not ended within the fuel it was given.
pub data Outcome (A : Type 0) : Type 0 where
  ok : A → Heap → Outcome A
  throw : Error → Heap → Outcome A
  out_of_fuel : Outcome A

abbrev pub M : Type 0 → Type 0
M A = Heap → Outcome A

module _ {A B : Type 0} where
  abbrev pub and_then : Outcome A → (A → M B) → Outcome B
  and_then (ok a h) k = k a h
  and_then (throw e h) k = throw e h
  and_then out_of_fuel k = out_of_fuel

  infixl 5 ◌>>=◌ ◌>>◌
  abbrev pub ◌>>=◌ : M A → (A → M B) → M B
  m >>= k = λ h. and_then (m h) k

  abbrev pub ◌>>◌ : M A → M B → M B
  m >> n = m >>= λ _. n

abbrev pub pure : {A : Type 0} → A → M A
pure = ok

abbrev pub skip : M (Unit {0})
skip = ok tt

abbrev pub fail : {A : Type 0} → Error → M A
fail = throw

abbrev pub get : {A : Type 0} → (Heap → A) → M A
get f h = ok (f h) h

abbrev pub modify : (Heap → Heap) → M (Unit {0})
modify f h = ok tt (f h)

-- `if` over commands, for each state.
abbrev pub branch : {A : Type 0} → Bool → M A → M A → M A
branch b m n h = if b then m h else n h

abbrev pub when : Bool → M (Unit {0}) → M (Unit {0})
when b m h = if b then m h else ok tt h

-- A setter of a control key.
abbrev pub with_root : (Root → Option Root) → M (Unit {0})
with_root f h = elim (f h.root) [
  | none ↦ throw key_overflow h
  | some r ↦ ok tt (record h { root = r })
]

-- `VBLock_IsFree` and its like.
abbrev pub is_free : Block → Bool
is_free b = b.type == 0

abbrev pub is_addr : Block → AddrType → Bool
is_addr b w = same_addr b.addr w

-- A 64-bit size is read through a cast to 32 bits.
abbrev pub truncate_size : AddrType → ℕ → ℕ
truncate_size addr64 n = n % 2 ^ 32
truncate_size _ n = n

unfoldable pub sizenn : Block → ℕ
sizenn b = truncate_size b.addr b.size

-- An offset that names a block must lie inside the image.
unfoldable pub block2phys : ℕ → M (Unit {0})
block2phys a h = if a == 0 || leb h.size_alloc a then throw outside_image h else ok tt h

-- `none` is the null pointer. The offset just past the image passes.
unfoldable pub addr2phys : ℕ → M (Option ℕ)
addr2phys a h =
    if a == 0 then ok none h else if ltb h.size_alloc a then throw out_of_range h else ok (some a) h

-- The block that a checked offset names.
abbrev pub block_at : ℕ → M Block
block_at a = block2phys a >> get λ h. h.blocks a

-- The same through `P2PmsgHeap_Addr2Phys`, where a null pointer is read through at once.
abbrev pub block_ptr : ℕ → M Block
block_ptr a = addr2phys a >>= elim [ none ↦ fail null_block | some p ↦ get λ h. h.blocks p ]

abbrev pub put_block : ℕ → (Block → Block) → M (Unit {0})
put_block a f = modify λ h. record h { blocks = update h.blocks a (f (h.blocks a)) }

-- A link is stored at the block's own width, and must fit it.
unfoldable pub set_prev : ℕ → ℕ → M (Unit {0})
set_prev a v h =
    if ltb v (addr_limit (h.blocks a).addr)
    then put_block a (λ b. record b { prev = v }) h
    else throw key_overflow h

unfoldable pub set_next : ℕ → ℕ → M (Unit {0})
set_next a v h =
    if ltb v (addr_limit (h.blocks a).addr)
    then put_block a (λ b. record b { next = v }) h
    else throw key_overflow h

-- `VBHeap_Init`: the definitions come first, so a size that does not fit leaves them behind.
-- `defs` gives the width, the type and the linked bit; `VBLock_Alloc` is set whatever it says.
unfoldable pub init_block : ℕ → Block → ℕ → M (Unit {0})
init_block a defs n = do
  put_block a
      (λ b. record b { addr = defs.addr; type = defs.type; alloc = true; linked = defs.linked })
  branch (ltb n (addr_limit defs.addr))
      (put_block a (λ b. record b { size = n; prev = 0; next = 0 })) (fail key_overflow)

-- The definitions byte of a free, unlinked block of a width: the width alone.
abbrev pub bare : AddrType → Block
bare w = record { addr = w; type = 0; alloc = false; linked = false; size = 0; prev = 0; next = 0 }

abbrev pub set_linked : ℕ → M (Unit {0})
set_linked a = put_block a λ b. record b { linked = true }

abbrev pub clear_linked : ℕ → M (Unit {0})
clear_linked a = put_block a λ b. record b { linked = false }

-- `&= ~VBLock_TypeMask`
abbrev pub clear_type : ℕ → M (Unit {0})
clear_type a = put_block a λ b. record b { type = 0 }

-- `nFreeEntries++` and `--` on an `int`.
abbrev pub count_entry : ℕ → M (Unit {0})
count_entry d = modify λ h. record h { free_entries = (h.free_entries + d) % 2 ^ 32 }

abbrev pub mark_dirty : M (Unit {0})
mark_dirty = modify λ h. record h { dirty = true }

-- The most blocks that the image could hold.
unfoldable pub max_blocks : Heap → ℕ
max_blocks h = h.size_alloc / sizeof_hdr h.addr_type + 1
