-- ===== src/Root.antt =====
-- The control keys of an image (`VBHeapRoot`, MsgVBHeap.cpp): accessors that read a key of the
-- image's width, and setters that store one if it fits and throw otherwise. `VBLsize` is an
-- unsigned 64-bit number; a `VBLelem`, an `int`, is held as its 32-bit pattern.
pub mod Laws
use msgcore.Prelude.{
  ℕ, ◌+◌, ◌-◌, ◌%◌, ◌^◌, Bool, true, false, ◌&&◌, Option, none, some, ltb, leb, ◌==◌, if◌then◌else◌,
}
use msgcore.Width.{AddrType, addr08, addr16, addr32, addr64, addr_limit, sizeof_root}

pub record Root : Type 0 where
  pub addr : AddrType
  pub size : ℕ
  pub alloc : ℕ
  pub alloc_size : ℕ
  pub alloc_items : ℕ
  pub free : ℕ
  pub free_last : ℕ
  pub free_size : ℕ
  pub free_items : ℕ

-- What `VBHeapRoot_Init` and `VBLock_Init` hold a size to: at 64 bits, 48 bits.
abbrev pub key_limit : AddrType → ℕ
key_limit addr08 = 0x100
key_limit addr16 = 0x1_0000
key_limit addr32 = 0x1_0000_0000
key_limit addr64 = 0x1_0000_0000_0000

-- An `int` pattern below zero.
abbrev pub int_neg : ℕ → Bool
int_neg n = leb 0x8000_0000 n

-- The pattern of -1.
abbrev pub int_minus_one : ℕ
int_minus_one = 0xffff_ffff

-- `-(int)n` handed to a `VBLsize`: the low 32 bits, read as signed, negated, sign-extended.
unfoldable pub neg_int : ℕ → ℕ
neg_int n =
    let i = n % 2 ^ 32 in if i == 0 then 0 else if ltb i 0x8000_0000 then 2 ^ 64 - i else 2 ^ 32 - i

-- `none` stands for the throw. The keys that ZeroMemory clears are those of the width.
unfoldable pub init : AddrType → ℕ → Option Root
init w n =
    if ltb n (key_limit w)
    then some (record {
      addr = w;
      size = sizeof_root w;
      alloc = 0;
      alloc_size = 0;
      alloc_items = 0;
      free = 0;
      free_last = 0;
      free_size = 0;
      free_items = 0;
    })
    else none

unfoldable pub set_alloc : Root → ℕ → Option Root
set_alloc r a = if ltb a (addr_limit r.addr) then some (record r { alloc = a }) else none

-- With `absolute` false the value is added to the key, modulo 2^64.
abbrev pub new_size : Bool → ℕ → ℕ → ℕ
new_size absolute old n = if absolute then n else (n + old) % 2 ^ 64

unfoldable pub set_alloc_size : Root → ℕ → Bool → Option Root
set_alloc_size r n absolute =
    if ltb (new_size absolute r.alloc_size n) (addr_limit r.addr)
    then some (record r { alloc_size = new_size absolute r.alloc_size n })
    else none

-- (VBLelem)nAllocItems
abbrev pub get_items : AddrType → ℕ → ℕ
get_items addr64 n = n % 2 ^ 32
get_items _ n = n

abbrev pub new_items : AddrType → Bool → ℕ → ℕ → ℕ
new_items w absolute old n = if absolute then n else (n + get_items w old) % 2 ^ 32

-- An absolute count below zero throws; so does a count past the width.
unfoldable pub set_alloc_items : Root → ℕ → Bool → Option Root
set_alloc_items r n absolute =
    let n' = new_items r.addr absolute r.alloc_items n in
    if absolute && int_neg n
    then none
    else if ltb n' (addr_limit r.addr)
    then some (record r { alloc_items = n' })
    else none

unfoldable pub set_free : Root → ℕ → Option Root
set_free r a = if ltb a (addr_limit r.addr) then some (record r { free = a }) else none

unfoldable pub set_free_last : Root → ℕ → Option Root
set_free_last r a = if ltb a (addr_limit r.addr) then some (record r { free_last = a }) else none

unfoldable pub set_free_size : Root → ℕ → Bool → Option Root
set_free_size r n absolute =
    if ltb (new_size absolute r.free_size n) (addr_limit r.addr)
    then some (record r { free_size = new_size absolute r.free_size n })
    else none

unfoldable pub set_free_items : Root → ℕ → Bool → Option Root
set_free_items r n absolute =
    let n' = new_items r.addr absolute r.free_items n in
    if absolute && int_neg n
    then none
    else if ltb n' (addr_limit r.addr)
    then some (record r { free_items = n' })
    else none
