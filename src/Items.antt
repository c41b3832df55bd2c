-- ===== src/Items.antt =====
-- The items of a message container and the container's own keys (P2PmsgVBlock.h, `VBItemNN__`,
-- `VBLockList__`, `VBLockAttr__`, `VBLockDesc__`), and the accessors of P2PmsgVBLock.cpp that linking
-- and unlinking are made of. An item stands at its offset in the image. The items of a container
-- have its width, so a key is held as a number below the width's limit.
pub mod Goto
pub mod Link
pub mod Listed
pub mod Sequence
pub mod Sort
pub mod Unlink
use msgcore.Prelude.{
  ℕ, ◌+◌, ◌%◌, ◌^◌, Bool, true, Option, none, some, ltb, leb, ◌==◌, update, if◌then◌else◌, ◌≡◌, ap,
}
use msgcore.Width.{AddrType, addr08, addr16, addr32, addr64, addr_limit}

-- An item's links, and `VBLock_Linked` of its block.
pub record Item : Type 0 where
  pub linked : Bool
  pub parent : ℕ
  pub prev : ℕ
  pub next : ℕ

-- A container: its keys, the items, and the size of the image that holds them.
pub record Store : Type 0 where
  pub addr : AddrType
  pub first : ℕ
  pub last : ℕ
  pub count : ℕ
  pub items : ℕ → Item
  pub size : ℕ

-- `null_item` is an access through the null pointer that offset 0 stands for, `null_cursor` a name
-- read from a cursor that is on no item.
pub data Error : Type 0 where
  out_of_range null_item does_not_fit key_overflow null_cursor : Error

pub data Outcome (A : Type 0) : Type 0 where
  ok : A → Store → Outcome A
  throw : Error → Store → Outcome A

abbrev pub M : Type 0 → Type 0
M A = Store → Outcome A

module _ {A B : Type 0} where
  abbrev pub and_then : Outcome A → (A → M B) → Outcome B
  and_then (ok a s) k = k a s
  and_then (throw e s) k = throw e s

  infixl 5 ◌>>=◌ ◌>>◌
  abbrev pub ◌>>=◌ : M A → (A → M B) → M B
  m >>= k = λ s. and_then (m s) k

  abbrev pub ◌>>◌ : M A → M B → M B
  m >> n = m >>= λ _. n

-- What holds of the state that a command ends in; it must not throw.
abbrev pub Ends : {A : Type 0} → Outcome A → (A → Store → Type 0) → Type 0
Ends (ok a s) P = P a s
Ends (throw e s) P = ⊥

-- Commands in a row.
pub Ends-bind :
    {A B : Type 0} (m : Outcome A) (k : A → M B) (P : A → Store → Type 0) (Q : B → Store → Type 0)
    → Ends m P
    → ((a : A) (s : Store) → P a s → Ends (k a s) Q)
    → Ends (and_then m k) Q
Ends-bind (ok a s) k P Q h n = n a s h
Ends-bind (throw e s) k P Q h n = absurd h

pub Ends-map :
    {A : Type 0} (m : Outcome A) (P Q : A → Store → Type 0)
    → Ends m P
    → ((a : A) (s : Store) → P a s → Q a s)
    → Ends m Q
Ends-map (ok a s) P Q h n = n a s h
Ends-map (throw e s) P Q h n = absurd h

-- The outcome itself, where the state is the one it began with.
pub Ends-value :
    {A : Type 0} (s : Store) (m : Outcome A) (P : A → Type 0)
    → Ends m (λ a t. (t ≡ s) × P a)
    → (a : A) × (m ≡ ok a s) × P a
Ends-value s (ok a t) P h = (a, ap (λ t. ok a t) h.0, h.1)
Ends-value s (throw e t) P h = absurd h

abbrev pub pure : {A : Type 0} → A → M A
pure = ok

abbrev pub fail : {A : Type 0} → Error → M A
fail = throw

abbrev pub get : {A : Type 0} → (Store → A) → M A
get f s = ok (f s) s

abbrev pub modify : (Store → Store) → M (Unit {0})
modify f s = ok tt (f s)

abbrev pub when : Bool → M (Unit {0}) → M (Unit {0})
when b m s = if b then m s else ok tt s

abbrev pub branch : {A : Type 0} → Bool → M A → M A → M A
branch b m n s = if b then m s else n s

-- `nItems` is 32 bits wide at 64-bit addressing too.
abbrev pub count_limit : AddrType → ℕ
count_limit addr08 = 0x100
count_limit addr16 = 0x1_0000
count_limit addr32 = 0x1_0000_0000
count_limit addr64 = 0x1_0000_0000

-- What the setters hold a link to: at 64 bits, 48 bits.
abbrev pub link_limit : AddrType → ℕ
link_limit addr64 = 0x1_0000_0000_0000
link_limit w = addr_limit w

-- `P3PmsgObject::Msg2Phys` in a heap: null for offset 0, a throw past the image.
unfoldable pub msg2phys : ℕ → M (Option ℕ)
msg2phys a s =
    if a == 0 then ok none s else if ltb s.size a then throw out_of_range s else ok (some a) s

abbrev pub put_item : ℕ → (Item → Item) → M (Unit {0})
put_item a f = modify λ s. record s { items = update s.items a (f (s.items a)) }

-- An access through a pointer that must not be null.
unfoldable pub not_null : ℕ → M (Unit {0})
not_null a s = if a == 0 then throw null_item s else ok tt s

-- `VBLockItem_SetPrev`, `VBLockItem_SetNext`, `VBLockItem_SetParent`
unfoldable pub set_prev : ℕ → ℕ → M (Unit {0})
set_prev a v s =
    if ltb v (link_limit s.addr)
    then put_item a (λ i. record i { prev = v }) s
    else throw key_overflow s

unfoldable pub set_next : ℕ → ℕ → M (Unit {0})
set_next a v s =
    if ltb v (link_limit s.addr)
    then put_item a (λ i. record i { next = v }) s
    else throw key_overflow s

unfoldable pub set_parent : ℕ → ℕ → M (Unit {0})
set_parent a v s =
    if ltb v (link_limit s.addr)
    then put_item a (λ i. record i { parent = v }) s
    else throw key_overflow s

-- `VBLockList_SetFirst`, `VBLockList_SetLast` and their like for attributes and descendants
unfoldable pub set_first : ℕ → M (Unit {0})
set_first v s =
    if ltb v (link_limit s.addr) then ok tt (record s { first = v }) else throw key_overflow s

unfoldable pub set_last : ℕ → M (Unit {0})
set_last v s =
    if ltb v (link_limit s.addr) then ok tt (record s { last = v }) else throw key_overflow s

-- The greatest count that is stored, plus one: a signed number that is not negative.
abbrev pub items_limit : AddrType → ℕ
items_limit addr08 = 0x100
items_limit addr16 = 0x1_0000
items_limit addr32 = 0x8000_0000
items_limit addr64 = 0x8000_0000

-- `VBLockList_SetItems` with a relative count, a 32-bit pattern.
unfoldable pub add_items : ℕ → M (Unit {0})
add_items d s =
    let n = (s.count + d) % 2 ^ 32 in
    if ltb n (items_limit s.addr) then ok tt (record s { count = n }) else throw key_overflow s
