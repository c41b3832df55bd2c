-- ===== src/Vects.antt =====
-- The slots of a vector (MsgVect.cpp, P3PmsgVect, and P2PmsgVBLock.cpp, `VBLockVect_*`): 32 of them
-- stand in the vector, the others in continuation blocks that hang on its `aExtra`.
pub mod Chain
pub mod Delete
pub mod Insert
pub mod Store
use msgcore.Prelude.{
  ℕ, zero, suc, ◌^◌, Option, none, some, ◌+◌, ◌-◌, ◌*◌, ◌/◌, ◌%◌, Bool, true, not, ◌||◌, ◌&&◌, ltb,
  leb, ◌==◌, if◌then◌else◌, update,
}
use msgcore.Width.{AddrType, addr_limit}
use msgcore.BlockField.{count_bytes}

-- `VBLockVect__`
pub record Vect : Type 0 where
  pub extra : ℕ
  pub items : ℕ
  pub slot : ℕ → ℕ

-- The vectors of a heap by their address, and which addresses are taken. The vector itself is at 0,
-- as in `SetSlot`.
pub record Vects : Type 0 where
  pub at : ℕ → Vect
  pub taken : ℕ → Bool

abbrev pub empty : Vect
empty = record { extra = 0; items = 0; slot = λ r. 0 }

-- VBLockVect_MaxInline
abbrev pub max_inline : ℕ
max_inline = 32

-- The casts of `VBLockVect_SetAlloc`, `VBLockVect_SetExtra` and `VBLockVect_SetItems`.
abbrev pub set_alloc : AddrType → ℕ → ℕ → Vect → Vect
set_alloc w r a v = record v { slot = update v.slot r (a % addr_limit w) }

abbrev pub set_extra : AddrType → ℕ → Vect → Vect
set_extra w a v = record v { extra = a % addr_limit w }

abbrev pub set_items : AddrType → ℕ → Vect → Vect
set_items w n v = record v { items = n % 2 ^ (8 * count_bytes w) }

abbrev pub modify_at : ℕ → (Vect → Vect) → Vects → Vects
modify_at b f s = record s { at = update s.at b (f (s.at b)) }

-- The walk of `GetSlot`: a turn takes 32 off the number, so there are as many as 32 goes into it.
unfoldable pub get_walk : ℕ → ℕ → ℕ → Vects → ℕ
get_walk zero b r s = (s.at b).slot r
get_walk (suc turns) b r s =
    let next = (s.at b).extra in let rest = get_walk turns next r s in if next == 0 then 0 else rest

abbrev pub get_slot : ℕ → Vects → ℕ
get_slot n s = get_walk (n / max_inline) 0 (n % max_inline) s

-- An `int` by its 32 bits: from 2^31 on it is negative.
abbrev pub is_negative : ℕ → Bool
is_negative n = leb 0x8000_0000 n

abbrev pub int_lt : ℕ → ℕ → Bool
int_lt a b =
    if is_negative a then not (is_negative b) || ltb a b else not (is_negative b) && ltb a b

-- The unsigned count of the vector, as the `int` that `GetCount` makes of it.
abbrev pub get_count : Vects → ℕ
get_count s = (s.at 0).items % 2 ^ 32

-- How `InsertAt` ends: with the element in, in the allocator's throw, or by a store at a negative
-- place, in front of the slots, which is undefined.
pub data Insertion : Type 0 where
  inserted : Vects → Insertion
  refused stray : Insertion

-- A continuation block that was allocated at `next`, with its address stored in the block before.
abbrev pub continued : AddrType → ℕ → ℕ → Vects → Vects
continued w b next s =
    modify_at b (set_extra w next)
      (record { at = update s.at next empty; taken = update s.taken next true })

-- What the allocator gives for a continuation block, in each state of the heap, or none where it
-- throws.
module _ (w : AddrType) (alloc : Vects → Option ℕ) where
  -- The walk of `SetSlot`, which throws where the allocator does.
  unfoldable pub set_walk : ℕ → ℕ → ℕ → ℕ → Vects → Option Vects
  set_walk zero b r a s = some (modify_at b (set_alloc w r a) s)
  set_walk (suc turns) b r a s =
      let next = (s.at b).extra in
      let onward = set_walk turns next r a s in
      let further : ℕ → Option Vects = λ n. set_walk turns n r a (continued w b n s) in
      if next == 0 then elim (alloc s) [ none ↦ none | some n ↦ further n ] else onward

  abbrev pub set_slot : ℕ → ℕ → Vects → Option Vects
  set_slot n a s = set_walk (n / max_inline) 0 (n % max_inline) a s

  -- The loop of `InsertAt`, from the end of the slots down.
  unfoldable pub shift_up : ℕ → ℕ → Vects → Option Vects
  shift_up zero k s = some s
  shift_up (suc turns) k s = elim (set_slot (k + turns + 1) (get_slot (k + turns) s) s) [
    | none ↦ none
    | some t ↦ shift_up turns k t
  ]

  -- `InsertAt`, once the element is allocated; a place that is negative or past the end is clamped to
  -- the count. No slot is moved where the count itself is negative.
  unfoldable pub insert_at : ℕ → ℕ → Vects → Insertion
  insert_at n a s =
      let count = get_count s in
      let k = if is_negative n || int_lt count n then count else n in
      if is_negative k then stray else elim (shift_up (count - k) k s) [
        | none ↦ refused
        | some t ↦ elim (set_slot k a t) [
          | none ↦ refused
          | some u ↦ inserted (modify_at 0 (set_items w (count + 1)) u)
        ]
      ]

  -- The loop of `Delete`, from the hole up.
  unfoldable pub shift_down : ℕ → ℕ → Vects → Option Vects
  shift_down zero k s = some s
  shift_down (suc turns) k s = elim (set_slot k (get_slot (k + 1) s) s) [
    | none ↦ none
    | some t ↦ shift_down turns (k + 1) t
  ]

  -- `Delete`, apart from the release of the element; a place that the vector has not leaves it as it
  -- was.
  unfoldable pub delete_at : ℕ → Vects → Option Vects
  delete_at n s =
      let count = get_count s in
      if is_negative n || not (int_lt n count)
      then some s
      else elim (shift_down (count - 1 - n) n s) [
        | none ↦ none
        | some t ↦ elim (set_slot (count - 1) 0 t) [
          | none ↦ none
          | some u ↦ some (modify_at 0 (set_items w (count - 1)) u)
        ]
      ]
