-- ===== src/Vects/Insert.antt =====
-- Elements put into a vector.
use msgcore.Prelude.{
  ℕ, ◌+◌, ◌-◌, ◌%◌, ◌≤◌, ◌≡◌, ◌⊎◌, refl, true, Option, none, ◌||◌, ◌&&◌, arith, ltb, leb, ◌==◌,
  if◌then◌else◌,
}
use msgcore.Width.{AddrType, addr_limit}
use msgcore.Vects.{
  Vects, Insertion, inserted, refused, stray, is_negative, int_lt, get_slot, get_count, insert_at,
}
use msgcore.Vects.Chain.{IsAllocator}
use msgcore.Vects.Store.{IsVector}

-- The place that an element is put at.
abbrev pub place : ℕ → Vects → ℕ
place n s = if is_negative n || int_lt (get_count s) n then get_count s else n

strayed :
    (n count : ℕ)
    → 0x8000_0000 ≤ count
    → is_negative (if is_negative n || int_lt count n then count else n) ≡ true
strayed n count big = ground arith

-- How putting an element into a vector ends, where the count is no negative number.
abbrev pub Inserts : (Vects → Option ℕ) → Insertion → (Vects → Type 0) → Type 0
Inserts alloc o P =
    ((t : Vects) × (o ≡ inserted t) × P t) ⊎ ((o ≡ refused) × ((u : Vects) × (alloc u ≡ none)))

-- What putting `a` at place `k` leaves.
pub record Inserted (w : AddrType) (k a : ℕ) (s t : Vects) : Type 0 where
  pub chained : IsVector t
  pub count : get_count t ≡ get_count s + 1
  pub slots :
      (m : ℕ)
      → get_slot m t ≡ (
          if ltb m k || ltb (get_count s) m
          then get_slot m s
          else if m == k
          then a
          else get_slot (m - 1) s)

-- What moving the `j` slots from `k` on up by one leaves.
record Shifted (w : AddrType) (j k : ℕ) (s t : Vects) : Type 0 where
  chained : IsVector t
  slots :
      (m : ℕ)
      → get_slot m t
        ≡ (if ltb k m && leb m (k + j) then get_slot (m - 1) s % addr_limit w else get_slot m s)
  count : get_count t ≡ get_count s

module _ (w : AddrType) (alloc : Vects → Option ℕ) (law : IsAllocator w alloc) where
  -- Where the count is a negative number, whatever place is asked for, a store strays.
  insert_at-strays :
      (n a : ℕ) (s : Vects) → 0x8000_0000 ≤ get_count s → insert_at w alloc n a s ≡ stray
  unfolding insert_at
  insert_at-strays n a s big =
      let e : is_negative (place n s) ≡ true = strayed n (get_count s) big in rw (insert_at, e) refl
