-- ===== src/Items/Sort.antt =====
-- Linking an item where its name belongs (MsgAttr.cpp, `P2PmsgAttr_SortinItem`, and MsgDesc.cpp,
-- `P2PmsgDesc_SortinItem`, which differ in the routine that links), and the comparison of names that
-- it goes by (P2Pmsg.cpp, `P3PmsgName::operator <` and `>`).
pub mod Defect
pub mod Place
pub mod Search
pub mod Theorem
use msgcore.Prelude.{
  ℕ, zero, suc, ◌+◌, ◌-◌, ◌/◌, Bool, true, false, not, Option, none, some, List, length, ltb, leb,
  ◌==◌, if◌then◌else◌,
}
use msgcore.Items.{
  Item, Store, M, ok, throw, ◌>>=◌, ◌>>◌, pure, fail, get, branch, null_item, null_cursor,
}
use msgcore.Items.Link.{attr_linkin, desc_linkin}
use msgcore.Items.Sequence.{has_items}
use msgcore.Items.Goto.{goto_item}

-- The code units of a name.
abbrev pub Name : Type 0
Name = List ℕ

-- `neg x y n` is whether the C library's `_wcsnicmp` gives a negative number for two names and a
-- length.
module _ (neg : Name → Name → ℕ → Bool) where
  abbrev pub common_size : Name → Name → ℕ
  common_size x y = if ltb (length y) (length x) then length y else length x

  unfoldable pub name_lt : Name → Name → Bool
  name_lt x y = neg x y (common_size x y)

  unfoldable pub name_gt : Name → Name → Bool
  name_gt x y = if neg x y (common_size x y) then false else true

-- `name_of` is the name of an item, and `vect` whether it is a vector.
module _ (neg : Name → Name → ℕ → Bool) (name_of : ℕ → Name) (vect : ℕ → Bool) where
  -- `oCurs.Goto(i) && test(oCurs.r_name())`, with the item that the cursor is on.
  unfoldable pub goto_if : ℕ → (Name → Bool) → M (Option ℕ)
  goto_if i test =
      goto_item i
      >>= elim [ none ↦ pure none | some a ↦ pure (if test (name_of a) then some a else none) ]

  -- `P3PmsgCurs_GetVBLocknn`: 0 for a vector.
  abbrev pub cursor_at : ℕ → ℕ
  cursor_at a = if vect a then 0 else a

  -- The item through `P3PmsgCurs_GetVBlock`, which gives a null pointer for a vector.
  unfoldable pub cursor_item : ℕ → M Item
  cursor_item a s = if vect a then throw null_item s else ok (s.items a) s

  -- The loop, on fuel: each turn brings the bounds closer. The last branch, for equal names, cannot
  -- be taken, since `>` holds wherever `<` does not.
  unfoldable pub search : ℕ → Name → ℕ → ℕ → M (ℕ × ℕ)
  search zero n imin imax = pure (imin, imax)
  search (suc fuel) n imin imax =
      let imid = (imin + imax) / 2 in
      branch (ltb (imin + 1) imax)
        (do
          at ← goto_item imid
          elim at [
            | none ↦ fail null_cursor
            | some a ↦ branch (name_lt neg (name_of a) n) (search fuel n (imid + 1) imax) (
                branch (name_gt neg (name_of a) n) (search fuel n imin (imid - 1))
                  (search fuel n imid imax))
          ])
        (pure (imin, imax))

  -- The neighbours, once the search has ended; both null where no comparison decides.
  unfoldable pub sort_place : Name → ℕ → ℕ → M (ℕ × ℕ)
  sort_place n imin imax = do
    low ← goto_if imin (λ m. name_lt neg n m)
    elim low [
      | some a ↦ do i ← cursor_item a; pure (i.prev, cursor_at a)
      | none ↦ do
        high ← goto_if imax (λ m. name_lt neg n m)
        elim high [
          | some a ↦ do i ← cursor_item a; pure (i.prev, cursor_at a)
          | none ↦ do
            after ← goto_if imax (λ m. name_lt neg m n)
            elim after [
              | some a ↦ do i ← cursor_item a; pure (cursor_at a, i.next)
              | none ↦ pure (0, 0)
            ]
        ]
    ]

  module _ (link : ℕ → ℕ → ℕ → M (Unit {0})) where
    -- The binary search, between the first and the last item.
    unfoldable pub sort_within : Name → ℕ → M (Unit {0})
    sort_within n a = do
      count ← get (λ s. s.count)
      bounds ← search count n 0 (count - 1)
      place ← sort_place n bounds.0 bounds.1
      link place.0 a place.1

    unfoldable pub sortin : Name → ℕ → M (Unit {0})
    sortin n a s =
        if has_items s
        then (do
          first ← goto_if 0 (λ m. name_lt neg n m)
          elim first [
            | some f ↦ link 0 a (cursor_at f)
            | none ↦ do
              last ← goto_if (s.count - 1) (λ m. name_gt neg n m)
              elim last [ some l ↦ link (cursor_at l) a 0 | none ↦ sort_within n a ]
          ])
            s
        else link 0 a 0 s

  unfoldable pub attr_sortin : ℕ → Name → ℕ → M (Unit {0})
  attr_sortin parent = sortin (attr_linkin parent)

  unfoldable pub desc_sortin : ℕ → Name → ℕ → M (Unit {0})
  desc_sortin parent = sortin (desc_linkin parent)
