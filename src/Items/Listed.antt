-- ===== src/Items/Listed.antt =====
-- Containers as sequences: what it is for a container to hold the items of a list in their order, and
-- that linking inserts into that list and unlinking removes from it.
pub mod Linked
pub mod Relinked
pub mod Unlinked
use msgcore.Prelude.{ℕ, ◌≤◌, ◌<◌, ◌≡◌, true, List, has, length}
use msgcore.Width.{AddrType, addr08}
use msgcore.Heap.{Block, bare}
use msgcore.Heap.Chain.{Chain}
use msgcore.Items.{Item, Store, link_limit, items_limit}

-- The links of items, as those of blocks.
abbrev pub links : (ℕ → Item) → ℕ → Block
links f q = record (bare addr08) { prev = (f q).prev; next = (f q).next }

-- The container holds the items of the list in their order, and the keys agree.
pub record Lists (s : Store) (xs : List ℕ) : Type 0 where
  pub chain : Chain (links s.items) 0 s.first xs s.last
  pub count : s.count ≡ length xs
  pub inside : (q : ℕ) → has q xs ≡ true → q ≤ s.size
  pub narrow : (q : ℕ) → has q xs ≡ true → q < link_limit s.addr
  pub linked : (q : ℕ) → has q xs ≡ true → (s.items q).linked ≡ true
