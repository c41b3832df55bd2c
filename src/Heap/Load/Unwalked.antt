-- ===== src/Heap/Load/Unwalked.antt =====
-- An image whose blocks the gate never looks at is accepted.
use msgcore.Prelude.{◌+◌, ◌≤◌, ◌≡◌, true}
use msgcore.Heap.{Heap}
use msgcore.Heap.Validate.{Count}

-- The root's own size field passes the image's end, and the root lists and counts no block.
pub record Unwalked (h : Heap) : Type 0 where
  pub past : h.size_alloc ≤ 8 + h.root.size
  pub free : (h.root.free ≡ 0) × (h.root.free_last ≡ 0)
  pub alloc : h.root.alloc ≡ 0
  pub sizes : (h.root.free_size ≡ 0) × (h.root.alloc_size ≡ 0)
  pub items : (h.root.free_items ≡ 0) × (h.root.alloc_items ≡ 0)

abbrev start : Count
start = record { entries = 0; size = 0; result = true }
