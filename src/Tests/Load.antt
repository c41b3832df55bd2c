-- ===== src/Tests/Load.antt =====
-- A received image, and the theorems about loading at it.
use msgcore.Prelude.{true}
use msgcore.Width.{addr16}
use msgcore.Root.{Root}
use msgcore.Heap.{Heap}
use msgcore.Heap.Load.{Image, handle}
use msgcore.Heap.Load.Unwalked.{Unwalked}

-- 35 bytes, of which the root takes 28, and one free block that claims to be as long as all of them.
abbrev forged_root : Root
forged_root = record {
  addr = addr16;
  size = 20;
  alloc = 0;
  alloc_size = 0;
  alloc_items = 0;
  free = 28;
  free_last = 28;
  free_size = 35;
  free_items = 1;
}

abbrev forged : Image
forged = record {
  sync₁ = 0xA500_0023;
  sync₂ = 0x5AFF_FFDC;
  root = forged_root;
  blocks = λ q. record {
    addr = addr16;
    type = 0;
    alloc = true;
    linked = true;
    size = 35;
    prev = 0;
    next = 0;
  };
  feet = λ q. record { magic = 0; size = 0 };
}

abbrev forged_heap : Heap
unfolding handle
forged_heap = record (handle forged) { free_entries = 1 }

-- 40 bytes, of which the root claims more than all, and behind it blocks that nothing checks.
abbrev hollow : Image
hollow = record forged {
  sync₁ = 0xA500_0028;
  sync₂ = 0x5AFF_FFD7;
  root = record forged_root {
    size = 0xFFFF;
    free = 0;
    free_last = 0;
    free_size = 0;
    free_items = 0;
  };
}
