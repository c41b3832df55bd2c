-- ===== src/Tests/Session.antt =====
-- Calls of the allocator and of the release, one after the other, on a small image.
use msgcore.Prelude.{ℕ, ◌≡◌, refl, true, Option, none, some, List, [], ◌∷◌, arith}
use msgcore.Heap.{Heap, Outcome, ok, throw, out_of_fuel, sizenn}
use msgcore.Heap.Sound.{Sound}
use msgcore.Heap.Free.{free}
use msgcore.Heap.Free.Request.{Releases, free-ok}
use msgcore.Width.{addr16}
use msgcore.Heap.Create.{create_iomage}
use msgcore.Heap.Session.{Holds}
use msgcore.Tests.{small_heap, small_heap-IsWellFormed, small_heap-Honest}

small_heap-Sound : Sound small_heap (48 ∷ 28 ∷ []) (68 ∷ []) 0
small_heap-Sound = record {
  well_formed = small_heap-IsWellFormed;
  honest = small_heap-Honest;
  small = omega arith;
  fits = omega arith;
  under = omega arith;
}

small_heap-Holds : Holds small_heap (68 ∷ [])
unfolding sizenn
small_heap-Holds = record {
  free_list = 48 ∷ 28 ∷ [];
  sound = small_heap-Sound;
  least = omega arith;
  counted = refl;
}

abbrev Freed : Type 0
Freed =
    (h' : Heap) × (fl' : List ℕ) × (free true 68 small_heap ≡ ok tt h')
    × Releases small_heap h' (48 ∷ 28 ∷ []) fl' (68 ∷ []) 68

-- The same, for the calls to go on with.
abbrev freed : Freed
freed = free-ok true small_heap (48 ∷ 28 ∷ []) (68 ∷ []) small_heap-Sound 68 refl refl

-- A new image of 1032 bytes, and what a first request makes of it.
abbrev from : Option Heap → Heap
from none = small_heap
from (some h) = h

abbrev new : Heap
new = from (create_iomage addr16 1024 0)

abbrev after : Outcome ℕ → Heap
after (ok a h) = h
after (throw e h) = h
after out_of_fuel = new
