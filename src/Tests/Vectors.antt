-- ===== src/Tests/Vectors.antt =====
-- A full vector, and the theorems at it.
use msgcore.Prelude.{ℕ, ◌+◌, Option, none, some, ◌==◌, if◌then◌else◌}
use msgcore.Vects.{Vects, empty}

-- All 32 slots of the vector itself are in use.
abbrev full : Vects
full = record {
  at = λ b. if b == 0 then record { extra = 0; items = 32; slot = λ r. 100 + r } else empty;
  taken = λ b. b == 0;
}

-- An allocator that has one block left, at 5.
abbrev one_left : Vects → Option ℕ
one_left s = if s.taken 5 then none else some 5
