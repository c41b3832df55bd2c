-- ===== src/Vects/Delete.antt =====
-- Elements taken out of a vector.
use msgcore.Prelude.{ℕ, ◌+◌, ◌%◌, ◌≡◌, ◌||◌, ◌&&◌, ltb, leb, ◌==◌, if◌then◌else◌}
use msgcore.Width.{AddrType, addr_limit}
use msgcore.Vects.{Vects, get_slot, get_count}
use msgcore.Vects.Store.{IsVector}

-- What is left without the element at place `k`.
pub record Deleted (k : ℕ) (s t : Vects) : Type 0 where
  pub chained : IsVector t
  pub count : get_count t + 1 ≡ get_count s
  pub slots :
      (m : ℕ)
      → get_slot m t ≡ (
          if ltb m k || leb (get_count s) m
          then get_slot m s
          else if m + 1 == get_count s
          then 0
          else get_slot (m + 1) s)

-- What moving the `j` slots behind `k` down by one leaves.
record Shifted (w : AddrType) (j k : ℕ) (s t : Vects) : Type 0 where
  chained : IsVector t
  slots :
      (m : ℕ)
      → get_slot m t
        ≡ (if leb k m && ltb m (k + j) then get_slot (m + 1) s % addr_limit w else get_slot m s)
  count : get_count t ≡ get_count s
