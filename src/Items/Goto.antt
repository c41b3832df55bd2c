-- ===== src/Items/Goto.antt =====
-- Going to an item by its number (MsgCurs.cpp, `P3PmsgCurs::Goto ( int )`, for a cursor that is on no
-- item): from the first item if the number is in the lower half of the count, from the last one if
-- not. The count is below 2^31.
pub mod Index
use msgcore.Prelude.{ℕ, zero, suc, ◌+◌, ◌-◌, ◌/◌, Option, none, some, leb, ◌==◌, if◌then◌else◌}
use msgcore.Items.{Item, M, ok, ◌>>=◌, ◌>>◌, pure, get, branch, msg2phys}

-- The loop from an item whose number is `d` short of the one wanted, along the links to the next:
-- the direction does not change on the way, so the distance counts the turns.
unfoldable pub walk_next : ℕ → ℕ → M (Option ℕ)
walk_next zero a = branch (a == 0) (pure none) (do msg2phys a; pure (some a))
walk_next (suc d) a =
    branch (a == 0) (pure none) (do msg2phys a; i ← get (λ s. s.items a); walk_next d i.next)

-- The same, back from an item whose number is `d` past the one wanted.
unfoldable pub walk_prev : ℕ → ℕ → M (Option ℕ)
walk_prev zero a = branch (a == 0) (pure none) (do msg2phys a; pure (some a))
walk_prev (suc d) a =
    branch (a == 0) (pure none) (do msg2phys a; i ← get (λ s. s.items a); walk_prev d i.prev)

-- The last item has the number `nItems - 1`, which is -1 in an empty container.
unfoldable pub goto_item : ℕ → M (Option ℕ)
goto_item n s =
    if leb n (s.count / 2)
    then walk_next n s.first s
    else if leb s.count n
    then walk_next (n + 1 - s.count) s.last s
    else walk_prev (s.count - 1 - n) s.last s
