-- ===== src/Items/Sequence.antt =====
-- A list of items behind its operations (MsgList.cpp, `P3PmsgList`): the linking part of
-- `AddListHead` and `AddListTail`, which takes an item that was allocated, `DropHead`, `DropTail`,
-- `Delete` and `Truncate`. Dropping an item unlinks it, and leaves its block allocated.
pub mod Refines
use msgcore.Prelude.{ℕ, zero, suc, ◌==◌, Bool, List, [], ◌∷◌, ltb, ◌&&◌}
use msgcore.Items.{Store, M, ok, ◌>>=◌, ◌>>◌, pure, get, branch, msg2phys, not_null}
use msgcore.Items.Link.{list_linkin}
use msgcore.Items.Unlink.{list_unlink}

unfoldable pub add_list_head : ℕ → M (Unit {0})
add_list_head a = do first ← get (λ s. s.first); list_linkin 0 a first

unfoldable pub add_list_tail : ℕ → M (Unit {0})
add_list_tail a = do last ← get (λ s. s.last); list_linkin last a 0

unfoldable pub drop_head : M (Unit {0})
drop_head = do a ← get (λ s. s.first); list_unlink a; pure tt

unfoldable pub drop_tail : M (Unit {0})
drop_tail = do a ← get (λ s. s.last); list_unlink a; pure tt

unfoldable pub delete_item : ℕ → M (Unit {0})
delete_item a = do list_unlink a; pure tt

-- `GetCount() > 0`, of a signed number.
abbrev pub has_items : Store → Bool
has_items s = ltb 0 s.count && ltb s.count 0x8000_0000

-- The loop of `Truncate`, which is done where its fuel ends.
unfoldable pub truncate : ℕ → M (Unit {0})
truncate zero s = ok tt s
truncate (suc fuel) s = branch (has_items s) (drop_head >> truncate fuel) (pure tt) s

-- One operation of a client.
pub data Op : Type 0 where
  push_front push_back : ℕ → Op
  pop_front pop_back : Op
  erase : ℕ → Op

unfoldable pub perform : Op → M (Unit {0})
perform (push_front a) = add_list_head a
perform (push_back a) = add_list_tail a
perform pop_front = drop_head
perform pop_back = drop_tail
perform (erase a) = delete_item a

unfoldable pub perform_all : List Op → M (Unit {0})
perform_all [] s = ok tt s
perform_all (o ∷ os) s = (perform o >> perform_all os) s
