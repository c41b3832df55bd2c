-- ===== src/Items/Unlink.antt =====
-- Taking an item out of a container: `P2PmsgList_UnLinkItem` (P2Pmsg.cpp), `P2PmsgAttr_UnLinkItem`
-- (MsgAttr.cpp) and `P2PmsgDesc_UnLinkItem` (MsgDesc.cpp), which take the same steps. The item stays
-- marked as linked.
use msgcore.Prelude.{ℕ, ◌-◌, ◌^◌, not, ◌==◌}
use msgcore.Items.{
  M, ◌>>=◌, ◌>>◌, pure, get, when, msg2phys, not_null, set_prev, set_next, set_parent, set_first,
  set_last, add_items,
}

-- The neighbours are linked to each other.
unfoldable pub join_items : ℕ → ℕ → M (Unit {0})
join_items prev next = do
  when (not (prev == 0)) (set_next prev next)
  when (not (next == 0)) (set_prev next prev)

-- The three last stores.
unfoldable pub isolate_item : ℕ → M (Unit {0})
isolate_item a = do set_prev a 0; set_next a 0; set_parent a 0

-- The count and the keys of the container.
unfoldable pub drop_keys : ℕ → ℕ → ℕ → M (Unit {0})
drop_keys prev a next = do
  add_items (2 ^ 32 - 1)
  first ← get (λ s. s.first)
  when (first == a) (set_first next)
  last ← get (λ s. s.last)
  when (last == a) (set_last prev)

unfoldable pub list_unlink : ℕ → M ℕ
list_unlink a = do
  msg2phys a
  not_null a
  i ← get (λ s. s.items a)
  msg2phys i.prev
  msg2phys i.next
  join_items i.prev i.next
  drop_keys i.prev a i.next
  isolate_item a
  pure a

-- The other two go through the accessors of attributes and of descendants, which are the same.
unfoldable pub attr_unlink : ℕ → M ℕ
attr_unlink = list_unlink

unfoldable pub desc_unlink : ℕ → M ℕ
desc_unlink = list_unlink
