-- ===== src/Items/Link.antt =====
-- Linking an item into a container: `P2PmsgList_LinkinItem` (P2Pmsg.cpp), `P2PmsgAttr_LinkinItem`
-- (MsgAttr.cpp) and `P2PmsgDesc_LinkinItem` (MsgDesc.cpp). The first and the last cast an offset to
-- the container's width, the second refuses one that does not fit.
pub mod Splice
use msgcore.Prelude.{ℕ, ◌+◌, ◌%◌, Bool, true, not, Option, none, some, ltb, ◌==◌, if◌then◌else◌}
use msgcore.Width.{AddrType, addr_limit}
use msgcore.Items.{
  Item, Store, M, ok, throw, ◌>>=◌, ◌>>◌, pure, get, modify, when, does_not_fit, count_limit,
  msg2phys, not_null, put_item,
}

-- (UINTnn)aAddr
abbrev pub cast : AddrType → ℕ → ℕ
cast w a = a % addr_limit w

-- `P2PmsgAttr_Narrow`
unfoldable pub narrow : ℕ → M ℕ
narrow a s = if ltb a (addr_limit s.addr) then ok a s else throw does_not_fit s

-- nItems++
abbrev pub count_item : M (Unit {0})
count_item = modify λ s. record s { count = (s.count + 1) % count_limit s.addr }

abbrev pub mark_linked : ℕ → M (Unit {0})
mark_linked a = put_item a λ i. record i { linked = true }

abbrev pub put_prev : ℕ → ℕ → M (Unit {0})
put_prev a v = put_item a λ i. record i { prev = v }

abbrev pub put_next : ℕ → ℕ → M (Unit {0})
put_next a v = put_item a λ i. record i { next = v }

abbrev pub put_parent : ℕ → ℕ → M (Unit {0})
put_parent a v = put_item a λ i. record i { parent = v }

-- The keys that name an item at either end; the item's own links are read.
unfoldable pub name_ends : ℕ → ℕ → M (Unit {0})
name_ends a key = do
  i ← get (λ s. s.items a)
  when (i.prev == 0) (modify λ s. record s { first = key })
  when (i.next == 0) (modify λ s. record s { last = key })
  count_item

unfoldable pub list_linkin : ℕ → ℕ → ℕ → M (Unit {0})
list_linkin prev a next = do
  msg2phys prev
  msg2phys a
  msg2phys next
  not_null a
  w ← get (λ s. s.addr)
  put_prev a (cast w prev)
  when (not (prev == 0)) (put_next prev (cast w a))
  mark_linked a
  put_next a (cast w next)
  when (not (next == 0)) (put_prev next (cast w a))
  name_ends a (cast w a)

-- Each key is narrowed where it is stored, so a refusal leaves the earlier ones behind. The parts
-- are those of the source: the links to the previous item, those to the next one, and the keys.
unfoldable pub attr_prev : ℕ → ℕ → M (Unit {0})
attr_prev prev a = do
  prev' ← narrow prev
  put_prev a prev'
  when (not (prev == 0)) (do a' ← narrow a; put_next prev a')
  mark_linked a

unfoldable pub attr_next : ℕ → ℕ → M (Unit {0})
attr_next a next = do
  next' ← narrow next
  put_next a next'
  when (not (next == 0)) (do a' ← narrow a; put_prev next a')

unfoldable pub attr_ends : ℕ → M (Unit {0})
attr_ends a = do
  i ← get (λ s. s.items a)
  when (i.prev == 0) (do a' ← narrow a; modify λ s. record s { first = a' })
  when (i.next == 0) (do a' ← narrow a; modify λ s. record s { last = a' })
  count_item

unfoldable pub attr_linkin : ℕ → ℕ → ℕ → ℕ → M (Unit {0})
attr_linkin parent prev a next = do
  msg2phys prev
  msg2phys a
  msg2phys next
  parent' ← narrow parent
  not_null a
  put_parent a parent'
  attr_prev prev a
  attr_next a next
  attr_ends a

-- The stores to the item itself come first.
unfoldable pub desc_linkin : ℕ → ℕ → ℕ → ℕ → M (Unit {0})
desc_linkin parent prev a next = do
  msg2phys prev
  msg2phys a
  msg2phys next
  not_null a
  w ← get (λ s. s.addr)
  put_item a (λ i. record {
    linked = true;
    parent = cast w parent;
    prev = cast w prev;
    next = cast w next;
  })
  when (not (prev == 0)) (put_next prev (cast w a))
  when (not (next == 0)) (put_prev next (cast w a))
  name_ends a (cast w a)
