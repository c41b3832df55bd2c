-- ===== src/Items/Listed/Unlinked.antt =====
-- Unlinking from a container removes from its sequence.
use msgcore.Prelude.{
  ℕ, ◌+◌, ◌-◌, ◌%◌, ◌^◌, ◌≤◌, ◌<◌, ◌≡◌, ◌≢◌, ◌⊎◌, refl, inl, inr, true, false, List, has, arith,
  ◌==◌, if◌then◌else◌, sym, ap, ◌∙◌, update,
}
use msgcore.Width.{AddrType, addr08, addr16, addr32, addr64}
use msgcore.Heap.Chain.{
  Chain, Chain-next, Chain-prev, Chain-links, Chain-not-null, Chain-IsDistinct, has-remove, remove,
}
use msgcore.Heap.Chain.Remove.{Chain-remove}
use msgcore.Heap.Chain.Totals.{length-remove}
use msgcore.Items.{
  and_then, ◌>>◌, pure, Item, Store, M, Ends, ok, link_limit, items_limit, set_prev, set_next,
  set_parent, set_first, set_last, add_items, msg2phys, not_null,
}
use msgcore.Items.Unlink.{
  list_unlink, attr_unlink, desc_unlink, join_items, drop_keys, isolate_item,
}
use msgcore.Items.Listed.{Lists, links}

abbrev joined : ℕ → ℕ → (ℕ → Item) → ℕ → Item
joined p n f =
    let g = if p == 0 then f else update f p (record (f p) { next = n }) in
    if n == 0 then g else update g n (record (g n) { prev = p })

join_items-run :
    (s : Store) (p n : ℕ)
    → p < link_limit s.addr
    → n < link_limit s.addr
    → join_items p n s ≡ ok tt (record s { items = joined p n s.items })
unfolding join_items set_next set_prev
join_items-run s p n lp ln = ground arith

drop_keys-run :
    (s : Store) (p a n : ℕ)
    → p < link_limit s.addr
    → n < link_limit s.addr
    → (s.count + (2 ^ 32 - 1)) % 2 ^ 32 < items_limit s.addr
    → drop_keys p a n s
      ≡ ok tt (record s {
        first = if s.first == a then n else s.first;
        last = if s.last == a then p else s.last;
        count = (s.count + (2 ^ 32 - 1)) % 2 ^ 32;
      })
unfolding drop_keys add_items set_first set_last
drop_keys-run s p a n lp ln c = ground arith

abbrev cleared : ℕ → (ℕ → Item) → ℕ → Item
cleared a f =
    let g = update f a (record (f a) { prev = 0 }) in
    let k = update g a (record (g a) { next = 0 }) in update k a (record (k a) { parent = 0 })

isolate_item-run :
    (s : Store) (a : ℕ)
    → 0 < link_limit s.addr
    → isolate_item a s ≡ ok tt (record s { items = cleared a s.items })
unfolding isolate_item set_prev set_next set_parent
isolate_item-run s a l = ground arith

-- The state after unlinking: the container holds the other items, the item is on its own, and no
-- item of another container has changed.
pub record Removed (s : Store) (xs : List ℕ) (a : ℕ) (t : Store) : Type 0 where
  pub lists : Lists t (remove a xs)
  pub item : t.items a ≡ record { linked = true; parent = 0; prev = 0; next = 0 }
  pub addr : t.addr ≡ s.addr
  pub size : t.size ≡ s.size
  pub others : (q : ℕ) → has q xs ≡ false → t.items q ≡ s.items q

few_less :
    (w : AddrType) (c : ℕ)
    → c ≤ items_limit w
    → 0 < c
    → ((c + (2 ^ 32 - 1)) % 2 ^ 32 ≡ c - 1) × (c - 1 < items_limit w) × (c < 2 ^ 32)
few_less addr08 c le e = ground arith
few_less addr16 c le e = ground arith
few_less addr32 c le e = ground arith
few_less addr64 c le e = ground arith

module _ (s : Store) (xs : List ℕ) (l : Lists s xs) (few : s.count ≤ items_limit s.addr) (a : ℕ)
    (i : has a xs ≡ true) where
  abbrev final : Store
  final =
      let p = (s.items a).prev in
      let n = (s.items a).next in
      record s {
        first = if s.first == a then n else s.first;
        last = if s.last == a then p else s.last;
        count = (s.count + (2 ^ 32 - 1)) % 2 ^ 32;
        items = cleared a (joined p n s.items);
      }

  nn : has 0 xs ≡ false
  nn = Chain-not-null (links s.items) 0 s.first s.last xs l.chain

  mem-ne-null : (q : ℕ) → has q xs ≡ true → q ≢ 0
  mem-ne-null q m e = ground (arith, nn)

  prev_mem : ((s.items a).prev ≡ 0) ⊎ (has (s.items a).prev xs ≡ true)
  prev_mem = ground (arith, Chain-prev (links s.items) 0 s.first s.last a xs l.chain nn i)

  next_mem : ((s.items a).next ≡ 0) ⊎ (has (s.items a).next xs ≡ true)
  next_mem = ground (arith, Chain-next (links s.items) 0 s.first s.last a xs l.chain i)

  known : (q : ℕ) → (q ≡ 0) ⊎ (has q xs ≡ true) → (q ≤ s.size) × (q < link_limit s.addr)
  known q (inl e) = let na = l.narrow a i in (ground arith, ground arith)
  known q (inr m) = (l.inside q m, l.narrow q m)

  -- One is subtracted by adding the pattern of -1.
  one_less :
      ((s.count + (2 ^ 32 - 1)) % 2 ^ 32 ≡ s.count - 1)
      × (s.count - 1 < items_limit s.addr)
      × (s.count < 2 ^ 32)
  one_less = few_less s.addr s.count few (let c = l.count in ground (arith, length-remove a xs i))

  list_unlink-run : list_unlink a s ≡ ok a final
  unfolding list_unlink msg2phys not_null
  list_unlink-run =
      let p = (s.items a).prev in
      let n = (s.items a).next in
      let kp = known p prev_mem in
      let kn = known n next_mem in
      let ia = l.inside a i in
      let c = one_less in
      let pos = mem-ne-null a i in
      let start : list_unlink a s
          ≡ and_then (join_items p n s) (λ _. drop_keys p a n >> (isolate_item a >> pure a)) =
        ground arith in
      rw
        (
          start,
          join_items-run s p n kp.1 kn.1,
          drop_keys-run (record s { items = joined p n s.items }) p a n kp.1 kn.1 (ground arith),
          isolate_item-run
              (record s {
                first = if s.first == a then n else s.first;
                last = if s.last == a then p else s.last;
                count = (s.count + (2 ^ 32 - 1)) % 2 ^ 32;
                items = joined p n s.items;
              })
              a (ground arith),
        )
        refl

  -- The links of the other items.
  other :
      (q : ℕ)
      → q ≢ 0
      → q ≢ a
      → final.items q ≡ record (s.items q) {
        prev = if q == (s.items a).next then (s.items a).prev else (s.items q).prev;
        next = if q == (s.items a).prev then (s.items a).next else (s.items q).next;
      }
  other q nz na = ground (arith, Chain-links (links s.items) 0 s.first s.last a xs l.chain nn i)

  final-Chain : Chain (links final.items) 0 final.first (remove a xs) final.last
  final-Chain =
      Chain-remove (links s.items) (links final.items) a
        (λ q nz na. (ap (λ i. i.prev) (other q nz na), ap (λ i. i.next) (other q nz na))) 0 s.first
        s.last xs l.chain i nn (λ e. mem-ne-null a i (sym e))

  -- The items that are left.
  left : (q : ℕ) → has q (remove a xs) ≡ true → (has q xs ≡ true) × (q ≢ a)
  left q m =
      let d = Chain-IsDistinct (links s.items) 0 s.first s.last xs l.chain in
      (ground (arith, has-remove a q xs d), λ e. ground (arith, has-remove a q xs d))

  outside : (q : ℕ) → has q xs ≡ false → final.items q ≡ s.items q
  outside q o = ground (arith, prev_mem, next_mem, i)

  final-Removed : Removed s xs a final
  final-Removed = record {
    lists = record {
      chain = final-Chain;
      count = let c = l.count in ground (arith, one_less, length-remove a xs i);
      inside = λ q m. l.inside q (left q m).0;
      narrow = λ q m. l.narrow q (left q m).0;
      linked = λ q m.
          ap (λ i. i.linked) (other q (mem-ne-null q (left q m).0) (left q m).1)
          ∙ l.linked q (left q m).0;
    };
    item =
        let k = l.linked a i in
        let ln = Chain-links (links s.items) 0 s.first s.last a xs l.chain nn i in ground arith;
    addr = refl;
    size = refl;
    others = λ q o. outside q o;
  }

  abbrev pub Taken : M ℕ → Type 0
  Taken m = Ends (m s) (λ r t. (r ≡ a) × Removed s xs a t)

  -- Unlinking an item that a container holds gives the item back, with its links and its parent
  -- cleared, and leaves the container the others in their order, and the other items as they were.
  -- This holds of lists, of attributes and of descendants. The count has to be one that the routine can store after the subtraction.
  pub unlink-removes : Taken (list_unlink a) × Taken (attr_unlink a) × Taken (desc_unlink a)
  unfolding attr_unlink desc_unlink
  unlink-removes = (
    rw list_unlink-run (refl, final-Removed),
    rw list_unlink-run (refl, final-Removed),
    rw list_unlink-run (refl, final-Removed),
  )
