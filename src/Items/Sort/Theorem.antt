-- ===== src/Items/Sort/Theorem.antt =====
-- Sorting an item in keeps the names sorted.
use msgcore.Prelude.{
  ℕ, suc, ◌-◌, ◌<◌, ◌≡◌, ◌≢◌, inl, inr, refl, Bool, true, false, ◌||◌, some, List, [], ◌∷◌, has,
  length, arith, leb, ltb, ◌==◌, if◌then◌else◌, Bool-cases, subst, sym, ap,
}
use msgcore.Width.{addr_limit}
use msgcore.Heap.{Block}
use msgcore.Heap.Chain.{Chain, Chain-not-null, Chain-IsDistinct, IsDistinct}
use msgcore.Heap.Chain.Insert.{insert, Before}
use msgcore.Items.{Store, Ends, Ends-map, Ends-value, ok, M}
use msgcore.Items.Link.{attr_linkin, desc_linkin}
use msgcore.Items.Listed.{Lists, links}
use msgcore.Items.Listed.Linked.{Fresh, Inserted, attr_linkin-inserts, desc_linkin-inserts}
use msgcore.Items.Sequence.{has_items}
use msgcore.Items.Goto.Index.{get_elem?, get_elem?-has, last_at, prev_at}
use msgcore.Items.Sort.{
  Name, name_lt, sortin, sort_within, attr_sortin, desc_sortin, search, sort_place,
}
use msgcore.Items.Sort.Place.{Collation, IsSorted, Compares, rank, rank-le, after}
use msgcore.Items.Sort.Search.{
  goto_if-lt, goto_if-ge, Narrow, search-ok, Neighbours, sort_place-ok, get_elem?-some,
}

module _ (neg : Name → Name → ℕ → Bool) (co : Collation neg) (name_of : ℕ → Name) where
  -- The reference: in front of the first name that comes after.
  abbrev pub insert_sorted : Name → ℕ → List ℕ → List ℕ
  insert_sorted n a [] = a ∷ []
  insert_sorted n a (x ∷ xs) =
      if name_lt neg n (name_of x) then a ∷ x ∷ xs else x ∷ insert_sorted n a xs

  has-insert_sorted :
      (n : Name) (q a : ℕ) (xs : List ℕ) → has q (insert_sorted n a xs) ≡ (has q xs || (q == a))
  has-insert_sorted n q a [] = ground arith
  has-insert_sorted n q a (x ∷ xs) = ground (arith, has-insert_sorted n q a xs)

  -- The item at the place is the one that the reference inserts in front of.
  insert-at-rank :
      (n : Name) (a m : ℕ) (xs : List ℕ)
      → IsDistinct xs
      → get_elem? xs (rank neg co name_of n xs) ≡ some m
      → insert m a xs ≡ insert_sorted n a xs
  insert-at-rank n a m [] d e = cc
  insert-at-rank n a m (x ∷ xs) d e =
      ground
        (arith, insert-at-rank n a m xs d.1, get_elem?-has xs (rank neg co name_of n xs) {x = m})

  insert-at-end :
      (n : Name) (a : ℕ) (xs : List ℕ)
      → has 0 xs ≡ false
      → rank neg co name_of n xs ≡ length xs
      → insert 0 a xs ≡ insert_sorted n a xs
  insert-at-end n a [] d e = refl
  insert-at-end n a (x ∷ xs) d e = ground (arith, insert-at-end n a xs)

  pub insert_sorted-IsSorted :
      (n : Name) (a : ℕ) (xs : List ℕ)
      → name_of a ≡ n
      → IsSorted neg co name_of xs
      → Compares neg co name_of n xs
      → IsSorted neg co name_of (insert_sorted n a xs)
  insert_sorted-IsSorted n a [] e so c = ((λ q m. cc), tt)
  insert_sorted-IsSorted n a (x ∷ xs) e so c = elim (Bool-cases (name_lt neg n (name_of x))) [
    | inl before ↦ rw before (
      (λ q m.
          subst (λ v. name_lt neg v (name_of q) ≡ true) (sym e)
            (after neg co name_of n x q xs before (so.0 q) m)),
      so,
    )
    | inr behind ↦ rw behind (
      (λ q m. elim (Bool-cases (q == a)) [
        | inl same ↦
            let same' : a ≡ q = ground arith in
            let cx = c x (ground arith) in
            let lx : name_lt neg (name_of x) n ≡ true = ground arith in
            subst (λ v. name_lt neg (name_of x) (name_of v) ≡ true) same'
              (subst (λ v. name_lt neg (name_of x) v ≡ true) (sym e) lx)
        | inr other ↦ so.0 q (ground (arith, has-insert_sorted n q a xs))
      ]),
      insert_sorted-IsSorted n a xs e so.1 (λ q m. c q (ground arith)),
    )
  ]

-- Of an empty container, and of the two ends of another.
last_null :
    (f : ℕ → Block) (c last : ℕ) (xs : List ℕ) → Chain f 0 c xs last → length xs ≡ 0 → 0 ≡ last
last_null f c last [] h e = sym h.1
last_null f c last (x ∷ xs) h e = cc

first_prev :
    (f : ℕ → Block) (c last : ℕ) (xs : List ℕ) {x : ℕ}
    → Chain f 0 c xs last
    → get_elem? xs 0 ≡ some x
    → (f x).prev ≡ 0
first_prev f c last [] h e = cc
first_prev f c last (y ∷ xs) (e₀, ne, out, back, rest) e = ground arith

last_elem :
    (f : ℕ → Block) (c last : ℕ) (xs : List ℕ) {x : ℕ}
    → Chain f 0 c xs last
    → get_elem? xs (length xs - 1) ≡ some x
    → x ≡ last
last_elem f c last [] h e = cc
last_elem f c last (y ∷ xs) {x} h e =
    let k : get_elem? (y ∷ xs) (length xs) ≡ some x =
      subst (λ i. get_elem? (y ∷ xs) i ≡ some x) (omega arith) e in
    ground (arith, last_at f 0 c last y xs h)

-- The state after sorting an item in: the container holds the items in the reference's order, their
-- names are sorted, and no item outside has changed but the new one.
pub record SortedIn (neg : Name → Name → ℕ → Bool) (co : Collation neg) (name_of : ℕ → Name)
    (s : Store) (xs : List ℕ) (n : Name) (a owner : ℕ) (t : Store) : Type 0 where
  pub lists : Lists t (insert_sorted neg co name_of n a xs)
  pub sorted : IsSorted neg co name_of (insert_sorted neg co name_of n a xs)
  pub parent : (t.items a).parent ≡ owner
  pub others : (q : ℕ) → q ≢ 0 → q ≢ a → has q xs ≡ false → t.items q ≡ s.items q

module _ (neg : Name → Name → ℕ → Bool) (co : Collation neg) (name_of : ℕ → Name) (vect : ℕ → Bool)
    (s : Store) (xs : List ℕ) (l : Lists s xs) (so : IsSorted neg co name_of xs) (n : Name)
    (cm : Compares neg co name_of n xs) (flat : (q : ℕ) → has q xs ≡ true → vect q ≡ false)
    (small : length xs < 0x8000_0000) where
  -- The neighbours that the item is linked between.
  record Chosen (link : ℕ → ℕ → ℕ → M (Unit {0})) (a : ℕ) : Type 0 where
    before : ℕ
    after : ℕ
    place : Before (links s.items) s.last xs before after
    order : insert after a xs ≡ insert_sorted neg co name_of n a xs
    run : sortin neg name_of vect link n a s ≡ link before a after s

  nn : has 0 xs ≡ false
  nn = Chain-not-null (links s.items) 0 s.first s.last xs l.chain

  distinct : IsDistinct xs
  distinct = Chain-IsDistinct (links s.items) 0 s.first s.last xs l.chain

  abbrev k : ℕ
  k = rank neg co name_of n xs

  module _ (link : ℕ → ℕ → ℕ → M (Unit {0})) (a : ℕ) where
    choose_empty : length xs ≡ 0 → Chosen link a
    unfolding sortin
    choose_empty e = record {
      before = 0;
      after = 0;
      place = inl (refl, last_null (links s.items) s.first s.last xs l.chain e);
      order = insert-at-end neg co name_of n a xs nn (ground (arith, rank-le neg co name_of n xs));
      run = let c = l.count in let h : has_items s ≡ false = ground arith in rw h refl;
    }

    choose_first : 0 < length xs → k ≡ 0 → Chosen link a
    unfolding sortin
    choose_first pos z =
        let c = l.count in
        let h : has_items s ≡ true = ground arith in
        let (f, e) = get_elem?-some xs 0 pos in
        let t : leb k 0 ≡ true = ground arith in
        record {
          before = 0;
          after = f;
          place =
              inr (get_elem?-has xs 0 e, first_prev (links s.items) s.first s.last xs l.chain e);
          order =
              insert-at-rank neg co name_of n a f xs distinct
                (subst (λ i. get_elem? xs i ≡ some f) (sym z) e);
          run =
              rw
                (
                  h,
                  goto_if-lt neg co name_of vect s xs l so n cm 0,
                  t,
                  e,
                  flat f (get_elem?-has xs 0 e),
                )
                refl;
        }

    choose_last : 0 < length xs → k ≡ length xs → Chosen link a
    unfolding sortin
    choose_last pos z =
        let c = l.count in
        let h : has_items s ≡ true = ground arith in
        let (f, e) = get_elem?-some xs (length xs - 1) (omega arith) in
        let t : leb k 0 ≡ false = ground arith in
        let u : ltb (length xs - 1) k ≡ true = ground arith in
        record {
          before = f;
          after = 0;
          place = inl (refl, last_elem (links s.items) s.first s.last xs l.chain e);
          order = insert-at-end neg co name_of n a xs nn z;
          run =
              rw
                (
                  h,
                  goto_if-lt neg co name_of vect s xs l so n cm 0,
                  t,
                  ap (λ v. v - 1) c,
                  goto_if-ge neg co name_of vect s xs l so n cm (length xs - 1),
                  u,
                  e,
                  flat f (get_elem?-has xs (length xs - 1) e),
                )
                refl;
        }

    choose_between :
        0 < k
        → k < length xs
        → (bounds place : ℕ × ℕ) → search neg name_of vect s.count n 0 (s.count - 1) s ≡ ok bounds s
        → sort_place neg name_of vect n bounds.0 bounds.1 s ≡ ok place s
        → Neighbours neg co name_of vect s xs l so n cm place.0 place.1
        → Chosen link a
    unfolding sortin sort_within
    choose_between pos less bounds place er ep nb =
        let c = l.count in
        let h : has_items s ≡ true = ground arith in
        let t : leb k 0 ≡ false = ground arith in
        let u : ltb (s.count - 1) k ≡ false = ground arith in
        let after' : get_elem? xs (suc (k - 1)) ≡ some place.1 =
          subst (λ i. get_elem? xs i ≡ some place.1) (omega arith) nb.after in
        let back = prev_at (links s.items) 0 s.first s.last (k - 1) xs l.chain after' in
        let bf = nb.before in
        record {
          before = place.0;
          after = place.1;
          place = inr (get_elem?-has xs k nb.after, ground arith);
          order = insert-at-rank neg co name_of n a place.1 xs distinct nb.after;
          run =
              rw
                (
                  h,
                  goto_if-lt neg co name_of vect s xs l so n cm 0,
                  t,
                  goto_if-ge neg co name_of vect s xs l so n cm (s.count - 1),
                  u,
                  er,
                  ep,
                )
                refl;
        }

    choose_within : 0 < k → k < length xs → Chosen link a
    choose_within pos less =
        let c = l.count in
        let (bounds, er, na) =
          Ends-value s (search neg name_of vect s.count n 0 (s.count - 1) s)
            (λ r. Narrow neg co name_of vect s xs l so n cm r.0 r.1)
            (search-ok neg co name_of vect s xs l so n cm s.count 0 (s.count - 1) (omega arith)
              (ground arith) (ground arith) (ground arith) (ground arith)) in
        let (place, ep, nb) =
          Ends-value s (sort_place neg name_of vect n bounds.0 bounds.1 s)
            (λ r. Neighbours neg co name_of vect s xs l so n cm r.0 r.1)
            (sort_place-ok neg co name_of vect s xs l so n cm flat pos less bounds.0 bounds.1 na) in
        choose_between pos less bounds place er ep nb

    choose : Chosen link a
    choose = elim (Bool-cases (ltb 0 (length xs))) [
      | inr e ↦ choose_empty (ground arith)
      | inl pos ↦ elim (Bool-cases (ltb 0 k)) [
        | inr z ↦ choose_first (ground arith) (ground arith)
        | inl p ↦ elim (Bool-cases (ltb k (length xs))) [
          | inl q ↦ choose_within (ground arith) (ground arith)
          | inr q ↦ choose_last (ground arith) (ground (arith, rank-le neg co name_of n xs))
        ]
      ]
    ]

  module _ (p a : ℕ) (np : p < addr_limit s.addr) (fr : Fresh s xs a) (named : name_of a ≡ n) where
    Inserted-SortedIn :
        (m : ℕ) (t : Store)
        → insert m a xs ≡ insert_sorted neg co name_of n a xs
        → Inserted s xs m a p t
        → SortedIn neg co name_of s xs n a p t
    Inserted-SortedIn m t e i = record {
      lists = subst (λ v. Lists t v) e i.lists;
      sorted = insert_sorted-IsSorted neg co name_of n a xs named so cm;
      parent = i.parent;
      others = i.others;
    }

    -- Sorting an attribute into a container whose names are sorted puts it where the reference does,
    -- and the names are sorted again, for a name that the comparison tells from every name there is,
    -- among items that are no vectors and fewer than 2^31.
    pub attr_sortin-ok :
        Ends (attr_sortin neg name_of vect p n a s) (λ _ t. SortedIn neg co name_of s xs n a p t)
    unfolding attr_sortin
    attr_sortin-ok =
        let ch = choose (attr_linkin p) a in
        rw ch.run (
          Ends-map (attr_linkin p ch.before a ch.after s) (λ _ t. Inserted s xs ch.after a p t)
            (λ _ t. SortedIn neg co name_of s xs n a p t)
            (attr_linkin-inserts s xs l a fr ch.before ch.after ch.place p np)
            (λ _ t i. Inserted-SortedIn ch.after t ch.order i))

    -- The same for descendants.
    pub desc_sortin-ok :
        Ends (desc_sortin neg name_of vect p n a s) (λ _ t. SortedIn neg co name_of s xs n a p t)
    unfolding desc_sortin
    desc_sortin-ok =
        let ch = choose (desc_linkin p) a in
        rw ch.run (
          Ends-map (desc_linkin p ch.before a ch.after s) (λ _ t. Inserted s xs ch.after a p t)
            (λ _ t. SortedIn neg co name_of s xs n a p t)
            (desc_linkin-inserts s xs l a fr ch.before ch.after ch.place p np)
            (λ _ t i. Inserted-SortedIn ch.after t ch.order i))
