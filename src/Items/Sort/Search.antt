-- ===== src/Items/Sort/Search.antt =====
-- The binary search among sorted names ends, with the rank of the name between its bounds, and the
-- comparisons after it find the neighbours.
use msgcore.Prelude.{
  ℕ, zero, suc, ◌+◌, ◌-◌, ◌/◌, ◌≤◌, ◌<◌, ◌≡◌, inl, inr, refl, Bool, true, false, not, Option, none,
  some, List, [], ◌∷◌, has, length, arith, leb, ltb, if◌then◌else◌, Bool-cases, subst, ap, ◌∙◌,
}
use msgcore.Items.{Store, Ends, ok, and_then, pure}
use msgcore.Items.Listed.{Lists, links}
use msgcore.Items.Goto.Index.{get_elem?, get_elem?-has, goto_item-ok, prev_at, next_at}
use msgcore.Items.Sort.{Name, name_lt, name_gt, goto_if, search, sort_place, cursor_item}
use msgcore.Items.Sort.Place.{Collation, IsSorted, Compares, rank, rank_iff}

pub get_elem?-some : (xs : List ℕ) (i : ℕ) → i < length xs → (x : ℕ) × (get_elem? xs i ≡ some x)
get_elem?-some [] i h = absurd (omega arith)
get_elem?-some (x ∷ xs) zero h = (x, refl)
get_elem?-some (x ∷ xs) (suc i) h = get_elem?-some xs i (omega arith)

-- `>` is the negation of `<`.
pub name_gt-not :
    (neg : Name → Name → ℕ → Bool) (x y : Name) → name_gt neg x y ≡ not (name_lt neg x y)
unfolding name_gt name_lt
name_gt-not neg x y = ground arith

-- A test on the item there is.
test_at :
    (s : Store) (name_of : ℕ → Name) (test : Name → Bool) (b : Bool) (o : Option ℕ)
    → ((x : ℕ) → o ≡ some x → test (name_of x) ≡ b)
    → and_then {B = Option ℕ}
        (ok o s)
        (elim [ none ↦ pure none | some a ↦ pure (if test (name_of a) then some a else none) ])
      ≡ ok (if b then o else none) s
test_at s name_of test true none h = refl
test_at s name_of test false none h = refl
test_at s name_of test b (some x) h = ap (λ c. ok (if c then some x else none) s) (h x refl)

module _ (neg : Name → Name → ℕ → Bool) (co : Collation neg) (name_of : ℕ → Name) (vect : ℕ → Bool)
    (s : Store) (xs : List ℕ) (l : Lists s xs) (so : IsSorted neg co name_of xs) (n : Name)
    (cm : Compares neg co name_of n xs) where
  abbrev k : ℕ
  k = rank neg co name_of n xs

  pub goto_if-lt :
      (i : ℕ)
      → goto_if neg name_of vect i (λ m. name_lt neg n m) s
        ≡ ok (if leb k i then get_elem? xs i else none) s
  unfolding goto_if
  goto_if-lt i = rw (goto_item-ok s i xs l) (
      test_at s name_of (λ m. name_lt neg n m) (leb k i) (get_elem? xs i)
        (λ x e. (rank_iff neg co name_of n xs i so cm e).0))

  pub goto_if-gt :
      (i : ℕ)
      → goto_if neg name_of vect i (λ m. name_lt neg m n) s
        ≡ ok (if ltb i k then get_elem? xs i else none) s
  unfolding goto_if
  goto_if-gt i = rw (goto_item-ok s i xs l) (
      test_at s name_of (λ m. name_lt neg m n) (ltb i k) (get_elem? xs i)
        (λ x e. (rank_iff neg co name_of n xs i so cm e).1))

  pub goto_if-ge :
      (i : ℕ)
      → goto_if neg name_of vect i (λ m. name_gt neg n m) s
        ≡ ok (if ltb i k then get_elem? xs i else none) s
  unfolding goto_if name_gt name_lt
  goto_if-ge i = rw (goto_item-ok s i xs l) (
      test_at s name_of (λ m. name_gt neg n m) (ltb i k) (get_elem? xs i)
        (λ x e. let r = (rank_iff neg co name_of n xs i so cm e).0 in ground arith))

  -- The rank is within the bounds, which are next to each other.
  pub record Narrow (i j : ℕ) : Type 0 where
    pub low : i ≤ k
    pub high : k ≤ j + 1
    pub near : j ≤ i + 1
    pub order : i ≤ j
    pub inside : j < length xs

  -- As many turns as there are items are enough.
  pub search-ok :
      (fuel i j : ℕ)
      → i ≤ k
      → k ≤ j + 1
      → i ≤ j
      → j < length xs
      → j ≤ i + fuel
      → Ends (search neg name_of vect fuel n i j s) (λ r t. (t ≡ s) × Narrow r.0 r.1)
  unfolding search
  search-ok zero i j lo hi le lt' f =
      (refl, record { low = lo; high = hi; near = omega arith; order = le; inside = lt' })
  search-ok (suc fuel) i j lo hi le lt' f = elim (Bool-cases (ltb (i + 1) j)) [
    | inr done ↦
        rw done
          (refl, record { low = lo; high = hi; near = ground arith; order = le; inside = lt' })
    | inl wide ↦
        let mid = (i + j) / 2 in
        let (x, e) = get_elem?-some xs mid (ground arith) in
        let r = rank_iff neg co name_of n xs mid so cm e in
        rw (wide, goto_item-ok s mid xs l, e)
          (elim (Bool-cases (ltb mid k)) [
            | inl below ↦
                rw (r.1 ∙ below)
                  (search-ok fuel (mid + 1) j (ground arith) hi (ground arith) lt' (ground arith))
            | inr above ↦
                rw (r.1 ∙ above, name_gt-not neg (name_of x) n, r.1 ∙ above)
                  (search-ok fuel i (mid - 1) lo (ground arith) (ground arith) (ground arith)
                    (ground arith))
          ])
  ]

  -- The items on both sides of the place.
  pub record Neighbours (b m : ℕ) : Type 0 where
    pub before : get_elem? xs (k - 1) ≡ some b
    pub after : get_elem? xs k ≡ some m

  module _ (flat : (q : ℕ) → has q xs ≡ true → vect q ≡ false) (pos : 0 < k)
      (less : k < length xs) where
    before_item : (x : ℕ) → get_elem? xs k ≡ some x → Neighbours (s.items x).prev x
    before_item x e =
        let e' : get_elem? xs (suc (k - 1)) ≡ some x =
          subst (λ i. get_elem? xs i ≡ some x) (omega arith) e in
        record {
          before = prev_at (links s.items) 0 s.first s.last (k - 1) xs l.chain e';
          after = e;
        }

    after_item : (x : ℕ) → get_elem? xs (k - 1) ≡ some x → Neighbours x (s.items x).next
    after_item x e =
        let nx = next_at (links s.items) 0 s.first s.last (k - 1) xs l.chain e in
        let (y, ey) = get_elem?-some xs k less in
        let ey' : get_elem? xs (suc (k - 1)) ≡ some y =
          subst (λ i. get_elem? xs i ≡ some y) (omega arith) ey in
        let here : get_elem? xs (suc (k - 1)) ≡ some (s.items x).next = ground arith in
        record {
          before = e;
          after = subst (λ i. get_elem? xs i ≡ some (s.items x).next) (omega arith) here;
        }

    pub sort_place-ok :
        (i j : ℕ)
        → Narrow i j
        → Ends (sort_place neg name_of vect n i j s) (λ r t. (t ≡ s) × Neighbours r.0 r.1)
    unfolding sort_place cursor_item
    sort_place-ok i j na =
        let lo = na.low in
        let hi = na.high in
        let nr = na.near in
        let le = na.order in
        let lt' = na.inside in
        elim (Bool-cases (leb k i)) [
          | inl at_low ↦
              let (x, e) = get_elem?-some xs i (ground arith) in
              rw (goto_if-lt i, at_low, e, flat x (get_elem?-has xs i e))
                (refl, before_item x (subst (λ v. get_elem? xs v ≡ some x) (ground arith) e))
          | inr past_low ↦
              let (y, ey) = get_elem?-some xs i (ground arith) in
              let (x, e) = get_elem?-some xs j lt' in
              elim (Bool-cases (leb k j)) [
                | inl at_high ↦
                    rw
                      (
                        goto_if-lt i,
                        past_low,
                        goto_if-lt j,
                        at_high,
                        e,
                        flat x (get_elem?-has xs j e),
                      )
                      (refl, before_item x (subst (λ v. get_elem? xs v ≡ some x) (ground arith) e))
                | inr past_high ↦
                    let below : ltb j k ≡ true = ground arith in
                    rw
                      (
                        goto_if-lt i,
                        past_low,
                        goto_if-lt j,
                        past_high,
                        goto_if-gt j,
                        below,
                        e,
                        flat x (get_elem?-has xs j e),
                      )
                      (refl, after_item x (subst (λ v. get_elem? xs v ≡ some x) (ground arith) e))
              ]
        ]
