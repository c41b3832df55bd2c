-- ===== src/Items/Goto/Index.antt =====
-- Going to an item by its number finds the item at that place of the sequence.
use msgcore.Prelude.{
  ℕ, zero, suc, ◌+◌, ◌-◌, ◌/◌, ◌≤◌, ◌≡◌, refl, true, false, Option, none, some, List, [], ◌∷◌, has,
  length, arith, leb, ◌==◌, if◌then◌else◌, Bool-cases, inl, inr, subst,
}
use msgcore.Heap.{Block}
use msgcore.Heap.Chain.{Chain, Chain-not-null, Chain-end, Chain-last_mem}
use msgcore.Items.{Store, ok, msg2phys}
use msgcore.Items.Listed.{Lists, links}
use msgcore.Items.Goto.{walk_next, walk_prev, goto_item}

abbrev pub get_elem? : List ℕ → ℕ → Option ℕ
get_elem? [] i = none
get_elem? (x ∷ xs) zero = some x
get_elem? (x ∷ xs) (suc i) = get_elem? xs i

pub get_elem?-has : (xs : List ℕ) (i : ℕ) {x : ℕ} → get_elem? xs i ≡ some x → has x xs ≡ true
get_elem?-has [] i e = cc
get_elem?-has (y ∷ xs) zero e = ground arith
get_elem?-has (y ∷ xs) (suc i) e = ground (arith, get_elem?-has xs i e)

pub get_elem?-past : (xs : List ℕ) (i : ℕ) → length xs ≤ i → get_elem? xs i ≡ none
get_elem?-past [] i h = refl
get_elem?-past (x ∷ xs) zero h = absurd (omega arith)
get_elem?-past (x ∷ xs) (suc i) h = get_elem?-past xs i (omega arith)

-- The link to the previous item leads to the one before in the sequence.
pub prev_at :
    (f : ℕ → Block) (p c last i : ℕ) (xs : List ℕ) {y : ℕ}
    → Chain f p c xs last
    → get_elem? xs (suc i) ≡ some y
    → get_elem? xs i ≡ some (f y).prev
prev_at f p c last i [] h e = cc
prev_at f p c last zero (x ∷ []) h e = cc
prev_at f p c last zero (x ∷ z ∷ xs) (e₀, ne, out, back, rest) e = ground arith
prev_at f p c last (suc i) (x ∷ xs) (e₀, ne, out, back, rest) e =
    prev_at f x (f x).next last i xs rest e

-- The link to the next item leads to the one after it, and is null at the end.
pub next_at :
    (f : ℕ → Block) (p c last i : ℕ) (xs : List ℕ) {y : ℕ}
    → Chain f p c xs last
    → get_elem? xs i ≡ some y
    → get_elem? xs (suc i) ≡ (if (f y).next == 0 then none else some (f y).next)
next_at f p c last i [] h e = cc
next_at f p c last zero (x ∷ []) (e₀, ne, out, back, rest) e = ground arith
next_at f p c last zero (x ∷ z ∷ xs) (e₀, ne, out, back, rest) e = ground arith
next_at f p c last (suc i) (x ∷ xs) (e₀, ne, out, back, rest) e =
    next_at f x (f x).next last i xs rest e

pub last_at :
    (f : ℕ → Block) (p c last : ℕ) (x : ℕ) (xs : List ℕ)
    → Chain f p c (x ∷ xs) last
    → get_elem? (x ∷ xs) (length xs) ≡ some last
last_at f p c last x [] h = ground arith
last_at f p c last x (y ∷ xs) (e₀, ne, out, back, rest) = last_at f x (f x).next last y xs rest

module _ (s : Store) where
  walk_next-ok :
      (d p c last : ℕ) (xs : List ℕ)
      → Chain (links s.items) p c xs last
      → ((q : ℕ) → has q xs ≡ true → q ≤ s.size)
      → walk_next d c s ≡ ok (get_elem? xs d) s
  unfolding walk_next msg2phys
  walk_next-ok zero p c last [] h b = ground arith
  walk_next-ok (suc d) p c last [] h b = ground arith
  walk_next-ok zero p c last (x ∷ xs) h b = ground (arith, b x)
  walk_next-ok (suc d) p c last (x ∷ xs) (e, ne, out, back, rest) b =
      ground
        (arith, b x, walk_next-ok d x (s.items x).next last xs rest (λ q i. b q (ground arith)))

  walk_prev-ok :
      (d i p c last : ℕ) (xs : List ℕ) {y : ℕ}
      → Chain (links s.items) p c xs last
      → has 0 xs ≡ false
      → ((q : ℕ) → has q xs ≡ true → q ≤ s.size)
      → get_elem? xs (i + d) ≡ some y
      → walk_prev d y s ≡ ok (get_elem? xs i) s
  unfolding walk_prev msg2phys
  walk_prev-ok zero i p c last xs {y} h nn b e =
      let m = get_elem?-has xs (i + 0) e in
      let e' : get_elem? xs i ≡ some y = subst (λ k. get_elem? xs k ≡ some y) (omega arith) e in
      ground (arith, b y m)
  walk_prev-ok (suc d) i p c last xs {y} h nn b e =
      let m = get_elem?-has xs (i + suc d) e in
      let e' : get_elem? xs (suc (i + d)) ≡ some y =
        subst (λ k. get_elem? xs k ≡ some y) (omega arith) e in
      let back = prev_at (links s.items) p c last (i + d) xs h e' in
      ground (arith, b y m, walk_prev-ok d i p c last xs h nn b back)

  -- The last item, entered with the number after its own.
  walk_past :
      (d c last : ℕ) (xs : List ℕ)
      → Chain (links s.items) 0 c xs last
      → ((q : ℕ) → has q xs ≡ true → q ≤ s.size)
      → walk_next (suc d) last s ≡ ok none s
  unfolding walk_next msg2phys
  walk_past d c last [] h b = ground arith
  walk_past zero c last (x ∷ xs) h b =
      let m = Chain-last_mem (links s.items) 0 c last x xs h in
      let e = Chain-end (links s.items) 0 c last last (x ∷ xs) h m refl in ground (arith, b last)
  walk_past (suc d) c last (x ∷ xs) h b =
      let m = Chain-last_mem (links s.items) 0 c last x xs h in
      let e = Chain-end (links s.items) 0 c last last (x ∷ xs) h m refl in ground (arith, b last)

  -- Going to a number below the count finds the item at that place of the sequence, from whichever
  -- end the walk starts, and going to any other number finds nothing; the container is as it was.
  pub goto_item-ok : (n : ℕ) (xs : List ℕ) → Lists s xs → goto_item n s ≡ ok (get_elem? xs n) s
  unfolding goto_item
  goto_item-ok n [] l =
      let c = l.count in
      let f = l.chain.0 in
      let z = l.chain.1 in
      ground (
        arith,
        walk_next-ok n 0 s.first s.last [] l.chain l.inside,
        walk_past n s.first s.last [] l.chain l.inside,
      )
  goto_item-ok n (x ∷ xs) l =
      let c = l.count in
      let lst = last_at (links s.items) 0 s.first s.last x xs l.chain in
      elim (Bool-cases (leb n (s.count / 2))) [
        | inl low ↦ ground (arith, walk_next-ok n 0 s.first s.last (x ∷ xs) l.chain l.inside)
        | inr high ↦ elim (Bool-cases (leb s.count n)) [
          | inl past ↦
              let d : n + 1 - s.count ≡ suc (n - s.count) = ground arith in
              ground (
                arith,
                walk_past (n - s.count) s.first s.last (x ∷ xs) l.chain l.inside,
                get_elem?-past (x ∷ xs) n (ground arith),
              )
          | inr within ↦
              let e : get_elem? (x ∷ xs) (n + (s.count - 1 - n)) ≡ some s.last =
                subst (λ k. get_elem? (x ∷ xs) k ≡ some s.last) (ground arith) lst in
              ground (
                arith,
                walk_prev-ok (s.count - 1 - n) n 0 s.first s.last (x ∷ xs) l.chain
                    (Chain-not-null (links s.items) 0 s.first s.last (x ∷ xs) l.chain) l.inside e,
              )
        ]
      ]
