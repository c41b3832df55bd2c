-- ===== src/Items/Sort/Defect.antt =====
-- Where sorting an item in loses the items there are: a name that the comparison does not tell from
-- the first one, and a first item that is a vector.
use msgcore.Prelude.{
  ℕ, ◌+◌, ◌-◌, ◌%◌, subst, ◌<◌, ◌≡◌, refl, Bool, true, false, none, List, [], ◌∷◌, length, arith,
  ap, sym,
}
use msgcore.Width.{addr_limit}
use msgcore.Items.{Store, Ends, Ends-map, ok, count_limit}
use msgcore.Items.Link.{attr_linkin}
use msgcore.Items.Link.Splice.{Fits, Spliced, attr_linkin-Spliced}
use msgcore.Items.Listed.{Lists}
use msgcore.Items.Listed.Linked.{Fresh, link-lt-addr}
use msgcore.Items.Sequence.{has_items}
use msgcore.Items.Goto.Index.{goto_item-ok}
use msgcore.Items.Sort.Search.{name_gt-not}
use msgcore.Items.Sort.{
  Name, name_lt, name_gt, attr_sortin, sortin, sort_within, search, sort_place, goto_if,
}

-- The container's keys name the new item alone, which has no neighbours, whatever the count says.
pub record Cut (s t : Store) (a : ℕ) : Type 0 where
  pub first : t.first ≡ a
  pub last : t.last ≡ a
  pub prev : (t.items a).prev ≡ 0
  pub next : (t.items a).next ≡ 0
  pub count : t.count ≡ (s.count + 1) % count_limit s.addr

module _ (neg : Name → Name → ℕ → Bool) (name_of : ℕ → Name) (vect : ℕ → Bool) (s : Store) (p a : ℕ)
    (np : p < addr_limit s.addr) (n : Name) where
  -- Linking with no neighbours at all.
  alone : (xs : List ℕ) → Fresh s xs a → Ends (attr_linkin p 0 a 0 s) (λ _ t. Cut s t a)
  alone xs fr =
      let la = link-lt-addr s.addr a fr.narrow in
      let z : Fits s 0 = record { inside = ground arith; narrow = ground arith } in
      Ends-map (attr_linkin p 0 a 0 s) (λ _ t. Spliced s t p 0 a 0) (λ _ t. Cut s t a)
        (attr_linkin-Spliced s 0 a 0 fr.pos (record { inside = fr.inside; narrow = la }) z z
          (λ e. fr.pos (sym e)) (λ e. fr.pos (sym e)) p np)
        (λ _ t sp. record {
          first = sp.first;
          last = sp.last;
          prev = ap (λ i. i.prev) sp.item;
          next = ap (λ i. i.next) sp.item;
          count = sp.count;
        })

  module _ (x y z : ℕ) (l : Lists s (x ∷ y ∷ z ∷ [])) (nx : name_lt neg n (name_of x) ≡ false)
      (xn : name_lt neg (name_of x) n ≡ false) (yn : name_lt neg (name_of y) n ≡ false)
      (nz : name_lt neg n (name_of z) ≡ true) where
    not_first : goto_if neg name_of vect 0 (λ m. name_lt neg n m) s ≡ ok none s
    unfolding goto_if
    not_first = rw (goto_item-ok s 0 (x ∷ y ∷ z ∷ []) l, nx) refl

    not_after : goto_if neg name_of vect 0 (λ m. name_lt neg m n) s ≡ ok none s
    unfolding goto_if
    not_after = rw (goto_item-ok s 0 (x ∷ y ∷ z ∷ []) l, xn) refl

    not_last : goto_if neg name_of vect 2 (λ m. name_gt neg n m) s ≡ ok none s
    unfolding goto_if
    not_last = rw (goto_item-ok s 2 (x ∷ y ∷ z ∷ []) l, name_gt-not neg n (name_of z), nz) refl

    to_first : search neg name_of vect 3 n 0 2 s ≡ ok (0, 0) s
    unfolding search
    to_first = rw (goto_item-ok s 1 (x ∷ y ∷ z ∷ []) l, yn, name_gt-not neg (name_of y) n, yn) refl

    no_place : sort_place neg name_of vect n 0 0 s ≡ ok (0, 0) s
    unfolding sort_place
    no_place = rw (not_first, not_first, not_after) refl

    -- Sorting an attribute into three others, where its name comes before the third and not after
    -- the second, but the comparison does not tell it from the first one, one name being the
    -- beginning of the other or the same, cuts the three off.
    pub attr_sortin-cuts_equal :
        Fresh s (x ∷ y ∷ z ∷ []) a → Ends (attr_sortin neg name_of vect p n a s) (λ _ t. Cut s t a)
    unfolding attr_sortin sortin sort_within
    attr_sortin-cuts_equal fr =
        let c = sym l.count in
        let h : has_items s ≡ true = ground arith in
        let gl =
          subst (λ k. goto_if neg name_of vect (k - 1) (λ m. name_gt neg n m) s ≡ ok none s) c
            not_last in
        let se = subst (λ k. search neg name_of vect k n 0 (k - 1) s ≡ ok (0, 0) s) c to_first in
        let run : attr_sortin neg name_of vect p n a s ≡ attr_linkin p 0 a 0 s =
          rw (h, not_first, gl, se, no_place) refl in
        rw run (alone (x ∷ y ∷ z ∷ []) fr)

  -- Sorting an attribute in front of a first item that is a vector cuts off all that there is.
  pub attr_sortin-cuts_vector :
      (x : ℕ) (xs : List ℕ)
      → Lists s (x ∷ xs)
      → Fresh s (x ∷ xs) a
      → length xs < 0x7fff_ffff
      → vect x ≡ true
      → name_lt neg n (name_of x) ≡ true
      → Ends (attr_sortin neg name_of vect p n a s) (λ _ t. Cut s t a)
  unfolding attr_sortin sortin goto_if
  attr_sortin-cuts_vector x xs l fr few v nx =
      let c = l.count in
      let h : has_items s ≡ true = ground arith in
      let g₀ = goto_item-ok s 0 (x ∷ xs) l in
      let run : attr_sortin neg name_of vect p n a s ≡ attr_linkin p 0 a 0 s =
        rw (h, g₀, nx, v) refl in
      rw run (alone (x ∷ xs) fr)
