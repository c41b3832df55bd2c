-- ===== src/Items/Link/Splice.antt =====
-- What linking an item between two others comes to, whichever of the three routines does it.
use msgcore.Prelude.{
  update, subst, sym, ap, ℕ, ◌+◌, ◌%◌, ◌≤◌, ◌<◌, ◌≡◌, ◌≢◌, refl, true, arith, ◌==◌, if◌then◌else◌,
  Bool-cases, inl, inr,
}
use msgcore.Width.{AddrType, addr08, addr16, addr32, addr64, addr_limit}
use msgcore.Items.{Ends-bind, and_then, ◌>>◌, Store, Ends, ok, count_limit, msg2phys, not_null}
use msgcore.Items.Link.{
  list_linkin, attr_linkin, desc_linkin, narrow, name_ends, cast, attr_prev, attr_next, attr_ends,
}

-- The offsets name places in the image that the width can hold.
pub record Fits (s : Store) (a : ℕ) : Type 0 where
  pub inside : a ≤ s.size
  pub narrow : a < addr_limit s.addr

-- `t` is `s` with `a` between `prev` and `next`.
pub record Spliced (s t : Store) (parent prev a next : ℕ) : Type 0 where
  pub addr : t.addr ≡ s.addr
  pub size : t.size ≡ s.size
  pub first : t.first ≡ (if prev == 0 then a else s.first)
  pub last : t.last ≡ (if next == 0 then a else s.last)
  pub count : t.count ≡ (s.count + 1) % count_limit s.addr
  pub item : t.items a ≡ record { linked = true; parent = parent; prev = prev; next = next }
  pub other :
      (q : ℕ)
      → q ≢ 0
      → q ≢ a
      → t.items q ≡ record (s.items q) {
        prev = if q == next then a else (s.items q).prev;
        next = if q == prev then a else (s.items q).next;
      }

pub cast_fits : (w : AddrType) (a : ℕ) → a < addr_limit w → cast w a ≡ a
cast_fits addr08 a h = omega arith
cast_fits addr16 a h = omega arith
cast_fits addr32 a h = omega arith
cast_fits addr64 a h = omega arith

module _ (s : Store) (prev a next : ℕ) (pos : a ≢ 0) (fa : Fits s a) (fp : Fits s prev)
    (fn : Fits s next) (pa : prev ≢ a) (an : next ≢ a) where
  -- `P2PmsgList_LinkinItem` keeps the parent that the item had.
  pub list_linkin-Spliced :
      Ends (list_linkin prev a next s) (λ _ t. Spliced s t (s.items a).parent prev a next)
  unfolding list_linkin msg2phys not_null name_ends
  list_linkin-Spliced =
      let ca = cast_fits s.addr a fa.narrow in
      let cp = cast_fits s.addr prev fp.narrow in
      let cn = cast_fits s.addr next fn.narrow in
      let ia = fa.inside in
      let ip = fp.inside in
      let in' = fn.inside in
      elim (Bool-cases (prev == 0)) [
        | inl p ↦ elim (Bool-cases (next == 0)) [ inl n ↦ ground arith | inr n ↦ ground arith ]
        | inr p ↦ elim (Bool-cases (next == 0)) [ inl n ↦ ground arith | inr n ↦ ground arith ]
      ]

  -- `t` is `u` but for the item's link to the previous one, and that one's to the item.
  record Preceded (u t : Store) : Type 0 where
    addr : t.addr ≡ u.addr
    size : t.size ≡ u.size
    first : t.first ≡ u.first
    last : t.last ≡ u.last
    count : t.count ≡ u.count
    item : t.items a ≡ record {
      linked = true;
      parent = (u.items a).parent;
      prev = prev;
      next = (u.items a).next;
    }
    other :
        (q : ℕ)
        → q ≢ 0
        → q ≢ a
        → t.items q ≡ record (u.items q) { next = if q == prev then a else (u.items q).next }

  attr_prev-Preceded :
      (t : Store) → t.addr ≡ s.addr → Ends (attr_prev prev a t) (λ _ u. Preceded t u)
  unfolding attr_prev narrow
  attr_prev-Preceded t w =
      let la : a < addr_limit t.addr = subst (λ v. a < addr_limit v) (sym w) fa.narrow in
      let lp : prev < addr_limit t.addr = subst (λ v. prev < addr_limit v) (sym w) fp.narrow in
      elim (Bool-cases (prev == 0)) [ inl p ↦ ground arith | inr p ↦ ground arith ]

  -- The rest, once the item and the previous one are linked.
  attr_rest-Spliced :
      (p : ℕ) (t : Store)
      → Preceded (record s { items = update s.items a (record (s.items a) { parent = p }) }) t
      → Ends ((attr_next a next >> attr_ends a) t) (λ _ t. Spliced s t p prev a next)
  unfolding attr_next attr_ends narrow
  attr_rest-Spliced p t pr =
      let la : a < addr_limit t.addr = subst (λ v. a < addr_limit v) (sym pr.addr) fa.narrow in
      let ln : next < addr_limit t.addr =
        subst (λ v. next < addr_limit v) (sym pr.addr) fn.narrow in
      let cl : count_limit t.addr ≡ count_limit s.addr = ap count_limit pr.addr in
      let w = pr.addr in
      let z = pr.size in
      let f = pr.first in
      let l = pr.last in
      let c = pr.count in
      let i = pr.item in
      let o = pr.other in
      let run : (attr_next a next >> attr_ends a) t
          ≡ ok tt (record t {
            first = if prev == 0 then a else t.first;
            last = if next == 0 then a else t.last;
            count = (t.count + 1) % count_limit t.addr;
            items =
                let g = update t.items a (record (t.items a) { next = next }) in
                if next == 0 then g else update g next (record (g next) { prev = a });
          }) =
        elim (Bool-cases (next == 0)) [ inl n ↦ ground arith | inr n ↦ ground arith ] in
      rw run (record {
        addr = ground arith;
        size = ground arith;
        first = ground arith;
        last = ground arith;
        count = ground arith;
        item = ground arith;
        other = λ q nz na. ground (arith, o q nz na);
      })

  pub attr_linkin-Spliced :
      (p : ℕ)
      → p < addr_limit s.addr
      → Ends (attr_linkin p prev a next s) (λ _ t. Spliced s t p prev a next)
  unfolding attr_linkin msg2phys not_null narrow
  attr_linkin-Spliced p h =
      let ia = fa.inside in
      let ip = fp.inside in
      let in' = fn.inside in
      let s₁ : Store = record s { items = update s.items a (record (s.items a) { parent = p }) } in
      let start : attr_linkin p prev a next s
          ≡ and_then (attr_prev prev a s₁) (λ _. attr_next a next >> attr_ends a) =
        ground arith in
      rw start (
        Ends-bind (attr_prev prev a s₁) (λ _. attr_next a next >> attr_ends a)
          (λ _ t. Preceded s₁ t) (λ _ t. Spliced s t p prev a next) (attr_prev-Preceded s₁ refl)
          (λ _ t at. attr_rest-Spliced p t at))

  pub desc_linkin-Spliced :
      (p : ℕ)
      → p < addr_limit s.addr
      → Ends (desc_linkin p prev a next s) (λ _ t. Spliced s t p prev a next)
  unfolding desc_linkin msg2phys not_null name_ends
  desc_linkin-Spliced p h =
      let pc = cast_fits s.addr p h in
      let ca = cast_fits s.addr a fa.narrow in
      let cp = cast_fits s.addr prev fp.narrow in
      let cn = cast_fits s.addr next fn.narrow in
      let ia = fa.inside in
      let ip = fp.inside in
      let in' = fn.inside in
      elim (Bool-cases (prev == 0)) [
        | inl p ↦ elim (Bool-cases (next == 0)) [ inl n ↦ ground arith | inr n ↦ ground arith ]
        | inr p ↦ elim (Bool-cases (next == 0)) [ inl n ↦ ground arith | inr n ↦ ground arith ]
      ]
