-- ===== src/BlockData/Chain.antt =====
-- Data that is held in another block (P2PmsgVBLock.cpp, `VBLockData_SetChain2Next` and
-- `VBLockData_GetChain2Next`), and `VBLockData_Init`.
use msgcore.Prelude.{
  ℕ, ◌+◌, ◌%◌, ◌≤◌, ◌<◌, ◌≡◌, ◌⊎◌, inl, inr, refl, ap, subst, ◌∙◌, true, false, ◌&&◌, arith,
  Bool-cases, leb, ltb, ltb→lt, ◌==◌, if◌then◌else◌,
}
use msgcore.Width.{addr16, addr32, addr64}
use msgcore.Bytes.{
  Memory, Outcome, ok, throw, within, get16, get32, get64, put08, put16, put32, put64, bad_chain,
}
use msgcore.Bytes.Laws.{get-put, put-outside}
use msgcore.BlockData.{data_is_chained, bstr08, wstr08, blob08}
use msgcore.BlockData.Blob.{init_blob}
use msgcore.BlockName.Chain.{chain_limit}

-- `VBLockData_Init`
unfoldable pub data_init : ℕ → ℕ → ℕ → ℕ → Memory → Outcome (Unit {0})
data_init p attr t size m =
    let m₁ = put08 p t (put08 (p + 1) attr m) in
    if leb wstr08 t && leb t 29
    then init_blob p attr t size m₁
    else if leb bstr08 t && leb t 21
    then init_blob p attr t size m₁
    else if leb blob08 t && leb t 37
    then init_blob p attr t size m₁
    else ok tt m₁

-- The data is marked before the address is tested, unless that is null.
unfoldable pub data_set_chain2next : ℕ → ℕ → ℕ → Memory → Outcome ℕ
data_set_chain2next u p a m =
    let m₁ = if a == 0 then m else put08 p 0xFF m in
    if u == 1 && a % 0x1_0000 == a
    then ok a (put16 (p + 2) a m₁)
    else if u == 2 && a % 0x1_0000_0000 == a
    then ok a (put32 (p + 2) a m₁)
    else if u == 3 && a % 0x1_0000_0000_0000 == a
    then ok a (put64 (p + 2) a m₁)
    else throw bad_chain m₁

unfoldable pub data_get_chain2next : ℕ → ℕ → Memory → Outcome ℕ
data_get_chain2next u p m =
    if u == 1
    then ok (get16 m (p + 2)) m
    else if u == 2
    then ok (get32 m (p + 2)) m
    else if u == 3
    then ok (get64 m (p + 2)) m
    else throw bad_chain m

-- What a chain to `a` leaves.
pub record Chained (u p a : ℕ) (m m' : Memory) : Type 0 where
  pub marked : data_is_chained m' p ≡ true
  pub reads : data_get_chain2next u p m' ≡ ok a m'
  pub outside : (q : ℕ) → within p 10 q ≡ false → m' q ≡ m q

marked_out : (p q : ℕ) (m : Memory) → within p 10 q ≡ false → put08 p 0xFF m q ≡ m q
marked_out p q m out = ground arith

label : (p : ℕ) (m : Memory) → put08 p 0xFF m p ≡ 0xFF
label p m = ground arith

chain16 : (p a : ℕ) (m : Memory) → a < 0x1_0000 → Chained 1 p a m (put16 (p + 2) a (put08 p 0xFF m))
unfolding data_get_chain2next
chain16 p a m lt =
    let m₁ = put08 p 0xFF m in
    record {
      marked = ap (λ x. x == 0xFF) (put-outside addr16 (p + 2) a p m₁ (ground arith) ∙ label p m);
      reads = ap (λ x. ok x (put16 (p + 2) a m₁)) (get-put addr16 (p + 2) a m₁ lt);
      outside = λ q out. put-outside addr16 (p + 2) a q m₁ (ground arith) ∙ marked_out p q m out;
    }

chain32 :
    (p a : ℕ) (m : Memory) → a < 0x1_0000_0000 → Chained 2 p a m (put32 (p + 2) a (put08 p 0xFF m))
unfolding data_get_chain2next
chain32 p a m lt =
    let m₁ = put08 p 0xFF m in
    record {
      marked = ap (λ x. x == 0xFF) (put-outside addr32 (p + 2) a p m₁ (ground arith) ∙ label p m);
      reads = ap (λ x. ok x (put32 (p + 2) a m₁)) (get-put addr32 (p + 2) a m₁ lt);
      outside = λ q out. put-outside addr32 (p + 2) a q m₁ (ground arith) ∙ marked_out p q m out;
    }

chain64 :
    (p a : ℕ) (m : Memory)
    → a < 0x1_0000_0000_0000
    → Chained 3 p a m (put64 (p + 2) a (put08 p 0xFF m))
unfolding data_get_chain2next
chain64 p a m lt =
    let m₁ = put08 p 0xFF m in
    record {
      marked = ap (λ x. x == 0xFF) (put-outside addr64 (p + 2) a p m₁ (ground arith) ∙ label p m);
      reads = ap (λ x. ok x (put64 (p + 2) a m₁)) (get-put addr64 (p + 2) a m₁ (omega arith));
      outside = λ q out. put-outside addr64 (p + 2) a q m₁ (ground arith) ∙ marked_out p q m out;
    }

here : (a : ℕ) → (a == a) ≡ true
here a = ground arith

fits : (a k : ℕ) → a < k → (a % k == a) ≡ true
fits a k lt = let e : a % k ≡ a = grind arith in rw e (here a)

refused :
    (u a : ℕ)
    → ltb a (chain_limit u) ≡ false
    → ((u == 1 && a % 0x1_0000 == a) ≡ false)
      × ((u == 2 && a % 0x1_0000_0000 == a) ≡ false)
      × ((u == 3 && a % 0x1_0000_0000_0000 == a) ≡ false)
refused u a ge = (ground arith, ground arith, ground arith)

not_ltb : (x y : ℕ) → ltb x y ≡ false → y ≤ x
not_ltb x y e = ground arith

is_mode : (u k : ℕ) → (u == k) ≡ true → k ≡ u
is_mode u k e = ground arith

-- An address that a mode can hold.
reached :
    (u p a : ℕ) (m : Memory)
    → (a == 0) ≡ false
    → a < chain_limit u
    → (m' : Memory) × (data_set_chain2next u p a m ≡ ok a m') × Chained u p a m m'
unfolding data_set_chain2next
reached u p a m z lt = elim (Bool-cases (u == 1)) [
  | inl one ↦
      let small : a < 0x1_0000 = ground arith in
      (
        put16 (p + 2) a (put08 p 0xFF m),
        rw (data_set_chain2next, z, one, fits a 0x1_0000 small) refl,
        subst (λ u. Chained u p a m (put16 (p + 2) a (put08 p 0xFF m))) (is_mode u 1 one)
            (chain16 p a m small),
      )
  | inr wider ↦ elim (Bool-cases (u == 2)) [
    | inl two ↦
        let small : a < 0x1_0000_0000 = ground arith in
        (
          put32 (p + 2) a (put08 p 0xFF m),
          rw (data_set_chain2next, z, wider, two, fits a 0x1_0000_0000 small) refl,
          subst (λ u. Chained u p a m (put32 (p + 2) a (put08 p 0xFF m))) (is_mode u 2 two)
              (chain32 p a m small),
        )
    | inr widest ↦
        let three : (u == 3) ≡ true = ground arith in
        let small : a < 0x1_0000_0000_0000 = ground arith in
        (
          put64 (p + 2) a (put08 p 0xFF m),
          rw (data_set_chain2next, z, wider, widest, three, fits a 0x1_0000_0000_0000 small) refl,
          subst (λ u. Chained u p a m (put64 (p + 2) a (put08 p 0xFF m))) (is_mode u 3 three)
              (chain64 p a m small),
        )
  ]
]

-- For another address than null, data is chained to the addresses that its mode can hold, and to no
-- others: then it says that it is chained, gives the address back, and nothing past its first ten
-- bytes has changed. For any other address the call throws, and yet the data says that it is
-- chained.
pub data_chain2next-ok :
    (u p a : ℕ) (m : Memory)
    → 0 < a
    → ((a < chain_limit u)
        × ((m' : Memory) × (data_set_chain2next u p a m ≡ ok a m') × Chained u p a m m'))
      ⊎ ((chain_limit u ≤ a)
          × ((m' : Memory) × (data_set_chain2next u p a m ≡ throw bad_chain m')
              × (data_is_chained m' p ≡ true)))
unfolding data_set_chain2next
data_chain2next-ok u p a m pos =
    let z : (a == 0) ≡ false = ground arith in
    elim (Bool-cases (ltb a (chain_limit u))) [
      | inl lt ↦ inl (ltb→lt _ _ lt, reached u p a m z (ltb→lt _ _ lt))
      | inr ge ↦
          let (x, y, w) = refused u a ge in
          inr (
            not_ltb _ _ ge,
            (put08 p 0xFF m, rw (data_set_chain2next, z, x, y, w) refl, rw (here p) refl),
          )
    ]
