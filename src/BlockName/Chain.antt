-- ===== src/BlockName/Chain.antt =====
-- Names that are held elsewhere.
use msgcore.Prelude.{
  ℕ, ◌+◌, ◌≤◌, ◌<◌, ◌%◌, ◌≡◌, ◌∙◌, ◌||◌, inl, inr, refl, true, false, arith, ◌⊎◌, Bool-cases, ltb,
  ltb→lt, ◌==◌, if◌then◌else◌,
}
use msgcore.Width.{addr16, addr32, addr64}
use msgcore.Bytes.{Memory, ok, throw, within, get08, put08, put16, put32, put64, bad_chain}
use msgcore.Bytes.Laws.{get-put, put-outside}
use msgcore.BlockName.{name_set_chain2next, name_get_chain2next, name_is_chained, name_sizenn}

-- The addresses that a mode can name a block by; the widest takes 48 bits.
abbrev pub chain_limit : ℕ → ℕ
chain_limit u =
    if u == 1
    then 0x1_0000
    else if u == 2
    then 0x1_0000_0000
    else if u == 3
    then 0x1_0000_0000_0000
    else 0

-- What chaining a name at `p` to `a` ends in.
abbrev pub Chains : ℕ → ℕ → ℕ → Memory → Type 0
Chains u p a m =
    (a < chain_limit u
      → (m' : Memory) × (name_set_chain2next u p a m ≡ ok a m')
        × (name_is_chained m' p ≡ true)
        × (name_get_chain2next u p m' ≡ ok a m')
        × (name_sizenn m' p ≡ name_sizenn m p)
        × ((q : ℕ) → within p 10 q ≡ false → m' q ≡ m q))
    × (chain_limit u < a + 1 → name_set_chain2next u p a m ≡ throw bad_chain m)

chain-get :
    (u p a : ℕ) (m : Memory)
    → a < chain_limit u
    → (m' : Memory) × (name_set_chain2next u p a m ≡ ok a m')
      × (get08 m' p ≡ 0x7F)
      × (name_get_chain2next u p m' ≡ ok a m')
      × ((q : ℕ) → (q == p || within (p + 2) 8 q) ≡ false → m' q ≡ m q)
unfolding name_set_chain2next name_get_chain2next
chain-get u p a m lt =
    let m₁ = put08 p 0x7F m in
    elim (Bool-cases (u == 1)) [
      | inl one ↦
          let fit : (a % 0x1_0000 == a) ≡ true = ground arith in
          let e : u ≡ 1 = ground arith in
          let r = get-put addr16 (p + 2) a m₁ (ground arith) in
          let flag : get08 (put16 (p + 2) a m₁) p ≡ 0x7F = ground arith in
          (
            put16 (p + 2) a m₁,
            rw (one, fit) refl,
            flag,
            rw (flag, one, r) refl,
            λ q out. ground arith,
          )
      | inr wider ↦ elim (Bool-cases (u == 2)) [
        | inl two ↦
            let fit : (a % 0x1_0000_0000 == a) ≡ true = ground arith in
            let r = get-put addr32 (p + 2) a m₁ (ground arith) in
            let flag : get08 (put32 (p + 2) a m₁) p ≡ 0x7F = ground arith in
            (
              put32 (p + 2) a m₁,
              rw (wider, two, fit) refl,
              flag,
              rw (flag, wider, two, r) refl,
              λ q out. ground arith,
            )
        | inr widest ↦
            let three : (u == 3) ≡ true = ground arith in
            let fit : (a % 0x1_0000_0000_0000 == a) ≡ true = ground arith in
            let r = get-put addr64 (p + 2) a m₁ (ground arith) in
            let o = put-outside addr64 (p + 2) a p m₁ (ground arith) in
            let flag : get08 (put64 (p + 2) a m₁) p ≡ 0x7F = o ∙ ground arith in
            (
              put64 (p + 2) a m₁,
              rw (wider, widest, three, fit) refl,
              flag,
              rw (flag, wider, widest, three, r) refl,
              λ q out. put-outside addr64 (p + 2) a q m₁ (ground arith) ∙ ground arith,
            )
      ]
    ]

not_ltb : (x y : ℕ) → ltb x y ≡ false → y ≤ x
not_ltb x y e = ground arith

pub chain2next-branches : (u p a : ℕ) (m : Memory) → Chains u p a m
unfolding name_set_chain2next name_sizenn
chain2next-branches u p a m = (
  λ lt.
      let (m', run, flag, back, same) = chain-get u p a m lt in
      let size = same (p + 1) (ground arith) in
      (m', run, ground arith, back, ground arith, λ q out. same q (ground arith)),
  λ ge. ground arith,
)

-- A name is chained to the addresses that its mode can hold, and to no others: then the name says
-- that it is chained, gives the address back, takes the bytes that it took before, and nothing past
-- its ten header bytes has changed. For any other address the call throws, and memory is as it was.
pub name_chain2next-ok :
    (u p a : ℕ) (m : Memory)
    → ((a < chain_limit u)
        × ((m' : Memory) × (name_set_chain2next u p a m ≡ ok a m')
            × (name_is_chained m' p ≡ true)
            × (name_get_chain2next u p m' ≡ ok a m')
            × (name_sizenn m' p ≡ name_sizenn m p)
            × ((q : ℕ) → within p 10 q ≡ false → m' q ≡ m q)))
      ⊎ ((chain_limit u ≤ a) × (name_set_chain2next u p a m ≡ throw bad_chain m))
name_chain2next-ok u p a m =
    let (fits, not_fits) = chain2next-branches u p a m in
    elim (Bool-cases (ltb a (chain_limit u))) [
      | inl lt ↦ inl (ltb→lt _ _ lt, fits (ltb→lt _ _ lt))
      | inr ge ↦ inr (not_ltb _ _ ge, not_fits (omega (arith, not_ltb _ _ ge)))
    ]
