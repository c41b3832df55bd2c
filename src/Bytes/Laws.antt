-- ===== src/Bytes/Laws.antt =====
-- What a store leaves in memory.
use msgcore.Prelude.{ℕ, ◌+◌, ◌/◌, ◌%◌, ◌<◌, ◌≡◌, refl, true, false, arith}
use msgcore.Width.{AddrType, addr08, addr16, addr32, addr64, addr_bytes, addr_limit}
use msgcore.Bytes.{Memory, within, get, put, get32, put32}

get32-put32 : (p v : ℕ) (m : Memory) → get32 (put32 p v m) p ≡ v % 0x1_0000_0000
get32-put32 p v m = ground arith

get32-put32_above : (p v : ℕ) (m : Memory) → get32 (put32 (p + 4) v m) p ≡ get32 m p
get32-put32_above p v m = ground arith

-- A field that was stored reads back, if it fits its width.
pub get-put : (w : AddrType) (p v : ℕ) (m : Memory) → v < addr_limit w → get w (put w p v m) p ≡ v
get-put addr08 p v m lt = ground arith
get-put addr16 p v m lt = ground arith
get-put addr32 p v m lt = ground arith
get-put addr64 p v m lt =
    rw
      (
        get32-put32_above p (v / 0x1_0000_0000) (put32 p v m),
        get32-put32 p v m,
        get32-put32 (p + 4) (v / 0x1_0000_0000) (put32 p v m),
      )
      (omega arith)

-- A store changes the bytes of its field alone.
pub put-outside :
    (w : AddrType) (p v q : ℕ) (m : Memory)
    → within p (addr_bytes w) q ≡ false
    → put w p v m q ≡ m q
put-outside addr08 p v q m out = ground arith
put-outside addr16 p v q m out = ground arith
put-outside addr32 p v q m out = ground arith
put-outside addr64 p v q m out = ground arith

get32-same :
    (p : ℕ) (m n : Memory) → ((q : ℕ) → within p 4 q ≡ true → n q ≡ m q) → get32 n p ≡ get32 m p
get32-same p m n same =
    rw
      (
        same p (ground arith),
        same (p + 1) (ground arith),
        same (p + 2) (ground arith),
        same (p + 2 + 1) (ground arith),
      )
      refl

-- A field whose bytes are as they were reads as it did.
pub get-same :
    (w : AddrType) (p : ℕ) (m n : Memory)
    → ((q : ℕ) → within p (addr_bytes w) q ≡ true → n q ≡ m q)
    → get w n p ≡ get w m p
get-same addr08 p m n same = same p (ground arith)
get-same addr16 p m n same = rw (same p (ground arith), same (p + 1) (ground arith)) refl
get-same addr32 p m n same = get32-same p m n same
get-same addr64 p m n same =
    let a = get32-same p m n (λ q i. same q (ground arith)) in
    let b = get32-same (p + 4) m n (λ q i. same q (ground arith)) in rw (a, b) refl

-- Every address holds a byte.
abbrev pub IsBytes : Memory → Type 0
IsBytes m = (q : ℕ) → m q < 0x100

pub get-lt : (w : AddrType) (p : ℕ) (m : Memory) → IsBytes m → get w m p < addr_limit w
get-lt addr08 p m b = b p
get-lt addr16 p m b = omega (arith, b p, b (p + 1))
get-lt addr32 p m b = omega (arith, b p, b (p + 1), b (p + 2), b (p + 2 + 1))
get-lt addr64 p m b = omega (
  arith,
  b p,
  b (p + 1),
  b (p + 2),
  b (p + 2 + 1),
  b (p + 4),
  b (p + 4 + 1),
  b (p + 4 + 2),
  b (p + 4 + 2 + 1),
)
