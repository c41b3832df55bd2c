-- ===== src/Wide.antt =====
-- Wide strings and their stored form (Platform/p2pstr.h): `p2p_wide_units`, `p2p_store_wide` and
-- `p2p_load_wide`, where `wchar_t` has 32 bits. Under Windows all three take the units as they are.
pub mod Laws
use msgcore.Prelude.{ℕ, ◌+◌, ◌-◌, ◌*◌, ◌/◌, ◌%◌, Bool, ◌&&◌, List, [], ◌∷◌, ltb, leb, if◌then◌else◌}

-- How many 16-bit units the characters need.
unfoldable pub wide_units : List ℕ → ℕ
wide_units [] = 0
wide_units (c ∷ s) = (if ltb 0xFFFF c then 2 else 1) + wide_units s

abbrev pub high_of : ℕ → ℕ
high_of c = 0xD800 + (c - 0x1_0000) / 0x400

abbrev pub low_of : ℕ → ℕ
low_of c = 0xDC00 + (c - 0x1_0000) % 0x400

-- The units that are written: a surrogate pair for a character past 16 bits, and U+FFFD for what is
-- past the last character.
unfoldable pub store_wide : List ℕ → List ℕ
store_wide [] = []
store_wide (c ∷ s) =
    let rest = store_wide s in
    if ltb 0xFFFF c && leb c 0x10_FFFF
    then high_of c ∷ low_of c ∷ rest
    else (if ltb 0x10_FFFF c then 0xFFFD else c) ∷ rest

abbrev pub is_high : ℕ → Bool
is_high u = leb 0xD800 u && leb u 0xDBFF

abbrev pub is_low : ℕ → Bool
is_low u = leb 0xDC00 u && leb u 0xDFFF

abbrev pub joined : ℕ → ℕ → ℕ
joined u l = 0x1_0000 + ((u - 0xD800) * 0x400 + (l - 0xDC00))

-- The characters of a store, pairs joined.
unfoldable pub load_wide : List ℕ → List ℕ
load_wide [] = []
load_wide (u ∷ []) = u ∷ []
load_wide (u ∷ l ∷ s) =
    let rest = load_wide s in
    let alone = load_wide (l ∷ s) in if is_high u && is_low l then joined u l ∷ rest else u ∷ alone
