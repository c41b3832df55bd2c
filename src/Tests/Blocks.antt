-- ===== src/Tests/Blocks.antt =====
-- Concrete blocks, names and data, and the theorems at them.
use msgcore.Prelude.{
  ℕ, ◌+◌, ◌≤◌, ◌<◌, ◌≡◌, ◌≢◌, ◌⊎◌, inl, inr, refl, true, false, [], ◌∷◌, arith, ◌==◌, if◌then◌else◌,
}
use msgcore.Width.{addr08}
use msgcore.Heap.{sizenn}
use msgcore.Bytes.{Memory, ok, throw, Fault, put08, data_undersized, bad_chain}
use msgcore.Wide.{wide_units, load_wide, store_wide}
use msgcore.Wide.Laws.{load_wide-store_wide}
use msgcore.BlockName.{name_init, name_sizeof, name_sizenn}
use msgcore.BlockName.Laid.{Lays, name_init-ok}
use msgcore.BlockData.{
  data_is_chained, is_blob, blob_arm, sizeof_blob, data_sizeof, type_sizeof, data_sizeof_uv,
  data_sizeof_min, sizeof_scalar, type_sizeof_uv,
}
use msgcore.BlockData.Blob.{init_blob, blob_copy, blob_family, blob_max_of, widen_blob}
use msgcore.BlockData.Blob.Init.{Blank, init_blob-ok}
use msgcore.BlockData.Blob.Store.{Stored, blob_copy-init_blob}
use msgcore.BlockData.Blob.Widen.{IsWidened, widen_blob-ok}
use msgcore.BlockData.Chain.{data_set_chain2next, Chained, data_chain2next-ok}
use msgcore.BlockName.Chain.{chain_limit}
use msgcore.BlockData.Copy.{data_copy}
use msgcore.BlockData.Copy.Counted.{Copied, data_copy-counted}
use msgcore.BlockData.Copy.Overrun.{data_copy-overruns}
use msgcore.BlockData.Copy.Scalar.{Moved, data_copy-scalar}
use msgcore.BlockField.{block_pname, block_pdata, owner_chk}
use msgcore.BlockField.Place.{Holds, block_pdata-decides}
use msgcore.BlockField.Same.{ending, block_pdata-same}
use msgcore.BlockField.Outside.{block_pdata-item_data, block_pdata-reads_past}

-- At 100, the text "AB" of type bstr08 with a capacity of 3.
abbrev text : Memory
text q =
    if q == 100
    then 16
    else if q == 102
    then 3
    else if q == 103
    then 2
    else if q == 104
    then 65
    else if q == 105
    then 66
    else 0

-- The same of type bstr08var with a capacity of 10.
abbrev roomy : Memory
roomy q =
    if q == 100
    then 17
    else if q == 102
    then 10
    else if q == 103
    then 2
    else if q == 104
    then 65
    else if q == 105
    then 66
    else 0

-- At 100, a 32-bit time.
abbrev time : Memory
time q = if q == 100 then 11 else if q == 102 then 77 else 0

-- At 256, a 16-bit field block of 18 bytes: a name with a capacity of 2 of which 1 is used.
abbrev field : Memory
field q =
    if q == 256
    then 85
    else if q == 257
    then 18
    else if q == 261
    then 2
    else if q == 262
    then 1
    else if q == 263
    then 65
    else 0

-- The same, with another byte behind the block.
abbrev field_beside : Memory
field_beside q = if q == 274 then 9 else field q

-- At 256, a 64-bit item block of 25 bytes around bare data.
abbrev item : Memory
item q = if q == 256 then 71 else if q == 257 then 25 else if q == 265 then 32 else 0

-- At 256, an 8-bit field block of 4 bytes, and the same with another byte behind it.
abbrev field08 : Memory
field08 q = if q == 256 then 84 else if q == 257 then 4 else 0

abbrev field08_beside : Memory
field08_beside q = if q == 260 then 5 else field08 q

data_copy-counted_example :
    (m' : Memory) × (data_copy 200 8 100 (data_sizeof 1 text 100) text ≡ ok 200 m')
    × Copied 1 16 200 8 100 text m'
unfolding is_blob data_sizeof data_sizeof_uv data_sizeof_min blob_arm sizeof_scalar
data_copy-counted_example =
    data_copy-counted 1 16 200 8 100 text (λ q. ground arith) refl refl
      (λ e. ground arith, λ e. ground arith) (omega arith) (inr (omega arith))

data_copy-overruns_example :
    (m' : Memory) × (data_copy 200 (data_sizeof 1 roomy 100) 100 (data_sizeof 1 roomy 100) roomy
      ≡ ok 200 m')
    × (200 + data_sizeof 1 roomy 100 < 204 + 10)
    × ((q : ℕ) → 200 + data_sizeof 1 roomy 100 ≤ q → q < 204 + 10 → m' q ≡ 0)
unfolding is_blob data_sizeof_min
data_copy-overruns_example =
    data_copy-overruns 1 17 200 100 roomy refl refl refl (omega arith) (omega arith) (omega arith)
      (inr (omega arith))

data_copy-scalar_example :
    (m' : Memory) × (data_copy 200 6 100 6 time ≡ ok 200 m') × Moved 4 0 200 100 time m'
unfolding sizeof_scalar
data_copy-scalar_example =
    data_copy-scalar 200 6 100 6 4 time (λ q. ground arith) refl (omega arith) (inr (omega arith))

blob_copy-init_blob_example :
    (m₁ : Memory) × (m₂ : Memory) × (init_blob 200 0 16 8 text ≡ ok tt m₁)
    × (blob_copy 200 104 2 m₁ ≡ ok 204 m₂)
    × Stored 200 16 2 8 104 text m₂
unfolding is_blob blob_max_of blob_family type_sizeof type_sizeof_uv data_sizeof_min blob_arm
    sizeof_scalar
blob_copy-init_blob_example =
    blob_copy-init_blob 1 200 0 16 2 8 104 text refl (omega arith) (omega arith) (omega arith)
      (inr (inl (omega arith)))

init_blob-ok_example :
    ((8 < sizeof_blob addr08)
      × (init_blob 200 0 16 8 text ≡ throw data_undersized (put08 200 16 (put08 201 0 text))))
    ⊎ ((sizeof_blob addr08 ≤ 8)
        × (8 < 2 + sizeof_blob addr08)
        × ((m' : Memory) × (init_blob 200 0 16 8 text ≡ ok tt m')
            × Blank addr08 200 0 16 0xFF text m'))
    ⊎ ((2 + sizeof_blob addr08 ≤ 8)
        × ((m' : Memory) × (init_blob 200 0 16 8 text ≡ ok tt m')
            × Blank addr08 200 0 16 2 text m'))
unfolding blob_arm
init_blob-ok_example = init_blob-ok addr08 200 0 16 8 text (λ e. ground arith) refl (omega arith)

widen_blob-ok_example :
    ((is_blob 16 ≡ true) × IsWidened 16 300 (widen_blob 16 300))
    ⊎ ((is_blob 16 ≡ false) × (widen_blob 16 300 ≡ 16))
widen_blob-ok_example = widen_blob-ok 16 300

name_init-ok_example :
    (m' : Memory) × (name_init 1 200 0 (65 ∷ 66 ∷ []) (name_sizeof 1 3) text ≡ ok tt m')
    × Lays 1 200 0 3 (65 ∷ 66 ∷ []) text m'
unfolding wide_units
name_init-ok_example =
    name_init-ok 1 200 0 3 (65 ∷ 66 ∷ []) text (omega arith) (omega arith) (omega arith)
      (omega arith) (omega arith) (omega arith) (omega arith)

load_wide-store_wide_example : load_wide (store_wide (65 ∷ 0x1_F600 ∷ [])) ≡ 65 ∷ 0x1_F600 ∷ []
load_wide-store_wide_example =
    load_wide-store_wide (65 ∷ 0x1_F600 ∷ []) (omega arith, refl, (omega arith, refl, tt))

block_pdata-decides_example :
    (Holds field 256 260 × (block_pdata 256 field ≡ ok (260 + name_sizenn field 260) field))
    ⊎ ((¬ Holds field 256 260) × ((f : Fault) × (block_pdata 256 field ≡ throw f field)))
unfolding block_pname sizenn
block_pdata-decides_example =
    block_pdata-decides field 256 260 (omega arith) (omega arith) (omega arith) refl

block_pdata-same_example : ending (block_pdata 256 field_beside) ≡ ending (block_pdata 256 field)
unfolding sizenn
block_pdata-same_example =
    block_pdata-same field field_beside 256 (omega arith) (omega arith) (omega arith) (omega arith)
      (λ q i. ground arith)

block_pdata-item_data_example :
    (d : ℕ) × (block_pdata 256 item ≡ ok d item) × (owner_chk item 256 d 2 ≡ false)
unfolding sizenn
block_pdata-item_data_example =
    block_pdata-item_data item 256 (omega arith) (omega arith) refl refl (omega arith)

block_pdata-reads_past_example :
    ending (block_pdata 256 field08_beside) ≢ ending (block_pdata 256 field08)
unfolding sizenn
block_pdata-reads_past_example =
    block_pdata-reads_past field08 field08_beside 256 (omega arith) (omega arith) refl refl refl
      (λ q i. ground arith) refl (omega arith)

data_chain2next-ok_example :
    ((0x1_0000 < chain_limit 1)
      × ((m' : Memory) × (data_set_chain2next 1 100 0x1_0000 text ≡ ok 0x1_0000 m')
          × Chained 1 100 0x1_0000 text m'))
    ⊎ ((chain_limit 1 ≤ 0x1_0000)
        × ((m' : Memory) × (data_set_chain2next 1 100 0x1_0000 text ≡ throw bad_chain m')
            × (data_is_chained m' 100 ≡ true)))
data_chain2next-ok_example = data_chain2next-ok 1 100 0x1_0000 text (omega arith)
