-- ===== src/Tests/Items.antt =====
-- A concrete container, and the theorems about items at it.
use msgcore.Prelude.{
  ℕ, ◌≡◌, inl, inr, refl, true, false, some, List, [], ◌∷◌, arith, ◌==◌, if◌then◌else◌,
}
use msgcore.Width.{addr16}
use msgcore.Items.{Item, Store, Ends, and_then, ok}
use msgcore.Items.Link.{list_linkin, attr_linkin}
use msgcore.Items.Unlink.{list_unlink, attr_unlink, desc_unlink}
use msgcore.Items.Listed.{Lists}
use msgcore.Items.Listed.Linked.{Fresh, Inserted, list_linkin-inserts, attr_linkin-inserts}
use msgcore.Items.Listed.Relinked.{list_linkin-unlink}
use msgcore.Items.Listed.Unlinked.{Taken, unlink-removes}
use msgcore.Items.Goto.{goto_item}
use msgcore.Items.Goto.Index.{goto_item-ok}
use msgcore.Items.Sequence.{perform_all, push_front, push_back, pop_front, pop_back, erase}
use msgcore.Items.Sequence.Refines.{Holds, perform_all-refines}
use msgcore.Items.Sort.Place.{IsSorted, Compares}
use msgcore.Items.Sort.{Name, name_lt, attr_sortin}
use msgcore.Items.Sort.Theorem.{SortedIn, attr_sortin-ok}
use msgcore.Items.Sort.Defect.{Cut, attr_sortin-cuts_equal, attr_sortin-cuts_vector}
use msgcore.Tests.Names.{code_neg, code_neg-Collation}

abbrev item : ℕ → ℕ → Item
item p n = record { linked = true; parent = 40; prev = p; next = n }

-- Three items, at 100, 200 and 300, in an image of 1000 bytes.
abbrev three : Store
three = record {
  addr = addr16;
  first = 100;
  last = 300;
  count = 3;
  size = 1000;
  items = λ q.
      if q == 100
      then item 0 200
      else if q == 200
      then item 100 300
      else if q == 300
      then item 200 0
      else item 0 0;
}

abbrev three_items : List ℕ
three_items = 100 ∷ 200 ∷ 300 ∷ []

three-Lists : Lists three three_items
three-Lists = record {
  chain = ground arith;
  count = refl;
  inside = λ q i. ground arith;
  narrow = λ q i. ground arith;
  linked = λ q i. ground arith;
}

new-Fresh : Fresh three three_items 400
new-Fresh = record {
  pos = λ e. omega arith;
  inside = omega arith;
  narrow = omega arith;
  out = refl;
  room = omega arith;
}

-- "aa", "bb", "c" and, at 400, "ab".
abbrev names : ℕ → Name
names q =
    if q == 100
    then b'a' ∷ b'a' ∷ []
    else if q == 200
    then b'b' ∷ b'b' ∷ []
    else if q == 300
    then b'c' ∷ []
    else b'a' ∷ b'b' ∷ []

list_linkin-inserts_example :
    Ends (list_linkin 100 400 200 three) (λ _ t. Inserted three three_items 200 400 40 t)
list_linkin-inserts_example =
    list_linkin-inserts three three_items three-Lists 400 new-Fresh 100 200 (inr (refl, refl))

attr_linkin-inserts_example :
    Ends (attr_linkin 40 300 400 0 three) (λ _ t. Inserted three three_items 0 400 40 t)
attr_linkin-inserts_example =
    attr_linkin-inserts three three_items three-Lists 400 new-Fresh 300 0 (inl (refl, refl)) 40
      (omega arith)

unlink-removes_example :
    let T = Taken three three_items three-Lists (omega arith) 200 refl in
    T (list_unlink 200) × T (attr_unlink 200) × T (desc_unlink 200)
unlink-removes_example = unlink-removes three three_items three-Lists (omega arith) 200 refl

list_linkin-unlink_example :
    Ends
      (and_then (list_linkin 100 400 200 three) (λ _. list_unlink 400))
      (λ r t. (r ≡ 400) × Lists t three_items)
list_linkin-unlink_example =
    list_linkin-unlink three three_items three-Lists 400 new-Fresh 100 200 (inr (refl, refl))
      (omega arith)

goto_item-ok_example : goto_item 2 three ≡ ok (some 300) three
goto_item-ok_example = goto_item-ok three 2 three_items three-Lists

abbrev three-Holds : Holds addr16 1000 three_items three
three-Holds = record { lists = three-Lists; addr = refl; bytes = refl }

perform_all-refines_example :
    Ends
      (perform_all (push_back 400 ∷ pop_front ∷ push_front 100 ∷ erase 300 ∷ pop_back ∷ []) three)
      (λ _ t. Holds addr16 1000 (100 ∷ 200 ∷ []) t)
perform_all-refines_example =
    perform_all-refines addr16 1000
      (push_back 400 ∷ pop_front ∷ push_front 100 ∷ erase 300 ∷ pop_back ∷ []) three_items three
      three-Holds (ground arith)

three-IsSorted : IsSorted code_neg code_neg-Collation names three_items
unfolding code_neg name_lt
three-IsSorted = ((λ q i. ground arith), ((λ q i. ground arith), ((λ q i. cc), tt)))

three-Compares : Compares code_neg code_neg-Collation names (names 400) three_items
unfolding code_neg name_lt
three-Compares q i = ground arith

attr_sortin-ok_example :
    Ends
      (attr_sortin code_neg names (λ _. false) 40 (names 400) 400 three)
      (λ _ t. SortedIn code_neg code_neg-Collation names three three_items (names 400) 400 40 t)
attr_sortin-ok_example =
    attr_sortin-ok code_neg code_neg-Collation names (λ _. false) three three_items three-Lists
      three-IsSorted (names 400) three-Compares (λ q i. refl) (omega arith) 40 400 (omega arith)
      new-Fresh refl

-- "aab", which begins with "aa".
attr_sortin-cuts_equal_example :
    Ends
      (attr_sortin code_neg names (λ _. false) 40 (b'a' ∷ b'a' ∷ b'b' ∷ []) 400 three)
      (λ _ t. Cut three t 400)
unfolding code_neg name_lt
attr_sortin-cuts_equal_example =
    attr_sortin-cuts_equal code_neg names (λ _. false) three 40 400 (omega arith)
      (b'a' ∷ b'a' ∷ b'b' ∷ []) 100 200 300 three-Lists refl refl refl refl new-Fresh

attr_sortin-cuts_vector_example :
    Ends
      (attr_sortin code_neg names (λ q. q == 100) 40 (b'A' ∷ []) 400 three)
      (λ _ t. Cut three t 400)
unfolding code_neg name_lt
attr_sortin-cuts_vector_example =
    attr_sortin-cuts_vector code_neg names (λ q. q == 100) three 40 400 (omega arith) (b'A' ∷ [])
      100 (200 ∷ 300 ∷ []) three-Lists new-Fresh (omega arith) refl refl
