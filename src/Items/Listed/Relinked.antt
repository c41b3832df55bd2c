-- ===== src/Items/Listed/Relinked.antt =====
-- Unlinking undoes linking.
use msgcore.Prelude.{ℕ, ◌+◌, ◌≤◌, ◌≡◌, List, arith, subst, sym}
use msgcore.Heap.Chain.Insert.{insert, has-insert, remove-insert, Before, length-insert}
use msgcore.Items.{Store, Ends, Ends-bind, Ends-map, and_then, items_limit}
use msgcore.Items.Link.{list_linkin}
use msgcore.Items.Unlink.{list_unlink}
use msgcore.Items.Listed.{Lists, links}
use msgcore.Items.Listed.Linked.{Fresh, Inserted, list_linkin-inserts}
use msgcore.Items.Listed.Unlinked.{Removed, unlink-removes}

-- Linking a new item into a list and unlinking it again gives the item back and leaves the sequence
-- that there was.
pub list_linkin-unlink :
    (s : Store) (xs : List ℕ) (l : Lists s xs) (a : ℕ) (fr : Fresh s xs a) (b n : ℕ)
    → Before (links s.items) s.last xs b n
    → s.count + 1 ≤ items_limit s.addr
    → Ends (and_then (list_linkin b a n s) (λ _. list_unlink a)) (λ r t. (r ≡ a) × Lists t xs)
list_linkin-unlink s xs l a fr b n bef room =
    Ends-bind (list_linkin b a n s) (λ _. list_unlink a)
      (λ _ t. Inserted s xs n a (s.items a).parent t) (λ r t. (r ≡ a) × Lists t xs)
      (list_linkin-inserts s xs l a fr b n bef)
      (λ _ t i.
        let c = i.lists.count in
        let k = l.count in
        let w = i.addr in
        let few : t.count ≤ items_limit t.addr =
          subst (λ v. t.count ≤ items_limit v) (sym w) (ground (arith, length-insert n a xs)) in
        Ends-map (list_unlink a t) (λ r u. (r ≡ a) × Removed t (insert n a xs) a u)
          (λ r u. (r ≡ a) × Lists u xs)
          (unlink-removes t (insert n a xs) i.lists few a (ground (arith, has-insert a n a xs))).0
          (λ r u h. (h.0, subst (λ v. Lists u v) (remove-insert n a xs fr.out) h.1.lists)))
