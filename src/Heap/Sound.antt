-- ===== src/Heap/Sound.antt =====
-- What every call on an IOMAGE heap may rely on and leaves behind: the heap is well-formed, nothing
-- but its free blocks reads as one, and the image stays under the handle's maximum.
use msgcore.Prelude.{ℕ, ◌≤◌, ◌<◌, ◌≡◌, ◌∙◌, true, List, has}
use msgcore.Width.{addr_limit}
use msgcore.Heap.{Heap}
use msgcore.Heap.WellFormed.{IsWellFormed, arena}
use msgcore.Heap.Collate.{Honest, SameHeader}
use msgcore.Heap.Free.Theorem.{SameHeader-trans}

pub record Sound (h : Heap) (fl al : List ℕ) (pending : ℕ) : Type 0 where
  pub well_formed : IsWellFormed (arena h) fl al pending
  pub honest : Honest h fl
  pub small : h.size_max < 0x8000_0000
  pub fits : h.size_max < addr_limit h.addr_type
  pub under : h.size_alloc ≤ h.size_max

-- The blocks `al` keep their headers, and the handle its limits and its count of used bytes.
pub record Since (h h' : Heap) (al : List ℕ) : Type 0 where
  pub untouched : (q : ℕ) → has q al ≡ true → SameHeader (h.blocks q) (h'.blocks q)
  pub addr_type : h'.addr_type ≡ h.addr_type
  pub size_used : h'.size_used ≡ h.size_used
  pub size_max : h'.size_max ≡ h.size_max
  pub vblock_min : h'.vblock_min ≡ h.vblock_min

pub Since-trans : {h h' h'' : Heap} {al : List ℕ} → Since h h' al → Since h' h'' al → Since h h'' al
Since-trans s t = record {
  untouched = λ q i. SameHeader-trans (s.untouched q i) (t.untouched q i);
  addr_type = t.addr_type ∙ s.addr_type;
  size_used = t.size_used ∙ s.size_used;
  size_max = t.size_max ∙ s.size_max;
  vblock_min = t.vblock_min ∙ s.vblock_min;
}
