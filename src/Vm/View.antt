-- ===== src/Vm/View.antt =====
-- vm.c: a page table as the entries that it has for the pages of the virtual memory, and the
-- invariant under which it is a tree.
pub mod Link
pub mod Write
pub mod Walk
pub mod Map
pub mod Lookup
pub mod Unmap
use pplottery.Prelude.{ℕ, ◌<◌, ◌≡◌, true, Option, none, some, List, [], ◌∷◌, if◌then◌else◌, length}
use pplottery.Kalloc.FreeList.{IsFree, contains}
use pplottery.Vm.{Vm, is_set, pte_v, pte2pa, px}

-- The page table that entry `i` of the page table `p` points to.
abbrev pub child_of : (ℕ → ℕ → ℕ) → (p i : ℕ) → Option ℕ
child_of f p i = if is_set pte_v (f p i) then some (pte2pa (f p i)) else none

abbrev pub then_child : (ℕ → ℕ → ℕ) → Option ℕ → ℕ → Option ℕ
then_child f none i = none
then_child f (some p) i = child_of f p i

abbrev pub entry_of : (ℕ → ℕ → ℕ) → Option ℕ → ℕ → ℕ
entry_of f none i = 0
entry_of f (some p) i = f p i

-- The last page table for the indices of levels 2 and 1, and the entry, 0 where there is none.
abbrev pub table_at : (ℕ → ℕ → ℕ) → (root i2 i1 : ℕ) → Option ℕ
table_at f root i2 i1 = then_child f (child_of f root i2) i1

abbrev pub pte_at : (ℕ → ℕ → ℕ) → (root i2 i1 i0 : ℕ) → ℕ
pte_at f root i2 i1 i0 = entry_of f (table_at f root i2 i1) i0

-- The entry for a virtual address.
abbrev pub view : (root va : ℕ) → Vm → ℕ
view root va s = pte_at s.ptes root (px 2 va) (px 1 va) (px 0 va)

-- Each page table is the child of one entry: `own` gives, of a page that is one, the indices on the
-- way to it, the last one first.
pub record Tables (own : ℕ → Option (List ℕ)) (root : ℕ) (f : ℕ → ℕ → ℕ) : Type 0 where
  pub at_root : own root ≡ some []
  pub child :
      (p i : ℕ) (path : List ℕ)
      → own p ≡ some path
      → length path < 2
      → is_set pte_v (f p i) ≡ true
      → own (pte2pa (f p i)) ≡ some (i ∷ path)

-- The free pages are `xs`, and none of them is a page table.
pub record Tree (kend root : ℕ) (s : Vm) (own : ℕ → Option (List ℕ)) (xs : List ℕ) : Type 0 where
  pub tables : Tables own root s.ptes
  pub free : IsFree kend s.kmem xs
  pub spare : (p : ℕ) → contains xs p ≡ true → own p ≡ none
