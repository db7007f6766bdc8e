-- ===== src/Vm/Tests.antt =====
-- The theorems on page tables at a tree of three tables with one entry in use in each of the first two.
use pplottery.Prelude.{
  ℕ, ◌*◌, ◌<◌, ◌≡◌, inl, inr, refl, sym, true, false, Option, none, some, some_inj, List, [], ◌∷◌,
  ◌==◌, ==_iff, if◌then◌else◌, arith, length, Bool-cases, ok,
}
use pplottery.Kalloc.{pgsize}
use pplottery.Vm.{Vm, is_set, pte_v, pte2pa, leaf, set_pte, mappages, uvmunmap, maxva}
use pplottery.Vm.View.{view, Tree}
use pplottery.Vm.View.Map.{Maps, in_range, mappages-Maps}
use pplottery.Vm.View.Unmap.{uvmunmap-mappages}

abbrev small_entries : ℕ → ℕ → ℕ
small_entries p i =
    if i == 0 then (if p == 4096 then 2049 else if p == 8192 then 3073 else 0) else 0

abbrev small : Vm
small = record {
  kmem = record { freelist = 0; next = (λ p. 0); mem = (λ a. 0) };
  ptes = small_entries;
}

abbrev owner : ℕ → Option (List ℕ)
owner p =
    if p == 4096
    then some []
    else if p == 8192
    then some (0 ∷ [])
    else if p == 12288
    then some (0 ∷ 0 ∷ [])
    else none

child :
    (p i : ℕ) (path : List ℕ)
    → owner p ≡ some path
    → length path < 2
    → is_set pte_v (small_entries p i) ≡ true
    → owner (pte2pa (small_entries p i)) ≡ some (i ∷ path)
child p i path e lt on = elim (Bool-cases (i == 0)) [
  | inr other ↦ let bad : false ≡ true = rw other at on in cc
  | inl first ↦
      let at : i ≡ 0 = (==_iff i 0).0 first in
      elim (Bool-cases (p == 4096)) [
        | inl root ↦
            let is : [] ≡ path = some_inj (rw root at e) in rw (first, root, at, sym is) refl
        | inr lower ↦ elim (Bool-cases (p == 8192)) [
          | inl middle ↦
              let is : 0 ∷ [] ≡ path = some_inj (rw (lower, middle) at e) in
              rw (first, lower, middle, at, sym is) refl
          | inr last ↦ let bad : false ≡ true = rw (first, lower, last) at on in cc
        ]
      ]
]

tree : Tree 4096 4096 small owner []
tree = record {
  tables = record { at_root = refl; child = child };
  free = record { chain = refl; pages = tt };
  spare = (λ p h. let bad : false ≡ true = h in cc);
}

abbrev mapped : Vm
mapped = set_pte 12288 1 (leaf 65536 18) small

runs : mappages 4096 4096 (1 * pgsize) 65536 18 small ≡ ok (0, mapped)
unfolding mappages
runs = refl

mappages-Maps_example :
    Maps 4096 4096 4096 1 65536 18 small (mappages 4096 4096 (1 * pgsize) 65536 18 small)
mappages-Maps_example =
    mappages-Maps 4096 4096 4096 1 65536 18 small owner [] (omega arith) refl (omega arith) tree

uvmunmap-mappages_example :
    (u : Vm) × (uvmunmap 4096 4096 4096 1 false mapped ≡ ok (tt, u))
    × ((w : ℕ) → w < maxva → view 4096 w u ≡ (if in_range 4096 1 w then 0 else view 4096 w small))
uvmunmap-mappages_example =
    uvmunmap-mappages 4096 4096 4096 1 65536 18 small mapped owner [] (omega arith) refl
      (omega arith) (omega arith) (omega arith) (omega arith) tree runs
