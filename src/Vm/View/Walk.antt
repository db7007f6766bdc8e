-- ===== src/Vm/View/Walk.antt =====
-- vm.c: `walk` keeps the tree, and the entry for every address.
use pplottery.Prelude.{
  ℕ, suc, ◌+◌, ◌<◌, ◌≤◌, ◌≡◌, inl, inr, refl, sym, ap, ◌∙◌, Bool, true, false, ◌&&◌, Option, none,
  some, List, [], ◌∷◌, ◌==◌, ==_iff, arith, length, Bool-cases, Option-cases, Result, ok, panic,
  leb, leb→le,
}
use pplottery.Kalloc.{kalloc}
use pplottery.Kalloc.FreeList.{contains, kalloc-Popped}
use pplottery.Vm.{
  Vm, is_set, pte_v, pa2pte, px, descend, walk_from, walk, set_pte, clear_table, take_page, maxva,
}
use pplottery.Vm.View.{child_of, table_at, pte_at, Tree}
use pplottery.Vm.View.Link.{
  adopt, link-Tables, link-pte_at, link-child_of, linked_entry, linked_page, not_spare,
}

-- The entries for all indices are those of before.
abbrev pub SameView : (root : ℕ) → Vm → Vm → Type 0
SameView root s t = (i2 i1 i0 : ℕ) → pte_at t.ptes root i2 i1 i0 ≡ pte_at s.ptes root i2 i1 i0

-- The children of page tables are kept.
abbrev Kept : (ℕ → Option (List ℕ)) → Vm → Vm → Type 0
Kept own s t =
    (x j c : ℕ) (at : List ℕ)
    → own x ≡ some at
    → child_of s.ptes x j ≡ some c
    → child_of t.ptes x j ≡ some c

-- What `own` says of page tables is kept.
abbrev Extends : (ℕ → Option (List ℕ)) → (ℕ → Option (List ℕ)) → Type 0
Extends own own' = (x : ℕ) (path : List ℕ) → own x ≡ some path → own' x ≡ some path

-- A child of entry `i` of `p` is there after the step, or memory is used up.
abbrev Stepped : (kend p i : ℕ) → (ℕ → Option (List ℕ)) → List ℕ → List ℕ → Option ℕ → Vm → Type 0
Stepped kend p i own path xs none t = xs ≡ []
Stepped kend p i own path xs (some c) t = (child_of t.ptes p i ≡ some c) × (own c ≡ some (i ∷ path))

adopt-Extends :
    (own : ℕ → Option (List ℕ)) (q : ℕ) (path : List ℕ)
    → own q ≡ none
    → Extends own (adopt own q path)
adopt-Extends own q path spare x at e = rw (not_spare own x q at e spare) e

contains_tail :
    (q : ℕ) (rest : List ℕ) (x : ℕ) → contains rest x ≡ true → contains (q ∷ rest) x ≡ true
contains_tail q rest x h = ground arith

spare_after :
    (own : ℕ → Option (List ℕ)) (q : ℕ) (path rest : List ℕ)
    → ((x : ℕ) → contains (q ∷ rest) x ≡ true → own x ≡ none)
    → contains rest q ≡ false
    → (x : ℕ) → contains rest x ≡ true
    → adopt own q path x ≡ none
spare_after own q path rest spare out x h = elim (Bool-cases (x == q)) [
  | inl same ↦
      let at : x ≡ q = (==_iff x q).0 same in
      let bad : true ≡ false = sym h ∙ ap (contains rest) at ∙ out in cc
  | inr other ↦ rw other (spare x (contains_tail q rest x h))
]

-- The step, where a page has to be allocated.
abbrev allocated : (p i q : ℕ) → Vm → Vm
allocated p i q s = set_pte p i (pa2pte q + pte_v) (clear_table q (take_page s).1)

abbrev Descends : (kend root p i : ℕ) → List ℕ → Vm → (ℕ → Option (List ℕ)) → Option ℕ × Vm → Type 0
Descends kend root p i path s own r =
    (own' : ℕ → Option (List ℕ)) × (xs' : List ℕ) × Tree kend root r.1 own' xs'
    × SameView root s r.1
    × Kept own s r.1
    × Extends own own'
    × Stepped kend p i own' path xs' r.0 r.1

allocated-Tree :
    (kend root p i q : ℕ) (path rest : List ℕ) (s : Vm) (own : ℕ → Option (List ℕ))
    → 0 < kend
    → Tree kend root s own (q ∷ rest)
    → own p ≡ some path
    → length path < 2
    → is_set pte_v (s.ptes p i) ≡ false
    → Descends kend root p i path s own (some q, allocated p i q s)
allocated-Tree kend root p i q path rest s own pos tree here above off =
    let (is, some_page, aligned, over, low, left, out) =
      kalloc-Popped kend s.kmem (q ∷ rest) pos tree.free in
    let spare : own q ≡ none = tree.spare q (ground arith) in
    let self : (q == q) ≡ true = ground arith in
    let self_p : (p == p) && (i == i) ≡ true = ground arith in
    (
      adopt own q (i ∷ path),
      rest,
      record {
        tables = link-Tables own root s.ptes tree.tables p i q path here above spare low aligned;
        free = left;
        spare = spare_after own q (i ∷ path) rest tree.spare out;
      },
      link-pte_at own root s.ptes tree.tables p i q path here above spare low aligned off,
      link-child_of own root s.ptes tree.tables p i q path here above spare low aligned off,
      adopt-Extends own q (i ∷ path) spare,
      (rw (self_p, linked_entry q low) (ap some (linked_page q low aligned)), rw self refl),
    )

descend-new :
    (kend root p i : ℕ) (path : List ℕ) (s : Vm) (own : ℕ → Option (List ℕ)) (xs : List ℕ)
    → 0 < kend
    → Tree kend root s own xs
    → own p ≡ some path
    → length path < 2
    → is_set pte_v (s.ptes p i) ≡ false
    → Descends kend root p i path s own (descend true p i s)
unfolding descend
descend-new kend root p i path s own [] pos tree here above off =
    let none_left : kalloc s.kmem ≡ (0, s.kmem) = kalloc-Popped kend s.kmem [] pos tree.free in
    rw (descend, off, none_left)
      (own, [], tree, (λ i2 i1 i0. refl), (λ x j c at e h. h), (λ x at e. e), refl)
descend-new kend root p i path s own (q ∷ rest) pos tree here above off =
    let popped = kalloc-Popped kend s.kmem (q ∷ rest) pos tree.free in
    let some_page : (q == 0) ≡ false = ground (arith, popped.1) in
    rw (descend, off, popped.0, some_page)
      (allocated-Tree kend root p i q path rest s own pos tree here above off)

descend-Step :
    (kend root p i : ℕ) (path : List ℕ) (s : Vm) (own : ℕ → Option (List ℕ)) (xs : List ℕ)
    → 0 < kend
    → Tree kend root s own xs
    → own p ≡ some path
    → length path < 2
    → Descends kend root p i path s own (descend true p i s)
unfolding descend
descend-Step kend root p i path s own xs pos tree here above =
    elim (Bool-cases (is_set pte_v (s.ptes p i))) [
      | inl on ↦
          rw (descend, on)
            (
              own,
              xs,
              tree,
              (λ i2 i1 i0. refl),
              (λ x j c at e h. h),
              (λ x at e. e),
              (rw on refl, tree.tables.child p i path here above on),
            )
      | inr off ↦ descend-new kend root p i path s own xs pos tree here above off
    ]

-- What `walk` leads to: the place of the entry, or a shortage of memory.
abbrev pub Reached : (root va : ℕ) → List ℕ → Option (ℕ × ℕ) → Vm → Type 0
Reached root va xs none t = xs ≡ []
Reached root va xs (some (d, i)) t =
    (i ≡ px 0 va) × (table_at t.ptes root (px 2 va) (px 1 va) ≡ some d)

abbrev pub Walked : (kend root va : ℕ) → Vm → Option (ℕ × ℕ) × Vm → Type 0
Walked kend root va s r =
    (own : ℕ → Option (List ℕ)) × (xs : List ℕ) × Tree kend root r.1 own xs
    × SameView root s r.1
    × Reached root va xs r.0 r.1

-- The rest of the walk behind a step.
abbrev pub go_on : (level : ℕ) → (alloc : Bool) → (va : ℕ) → Option ℕ × Vm → Option (ℕ × ℕ) × Vm
go_on level alloc va (none, t) = (none, t)
go_on level alloc va (some next, t) = walk_from level alloc next va t

pub walk_from-step :
    (level : ℕ) (alloc : Bool) (p va : ℕ) (s : Vm)
    → walk_from (suc level) alloc p va s
      ≡ go_on level alloc va
          ((descend alloc p (px (suc level) va) s).0, (descend alloc p (px (suc level) va) s).1)
unfolding walk_from
walk_from-step level alloc p va s = elim (Option-cases (descend alloc p (px (suc level) va) s).0) [
  | inl e ↦ rw (walk_from, e) refl
  | inr (c, e) ↦ rw (walk_from, e) refl
]

second_step :
    (kend root va c : ℕ) (s t : Vm) (own : ℕ → Option (List ℕ)) (o : Option ℕ) (u : Vm)
    → own root ≡ some []
    → SameView root s t
    → child_of t.ptes root (px 2 va) ≡ some c
    → Descends kend root c (px 1 va) (px 2 va ∷ []) t own (o, u)
    → Walked kend root va s (go_on 0 true va (o, u))
unfolding walk_from
second_step kend root va c s t own none u at_root same first
      (own', xs, tree, same', kept, extends, stepped) =
    (own', xs, tree, (λ i2 i1 i0. same' i2 i1 i0 ∙ same i2 i1 i0), stepped)
second_step kend root va c s t own (some d) u at_root same first
      (own', xs, tree, same', kept, extends, stepped) =
    (
      own',
      xs,
      tree,
      (λ i2 i1 i0. same' i2 i1 i0 ∙ same i2 i1 i0),
      (refl, rw (kept root (px 2 va) c [] at_root first) (stepped.0)),
    )

first_step :
    (kend root va : ℕ) (s : Vm) (own : ℕ → Option (List ℕ)) (o : Option ℕ) (u : Vm)
    → 0 < kend
    → Descends kend root root (px 2 va) [] s own (o, u)
    → Walked kend root va s (go_on 1 true va (o, u))
first_step kend root va s own none u pos (own', xs, tree, same, kept, extends, stepped) =
    (own', xs, tree, same, stepped)
first_step kend root va s own (some c) u pos (own', xs, tree, same, kept, extends, stepped) =
    let step =
      descend-Step kend root c (px 1 va) (px 2 va ∷ []) u own' xs pos tree stepped.1
        (omega arith) in
    let run = walk_from-step 0 true c va u in
    rw run (
      second_step kend root va c s u own' (descend true c (px 1 va) u).0
        (descend true c (px 1 va) u).1 tree.tables.at_root same stepped.0 step)

-- The loop of `walk` with `alloc`, at a page table that is a tree: it is one afterwards, no entry
-- changes, and the loop ends at the place of the entry for the address, or when no page is left.
walk_from-Walked :
    (kend root va : ℕ) (s : Vm) (own : ℕ → Option (List ℕ)) (xs : List ℕ)
    → 0 < kend
    → Tree kend root s own xs
    → Walked kend root va s (walk_from 2 true root va s)
walk_from-Walked kend root va s own xs pos tree =
    let step =
      descend-Step kend root root (px 2 va) [] s own xs pos tree tree.tables.at_root
        (omega arith) in
    let run = walk_from-step 1 true root va s in
    rw run (
      first_step kend root va s own (descend true root (px 2 va) s).0
        (descend true root (px 2 va) s).1 pos step)

-- What `walk` comes to.
abbrev pub Walks : (kend root va : ℕ) → Vm → Result (Option (ℕ × ℕ) × Vm) → Type 0
Walks kend root va s panic = maxva ≤ va
Walks kend root va s (ok r) = (va < maxva) × Walked kend root va s r

pub walk-Walks :
    (kend root va : ℕ) (s : Vm) (own : ℕ → Option (List ℕ)) (xs : List ℕ)
    → 0 < kend
    → Tree kend root s own xs
    → Walks kend root va s (walk true root va s)
unfolding walk
walk-Walks kend root va s own xs pos tree = elim (Bool-cases (leb maxva va)) [
  | inl high ↦ rw (walk, high) (leb→le maxva va high)
  | inr low ↦ rw (walk, low) (ground arith, walk_from-Walked kend root va s own xs pos tree)
]
