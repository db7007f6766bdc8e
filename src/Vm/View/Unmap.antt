-- ===== src/Vm/View/Unmap.antt =====
-- vm.c: `uvmunmap`, without the freeing of pages, against the entries of the page table.
use pplottery.Prelude.{
  ℕ, zero, suc, ◌+◌, ◌-◌, ◌*◌, ◌/◌, ◌%◌, ◌^◌, ◌<◌, ◌≤◌, ◌≡◌, ◌≢◌, ◌⊎◌, inl, inr, refl, sym, ◌∙◌,
  true, false, Option, some, List, ◌==◌, ==_iff, if◌then◌else◌, arith, Bool-cases, Option-cases,
  Result, ok, panic, leb, leb→le,
}
use pplottery.Kalloc.{pgsize}
use pplottery.Vm.{
  Vm, is_set, pte_v, pte_flags, px, leaf, set_pte, maxva, mappages, unmap_from, uvmunmap,
}
use pplottery.Vm.View.{table_at, view, Tree}
use pplottery.Vm.View.Walk.{Walked}
use pplottery.Vm.View.Map.{
  Maps, in_range, mappages-Maps, written_Tree, written_view, range_first, range_before, range_rest,
  not_first, range_more,
}
use pplottery.Vm.View.Lookup.{walk_look, walk_high, leaf_bits}

-- The pages of the range have no entries, and the others are as before. A panic has a page that has
-- no entry, or one that is no leaf, or that lies too high.
abbrev pub Unmaps : (kend root a n : ℕ) → Vm → Result (Unit {0} × Vm) → Type 0
Unmaps kend root a n s panic =
    (w : ℕ) × (in_range a n w ≡ true)
    × ((maxva ≤ w) ⊎ ((is_set pte_v (view root w s) ≡ false) ⊎ (pte_flags (view root w s) ≡ pte_v)))
Unmaps kend root a n s (ok (x, t)) =
    (own : ℕ → Option (List ℕ)) × (xs : List ℕ) × Tree kend root t own xs
    × ((w : ℕ) → w < maxva → view root w t ≡ (if in_range a n w then 0 else view root w s))

extend_gone :
    (kend root a n : ℕ) (s u : Vm) (r : Result (Unit {0} × Vm))
    → a % pgsize ≡ 0
    → ((w : ℕ)
        → w < maxva
        → view root w u ≡ (if w / pgsize == a / pgsize then 0 else view root w s))
    → Unmaps kend root (a + pgsize) n u r
    → Unmaps kend root a (suc n) s r
extend_gone kend root a n s u panic al first (w, inside, inl high) =
    (w, range_more a w al n inside, inl high)
extend_gone kend root a n s u panic al first (w, inside, inr why) =
    elim (Bool-cases (leb maxva w)) [
      | inl high ↦ (w, range_more a w al n inside, inl (leb→le maxva w high))
      | inr low ↦
          let at : view root w u ≡ view root w s =
            rw (not_first a w al n inside) at (first w (ground arith)) in
          (w, range_more a w al n inside, inr (rw at at why))
    ]
extend_gone kend root a n s u (ok (x, t)) al first (own, xs, tree, rest) = (
  own,
  xs,
  tree,
  λ w hw. elim (Bool-cases (w / pgsize == a / pgsize)) [
    | inl here ↦
        let now = rw (range_before a w al n here) at (rest w hw) in
        rw (range_first a w al n here) (now ∙ rw here at (first w hw))
    | inr away ↦ elim (Bool-cases (in_range (a + pgsize) n w)) [
      | inl inside ↦ rw (range_rest a w al n away, inside) (rw inside at (rest w hw))
      | inr outside ↦
          rw (range_rest a w al n away, outside)
            (rw outside at (rest w hw) ∙ rw away at (first w hw))
    ]
  ],
)

unmap_from-Unmaps :
    (n kend root a : ℕ) (s : Vm) (own : ℕ → Option (List ℕ)) (xs : List ℕ)
    → a % pgsize ≡ 0
    → Tree kend root s own xs
    → Unmaps kend root a n s (unmap_from n kend root a false s)
unfolding unmap_from
unmap_from-Unmaps zero kend root a s own xs al tree =
    (own, xs, tree, λ w hw. let outside : in_range a 0 w ≡ false = ground arith in rw outside refl)
unmap_from-Unmaps (suc n) kend root a s own xs al tree = elim (Bool-cases (leb maxva a)) [
  | inl high ↦
      rw (unmap_from, walk_high root a s high)
        (a, range_first a a al n (ground arith), inl (leb→le maxva a high))
  | inr low ↦
      let low' : a < maxva = ground arith in
      let run = walk_look root a s low' in
      elim (Option-cases (table_at s.ptes root (px 2 a) (px 1 a))) [
        | inl e ↦
            rw (unmap_from, run, e) (a, range_first a a al n (ground arith), inr (inl (rw e refl)))
        | inr (d, e) ↦ elim (Bool-cases (is_set pte_v (s.ptes d (px 0 a)))) [
          | inr off ↦
              rw (unmap_from, run, e, off)
                (a, range_first a a al n (ground arith), inr (inl (rw e off)))
          | inl on ↦ elim (Bool-cases (pte_flags (s.ptes d (px 0 a)) == pte_v)) [
            | inl no_leaf ↦
                rw (unmap_from, run, e, on, no_leaf)
                  (
                    a,
                    range_first a a al n (ground arith),
                    inr (inr (rw e ((==_iff (pte_flags (s.ptes d (px 0 a))) pte_v).0 no_leaf))),
                  )
            | inr fine ↦
                let walked : Walked kend root a s (some (d, px 0 a), s) =
                  (own, xs, tree, (λ i2 i1 i0. refl), (refl, e)) in
                let (own', xs', tree') = written_Tree kend root a 0 s s d (px 0 a) low' walked in
                let u = set_pte d (px 0 a) 0 s in
                rw (unmap_from, run, e, on, fine)
                  (extend_gone kend root a n s u (unmap_from n kend root (a + pgsize) false u) al
                    (written_view kend root a 0 s s d (px 0 a) low' walked)
                    (unmap_from-Unmaps n kend root (a + pgsize) u own' xs' (omega arith) tree'))
          ]
        ]
      ]
]

-- `uvmunmap` without freeing, on a page table that is a tree and at an aligned address: afterwards
-- the pages of the range have no entries, the entries for all other addresses are as before, and the
-- page table is a tree. It panics only if a page of the range has no entry, has one that is not a
-- leaf, or lies beyond the last virtual address.
uvmunmap-Unmaps :
    (kend root va n : ℕ) (s : Vm) (own : ℕ → Option (List ℕ)) (xs : List ℕ)
    → va % pgsize ≡ 0
    → va + n * pgsize < 2 ^ 64
    → Tree kend root s own xs
    → Unmaps kend root va n s (uvmunmap kend root va n false s)
unfolding uvmunmap
uvmunmap-Unmaps kend root va n s own xs al fits tree =
    let last : (va + n * pgsize) % 2 ^ 64 ≡ va + n * pgsize = omega arith in
    let count : (va + n * pgsize - va) / pgsize ≡ n = omega arith in
    rw (uvmunmap, last, count, al) (unmap_from-Unmaps n kend root va s own xs al tree)

leaf_flags : (pa perm : ℕ) → perm < 1024 → 1 < perm → pte_flags (leaf pa perm) ≢ pte_v
leaf_flags pa perm small some_flag e = absurd (ground arith)

-- What the run of `uvmunmap` after `mappages` can be: no panic.
unmapped :
    (kend root va n pa perm : ℕ) (s t : Vm) (r : Result (Unit {0} × Vm))
    → va + n * pgsize ≤ maxva
    → perm < 1024
    → 1 < perm
    → ((w : ℕ)
        → w < maxva
        → view root w t ≡ (
            if in_range va n w then leaf (pa + (w / pgsize * pgsize - va)) perm else view root w s))
    → Unmaps kend root va n t r
    → (u : Vm) × (r ≡ ok (tt, u))
      × ((w : ℕ) → w < maxva → view root w u ≡ (if in_range va n w then 0 else view root w s))
unmapped kend root va n pa perm s t panic fits small some_flag entries (w, inside, why) =
    let low : w < maxva = ground arith in
    let target = pa + (w / pgsize * pgsize - va) in
    let now : view root w t ≡ leaf target perm = rw inside at (entries w low) in
    elim why [
      | inl high ↦ absurd (omega arith)
      | inr (inl off) ↦
          let bad : true ≡ false = sym (leaf_bits target perm small).0 ∙ rw now at off in cc
      | inr (inr no_leaf) ↦ absurd (leaf_flags target perm small some_flag (rw now at no_leaf))
    ]
unmapped kend root va n pa perm s t (ok (x, u)) fits small some_flag entries (own, xs, tree, gone) =
    (
      u,
      refl,
      λ w low. elim (Bool-cases (in_range va n w)) [
        | inl inside ↦ rw inside (rw inside at (gone w low))
        | inr outside ↦ rw outside (rw outside at (gone w low) ∙ rw outside at (entries w low))
      ],
    )

-- Pages that `mappages` has just mapped can be unmapped: `uvmunmap` of the same range, called not to
-- free them (`do_free` is 0), does not panic, and leaves the entries as they were before, with none
-- in the range. The range is one page or more, begins at a multiple of the page size and ends at
-- `MAXVA` at most; `perm` is at least 2 and less than 1024, so that it has a flag beside `PTE_V`
-- and no bit of an address; the page table is a tree; and `mappages` has returned 0.
pub uvmunmap-mappages :
    (kend root va n pa perm : ℕ) (s t : Vm) (own : ℕ → Option (List ℕ)) (xs : List ℕ)
    → 0 < kend
    → va % pgsize ≡ 0
    → 0 < n
    → va + n * pgsize ≤ maxva
    → perm < 1024
    → 1 < perm
    → Tree kend root s own xs
    → mappages root va (n * pgsize) pa perm s ≡ ok (0, t)
    → (u : Vm) × (uvmunmap kend root va n false t ≡ ok (tt, u))
      × ((w : ℕ) → w < maxva → view root w u ≡ (if in_range va n w then 0 else view root w s))
uvmunmap-mappages kend root va n pa perm s t own xs pos al some_pages fits small some_flag tree
      run =
    let (own', xs', tree', alt) : Maps kend root va n pa perm s (ok (0, t)) =
      rw run at (mappages-Maps kend root va n pa perm s own xs pos al some_pages tree) in
    elim alt [
      | inr (fail, empty, more) ↦ absurd (omega (arith, fail))
      | inl (done, entries) ↦
          unmapped kend root va n pa perm s t (uvmunmap kend root va n false t) fits small some_flag
            entries (uvmunmap-Unmaps kend root va n t own' xs' al (omega arith) tree')
    ]
