-- ===== src/Vm/View/Map.antt =====
-- vm.c: `mappages` against the entries of the page table.
use pplottery.Prelude.{
  ℕ, zero, suc, ◌+◌, ◌-◌, ◌*◌, ◌/◌, ◌%◌, ◌<◌, ◌≤◌, ◌≡◌, ◌⊎◌, inl, inr, refl, sym, ap, ◌∙◌, Bool,
  true, false, ◌&&◌, Option, none, some, List, [], ◌==◌, ==_iff, if◌then◌else◌, arith, Bool-cases,
  Result-cases, Result, ok, panic, leb, leb→le, ltb, minus_one,
}
use pplottery.Kalloc.{pgsize}
use pplottery.Vm.{Vm, is_set, pte_v, px, leaf, walk, set_pte, maxva, map_from, mappages}
use pplottery.Vm.View.{view, Tree}
use pplottery.Vm.View.Write.{write-Tables, write-pte_at}
use pplottery.Vm.View.Walk.{Walked, Walks, walk-Walks}

-- Two addresses have the same indices if they lie on the same page.
same_page :
    (w va : ℕ)
    → w < maxva
    → va < maxva
    → ((px 2 w == px 2 va) && ((px 1 w == px 1 va) && (px 0 w == px 0 va)))
      ≡ (w / pgsize == va / pgsize)
same_page w va hw hva = ground arith

module _ (kend root va v : ℕ) (s t : Vm) (p i : ℕ) (low : va < maxva)
    (walked : Walked kend root va s (some (p, i), t)) where
  -- The place that the walk ends at is that of the entry for the address.
  pub place_view : t.ptes p i ≡ view root va s
  place_view =
      let (own, xs, tree, same, (at, reached)) = walked in
      let here : view root va t ≡ t.ptes p (px 0 va) = rw reached refl in
      ap (t.ptes p) at ∙ sym here ∙ same (px 2 va) (px 1 va) (px 0 va)

  pub written_Tree :
      (own : ℕ → Option (List ℕ)) × (xs : List ℕ) × Tree kend root (set_pte p i v t) own xs
  written_Tree =
      let (own, xs, tree, same, (at, reached)) = walked in
      (
        own,
        xs,
        record {
          tables = write-Tables own root t.ptes tree.tables p i v (px 2 va) (px 1 va) reached;
          free = tree.free;
          spare = tree.spare;
        },
      )

  pub written_view :
      (w : ℕ)
      → w < maxva
      → view root w (set_pte p i v t) ≡ (if w / pgsize == va / pgsize then v else view root w s)
  written_view w hw =
      let (own, xs, tree, same, (at, reached)) = walked in
      let wrote =
        write-pte_at own root t.ptes tree.tables p i v (px 2 va) (px 1 va) reached (px 2 w) (px 1 w)
          (px 0 w) in
      wrote ∙ rw (at, same_page w va hw low, same (px 2 w) (px 1 w) (px 0 w)) refl

abbrev pub in_range : (a n w : ℕ) → Bool
in_range a n w = leb a w && ltb w (a + n * pgsize)

-- What `mappages` of `n` pages from `a` comes to. A panic has a page that has an entry already, or
-- lies too high; the error is a shortage of memory; else the pages have their new entries. The
-- other entries are as before, and the page table is still a tree.
abbrev pub Maps : (kend root a n pa perm : ℕ) → Vm → Result (ℕ × Vm) → Type 0
Maps kend root a n pa perm s panic =
    (w : ℕ) × (in_range a n w ≡ true) × ((maxva ≤ w) ⊎ (is_set pte_v (view root w s) ≡ true))
Maps kend root a n pa perm s (ok (r, t)) =
    (own : ℕ → Option (List ℕ)) × (xs : List ℕ) × Tree kend root t own xs
    × (((r ≡ 0)
          × ((w : ℕ)
              → w < maxva
              → view root w t ≡ (
                  if in_range a n w
                  then leaf (pa + (w / pgsize * pgsize - a)) perm
                  else view root w s)))
        ⊎ ((r ≡ minus_one)
            × (xs ≡ [])
            × ((w : ℕ) → w < maxva → in_range a n w ≡ false → view root w t ≡ view root w s)))

module _ (a w : ℕ) (al : a % pgsize ≡ 0) where
  pub range_first : (n : ℕ) → (w / pgsize == a / pgsize) ≡ true → in_range a (suc n) w ≡ true
  range_first n h = ground (arith, ==_iff (w / pgsize) (a / pgsize))

  pub range_before : (n : ℕ) → (w / pgsize == a / pgsize) ≡ true → in_range (a + pgsize) n w ≡ false
  range_before n h = ground (arith, ==_iff (w / pgsize) (a / pgsize))

  pub range_rest :
      (n : ℕ)
      → (w / pgsize == a / pgsize) ≡ false
      → in_range a (suc n) w ≡ in_range (a + pgsize) n w
  range_rest n h = ground (arith, ==_iff (w / pgsize) (a / pgsize))

  pub not_first : (n : ℕ) → in_range (a + pgsize) n w ≡ true → (w / pgsize == a / pgsize) ≡ false
  not_first n h = ground (arith, ==_iff (w / pgsize) (a / pgsize))

  pub range_more : (n : ℕ) → in_range (a + pgsize) n w ≡ true → in_range a (suc n) w ≡ true
  range_more n h = ground arith

  -- Where the page of `w` is mapped to.
  target_first : (pa : ℕ) → (w / pgsize == a / pgsize) ≡ true → pa + (w / pgsize * pgsize - a) ≡ pa
  target_first pa h = omega (arith, (==_iff (w / pgsize) (a / pgsize)).0 h)

  target_rest :
      (pa n : ℕ)
      → in_range (a + pgsize) n w ≡ true
      → pa + pgsize + (w / pgsize * pgsize - (a + pgsize)) ≡ pa + (w / pgsize * pgsize - a)
  target_rest pa n h = ground arith

-- The first page in front of a run on the others.
extend_run :
    (kend root a n pa perm : ℕ) (s u : Vm) (r : Result (ℕ × Vm))
    → a % pgsize ≡ 0
    → ((w : ℕ)
        → w < maxva
        → view root w u ≡ (if w / pgsize == a / pgsize then leaf pa perm else view root w s))
    → Maps kend root (a + pgsize) n (pa + pgsize) perm u r
    → Maps kend root a (suc n) pa perm s r
extend_run kend root a n pa perm s u panic al first (w, inside, inl high) =
    (w, range_more a w al n inside, inl high)
extend_run kend root a n pa perm s u panic al first (w, inside, inr on) =
    elim (Bool-cases (leb maxva w)) [
      | inl high ↦ (w, range_more a w al n inside, inl (leb→le maxva w high))
      | inr low ↦
          let at : view root w u ≡ view root w s =
            rw (not_first a w al n inside) at (first w (ground arith)) in
          (w, range_more a w al n inside, inr (rw at at on))
    ]
extend_run kend root a n pa perm s u (ok (r, t)) al first (own, xs, tree, inl (done, rest)) = (
  own,
  xs,
  tree,
  inl (
    done,
    λ w hw. elim (Bool-cases (w / pgsize == a / pgsize)) [
      | inl here ↦
          let now = rw (range_before a w al n here) at (rest w hw) in
          rw (range_first a w al n here, target_first a w al pa here)
            (now ∙ rw here at (first w hw))
      | inr away ↦ elim (Bool-cases (in_range (a + pgsize) n w)) [
        | inl inside ↦
            let now = rw inside at (rest w hw) in
            rw (range_rest a w al n away, inside)
              (now ∙ ap (λ x. leaf x perm) (target_rest a w al pa n inside))
        | inr outside ↦
            let now = rw outside at (rest w hw) in
            rw (range_rest a w al n away, outside) (now ∙ rw away at (first w hw))
      ]
    ],
  ),
)
extend_run kend root a n pa perm s u (ok (r, t)) al first (own, xs, tree, inr (fail, empty, rest)) =
    (
      own,
      xs,
      tree,
      inr (
        fail,
        empty,
        λ w hw outside.
            let away : (w / pgsize == a / pgsize) ≡ false = ground (arith, range_first a w al n) in
            let later : in_range (a + pgsize) n w ≡ false =
              sym (range_rest a w al n away) ∙ outside in
            rest w hw later ∙ rw away at (first w hw),
      ),
    )

-- The first round of the loop, that finds the place of the entry.
map_first :
    (kend root a n pa perm : ℕ) (s t : Vm) (p i : ℕ)
    → a < maxva
    → a % pgsize ≡ 0
    → Walked kend root a s (some (p, i), t)
    → (((u : Vm) (own : ℕ → Option (List ℕ)) (xs : List ℕ)
        → Tree kend root u own xs
        → Maps kend root
            (a + pgsize)
            n
            (pa + pgsize)
            perm
            u
            (map_from n root (a + pgsize) (pa + pgsize) perm u)))
    → Maps kend root a (suc n) pa perm s (
        if is_set pte_v (t.ptes p i)
        then panic
        else map_from n root (a + pgsize) (pa + pgsize) perm (set_pte p i (leaf pa perm) t))
map_first kend root a n pa perm s t p i low al walked ih =
    elim (Bool-cases (is_set pte_v (t.ptes p i))) [
      | inl on ↦
          let place = place_view kend root a 0 s t p i low walked in
          let on' : is_set pte_v (view root a s) ≡ true = rw (sym place) on in
          rw on (a, range_first a a al n (ground arith), inr on')
      | inr off ↦
          let v = leaf pa perm in
          let (own, xs, tree) = written_Tree kend root a v s t p i low walked in
          let u = set_pte p i v t in
          rw off (
            extend_run kend root a n pa perm s u (map_from n root (a + pgsize) (pa + pgsize) perm u)
              al (written_view kend root a v s t p i low walked) (ih u own xs tree))
    ]

map_from-Maps :
    (n kend root a pa perm : ℕ) (s : Vm) (own : ℕ → Option (List ℕ)) (xs : List ℕ)
    → 0 < kend
    → a % pgsize ≡ 0
    → Tree kend root s own xs
    → Maps kend root a n pa perm s (map_from n root a pa perm s)
unfolding map_from
map_from-Maps zero kend root a pa perm s own xs pos al tree = (
  own,
  xs,
  tree,
  inl (refl, λ w hw. let outside : in_range a 0 w ≡ false = ground arith in rw outside refl),
)
map_from-Maps (suc n) kend root a pa perm s own xs pos al tree =
    let walks = walk-Walks kend root a s own xs pos tree in
    elim (Result-cases (walk true root a s)) [
      | inl e ↦
          let high : Walks kend root a s panic = rw e at walks in
          rw (e, map_from) (a, range_first a a al n (ground arith), inl high)
      | inr ((none, t), e) ↦
          let (low, (own', xs', tree', same, empty)) : Walks kend root a s (ok (none, t)) =
            rw e at walks in
          rw (e, map_from)
            (own', xs', tree', inr (refl, empty, λ w hw outside. same (px 2 w) (px 1 w) (px 0 w)))
      | inr ((some (p, i), t), e) ↦
          let (low, walked) : Walks kend root a s (ok (some (p, i), t)) = rw e at walks in
          rw (e, map_from)
            (map_first kend root a n pa perm s t p i low al walked (λ u own' xs' tree'.
              map_from-Maps n kend root (a + pgsize) (pa + pgsize) perm u own' xs' pos (omega arith)
                tree'))
    ]

-- `mappages` on a page table that is a tree, at an aligned address and for one page at least, with
-- the kernel not at address 0.
-- If it returns 0, the pages of the range have entries that lead to the physical pages from `pa` on,
-- with the flags; if it returns -1, no memory is left; either way the entries for all other
-- addresses are as before and the page table is a tree. It panics only if a page of the range has an
-- entry already, or lies beyond the last virtual address.
pub mappages-Maps :
    (kend root va n pa perm : ℕ) (s : Vm) (own : ℕ → Option (List ℕ)) (xs : List ℕ)
    → 0 < kend
    → va % pgsize ≡ 0
    → 0 < n
    → Tree kend root s own xs
    → Maps kend root va n pa perm s (mappages root va (n * pgsize) pa perm s)
unfolding mappages
mappages-Maps kend root va n pa perm s own xs pos al some_pages tree =
    let whole : n * pgsize % pgsize ≡ 0 = omega arith in
    let count : n * pgsize / pgsize ≡ n = omega arith in
    let some_size : (n * pgsize == 0) ≡ false = ground arith in
    rw (mappages, al, whole, some_size, count)
      (map_from-Maps n kend root va pa perm s own xs pos al tree)
