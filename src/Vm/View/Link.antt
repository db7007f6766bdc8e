-- ===== src/Vm/View/Link.antt =====
-- vm.c: what the write of a new page table to an entry does to all entries.
use pplottery.Prelude.{
  ℕ, ◌+◌, ◌%◌, ◌<◌, ◌≡◌, inl, inr, refl, sym, ap, ap₂, ◌⊎◌, ◌∙◌, true, false, ◌&&◌, Option, none,
  some, some_inj, List, [], ◌∷◌, ◌==◌, ==_iff, if◌then◌else◌, arith, length, Bool-cases,
  Option-cases,
}
use pplottery.Kalloc.{phystop}
use pplottery.Vm.{is_set, pte_v, pte2pa, pa2pte}
use pplottery.Vm.View.{child_of, entry_of, table_at, pte_at, Tables}

-- Page `q`, cleared, as the page table under entry `i` of `p`.
abbrev pub link : (ℕ → ℕ → ℕ) → (p i q : ℕ) → ℕ → ℕ → ℕ
link f p i q x j = if (x == p) && (j == i) then pa2pte q + pte_v else if x == q then 0 else f x j

abbrev pub adopt : (ℕ → Option (List ℕ)) → ℕ → List ℕ → ℕ → Option (List ℕ)
adopt own q path x = if x == q then some path else own x

module _ (own : ℕ → Option (List ℕ)) where
  pub not_spare : (x q : ℕ) (path : List ℕ) → own x ≡ some path → own q ≡ none → (x == q) ≡ false
  not_spare x q path e h = elim (Bool-cases (x == q)) [
    | inl same ↦ let at : x ≡ q = (==_iff x q).0 same in cc
    | inr other ↦ other
  ]

  pub not_level :
      (x p : ℕ) (a b : List ℕ)
      → own x ≡ some a
      → own p ≡ some b
      → length a < length b
      → (x == p) ≡ false
  not_level x p a b e h lt = elim (Bool-cases (x == p)) [
    | inl same ↦
        let at : x ≡ p = (==_iff x p).0 same in
        let eq : a ≡ b = cc in absurd (omega (arith, lt, ap length eq))
    | inr other ↦ other
  ]

pub linked_entry : (q : ℕ) → q < phystop → is_set pte_v (pa2pte q + pte_v) ≡ true
linked_entry q h = ground arith

pub linked_page : (q : ℕ) → q < phystop → q % 4096 ≡ 0 → pte2pa (pa2pte q + pte_v) ≡ q
linked_page q h al = omega arith

module _ (own : ℕ → Option (List ℕ)) (root : ℕ) (f : ℕ → ℕ → ℕ) (tables : Tables own root f) where
  -- The page tables on the way to an entry.
  child_of-own :
      (p i c : ℕ) (path : List ℕ)
      → own p ≡ some path
      → length path < 2
      → child_of f p i ≡ some c
      → own c ≡ some (i ∷ path)
  child_of-own p i c path e lt h = elim (Bool-cases (is_set pte_v (f p i))) [
    | inr off ↦ let bad : none ≡ some c = rw off at h in cc
    | inl on ↦
        let at : pte2pa (f p i) ≡ c = some_inj (rw on at h) in
        rw at at (tables.child p i path e lt on)
  ]

  pub first-own : (i2 c : ℕ) → child_of f root i2 ≡ some c → own c ≡ some (i2 ∷ [])
  first-own i2 c h = child_of-own root i2 c [] tables.at_root (omega arith) h

  pub second-own :
      (i2 i1 c d : ℕ)
      → child_of f root i2 ≡ some c
      → child_of f c i1 ≡ some d
      → own d ≡ some (i1 ∷ i2 ∷ [])
  second-own i2 i1 c d h k = child_of-own c i1 d (i2 ∷ []) (first-own i2 c h) (omega arith) k

  pub table_at-own : (i2 i1 d : ℕ) → table_at f root i2 i1 ≡ some d → own d ≡ some (i1 ∷ i2 ∷ [])
  table_at-own i2 i1 d h = elim (Option-cases (child_of f root i2)) [
    | inl e ↦ let bad : none ≡ some d = rw e at h in cc
    | inr (c, e) ↦ second-own i2 i1 c d e (rw e at h)
  ]

  -- A new page table `q` under an entry of `p` that is not in use.
  module _ (p i q : ℕ) (path : List ℕ) (here : own p ≡ some path) (above : length path < 2)
      (spare : own q ≡ none) (low : q < phystop) (aligned : q % 4096 ≡ 0) where
    link_same :
        (x j : ℕ) → (x == q) ≡ false → ((x == p) && (j == i)) ≡ false → link f p i q x j ≡ f x j
    link_same x j a b = rw (b, a) refl

    link_fresh : (j : ℕ) → link f p i q q j ≡ 0
    link_fresh j =
        let apart : (q == p) ≡ false =
          ground (arith, not_spare own p q path here spare, ==_iff q p, ==_iff p q) in
        rw apart (ground arith)

    link_here : link f p i q p i ≡ pa2pte q + pte_v
    link_here = ground arith

    link_not : {A : Type 0} (j : ℕ) → is_set pte_v (link f p i q q j) ≡ true → A
    link_not j on =
        let off : is_set pte_v (link f p i q q j) ≡ false = rw (link_fresh j) refl in
        let bad : true ≡ false = sym on ∙ off in cc

    link_child :
        (x j : ℕ) (at : List ℕ)
        → adopt own q (i ∷ path) x ≡ some at
        → length at < 2
        → is_set pte_v (link f p i q x j) ≡ true
        → adopt own q (i ∷ path) (pte2pa (link f p i q x j)) ≡ some (j ∷ at)
    link_child x j at e lt on = elim (Bool-cases (x == q)) [
      | inl new ↦ let same : x ≡ q = (==_iff x q).0 new in link_not j (rw same at on)
      | inr old ↦
          let e' : own x ≡ some at = rw old at e in
          elim (Bool-cases ((x == p) && (j == i))) [
            | inl linked ↦
                let same : x ≡ p = ground (arith, linked, ==_iff x p) in
                let same_i : j ≡ i = ground (arith, linked, ==_iff j i) in
                let path_is : at ≡ path = some_inj (sym e' ∙ ap own same ∙ here) in
                let page : pte2pa (link f p i q x j) ≡ q = rw linked (linked_page q low aligned) in
                let self : (q == q) ≡ true = ground arith in rw (page, self, same_i, path_is) refl
            | inr apart ↦
                let kept = link_same x j old apart in
                let on' : is_set pte_v (f x j) ≡ true = rw kept at on in
                let is_child = tables.child x j at e' lt on' in
                rw (kept, not_spare own (pte2pa (f x j)) q (j ∷ at) is_child spare) is_child
          ]
    ]

    pub link-Tables : Tables (adopt own q (i ∷ path)) root (link f p i q)
    link-Tables = record {
      at_root = rw (not_spare own root q [] tables.at_root spare) tables.at_root;
      child = link_child;
    }

    -- No entry changes.
    module _ (unused : is_set pte_v (f p i) ≡ false) where
      -- An entry that is in use is not the one that is linked.
      in_use : (x j : ℕ) → is_set pte_v (f x j) ≡ true → ((x == p) && (j == i)) ≡ false
      in_use x j on = elim (Bool-cases ((x == p) && (j == i))) [
        | inr apart ↦ apart
        | inl same ↦
            let at : x ≡ p = ground (arith, same, ==_iff x p) in
            let at_i : j ≡ i = ground (arith, same, ==_iff j i) in
            let bad : true ≡ false = sym on ∙ ap₂ (λ a b. is_set pte_v (f a b)) at at_i ∙ unused in
            cc
      ]

      -- A child stays, and where there was none there is none, or `q`.
      link_kept :
          (x j : ℕ) (at : List ℕ)
          → own x ≡ some at
          → is_set pte_v (f x j) ≡ true
          → child_of (link f p i q) x j ≡ some (pte2pa (f x j))
      link_kept x j at e on =
          let same = link_same x j (not_spare own x q at e spare) (in_use x j on) in
          rw (same, on) refl

      pub link-child_of :
          (x j c : ℕ) (at : List ℕ)
          → own x ≡ some at
          → child_of f x j ≡ some c
          → child_of (link f p i q) x j ≡ some c
      link-child_of x j c at e h = elim (Bool-cases (is_set pte_v (f x j))) [
        | inr off ↦ let bad : none ≡ some c = rw off at h in cc
        | inl on ↦ link_kept x j at e on ∙ rw on at h
      ]

      link_vacant :
          (x j : ℕ) (at : List ℕ)
          → own x ≡ some at
          → is_set pte_v (f x j) ≡ false
          → (child_of (link f p i q) x j ≡ none) ⊎ (child_of (link f p i q) x j ≡ some q)
      link_vacant x j at e off = elim (Bool-cases ((x == p) && (j == i))) [
        | inl linked ↦ inr (rw (linked, linked_entry q low) (ap some (linked_page q low aligned)))
        | inr apart ↦ inl (rw (link_same x j (not_spare own x q at e spare) apart, off) refl)
      ]

      q_entry : (j : ℕ) → entry_of (link f p i q) (some q) j ≡ 0
      q_entry j = link_fresh j

      q_child : (j : ℕ) → child_of (link f p i q) q j ≡ none
      q_child j = rw (link_fresh j) refl

      pub link-pte_at :
          (i2 i1 i0 : ℕ) → pte_at (link f p i q) root i2 i1 i0 ≡ pte_at f root i2 i1 i0
      link-pte_at i2 i1 i0 = elim (Bool-cases (is_set pte_v (f root i2))) [
        | inr off ↦
            let before : child_of f root i2 ≡ none = rw off refl in
            elim (link_vacant root i2 [] tables.at_root off) [
              | inl after ↦ rw (after, before) refl
              | inr after ↦ rw (after, before, q_child i1) refl
            ]
        | inl on ↦
            let c = pte2pa (f root i2) in
            let before : child_of f root i2 ≡ some c = rw on refl in
            let after = link_kept root i2 [] tables.at_root on in
            let own_c = first-own i2 c before in
            elim (Bool-cases (is_set pte_v (f c i1))) [
              | inr off ↦
                  let before' : child_of f c i1 ≡ none = rw off refl in
                  elim (link_vacant c i1 (i2 ∷ []) own_c off) [
                    | inl after' ↦ rw (after, before, after', before') refl
                    | inr after' ↦ rw (after, before, after', before') (q_entry i0)
                  ]
              | inl on' ↦
                  let d = pte2pa (f c i1) in
                  let before' : child_of f c i1 ≡ some d = rw on' refl in
                  let after' = link_kept c i1 (i2 ∷ []) own_c on' in
                  let own_d = second-own i2 i1 c d before before' in
                  let apart : (d == p) ≡ false = ground (
                    arith,
                    not_level own p d path (i1 ∷ i2 ∷ []) here own_d above,
                    ==_iff p d,
                    ==_iff d p,
                  ) in
                  let cond : ((d == p) && (i0 == i)) ≡ false = rw apart refl in
                  rw (after, before, after', before')
                    (link_same d i0 (not_spare own d q (i1 ∷ i2 ∷ []) own_d spare) cond)
            ]
      ]
