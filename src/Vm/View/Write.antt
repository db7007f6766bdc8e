-- ===== src/Vm/View/Write.antt =====
-- vm.c: what the write of a leaf does to the entries of a page table.
use pplottery.Prelude.{
  ℕ, ◌<◌, ◌≡◌, inl, inr, refl, sym, ap, ◌∙◌, true, false, ◌&&◌, Option, some, some_inj, List, [],
  ◌∷◌, ◌==◌, ==_iff, if◌then◌else◌, arith, length, Bool-cases, Option-cases,
}
use pplottery.Vm.{is_set, pte_v, pte2pa}
use pplottery.Vm.View.{child_of, table_at, pte_at, Tables}
use pplottery.Vm.View.Link.{not_level, first-own, table_at-own}

-- Entry `i` of `p` is `v`.
abbrev pub write : (ℕ → ℕ → ℕ) → (p i v : ℕ) → ℕ → ℕ → ℕ
write f p i v x j = if (x == p) && (j == i) then v else f x j

module _ (own : ℕ → Option (List ℕ)) (root : ℕ) (f : ℕ → ℕ → ℕ) (tables : Tables own root f) where
  -- A write to an entry of the last level.
  module _ (p i v a2 a1 : ℕ) (reached : table_at f root a2 a1 ≡ some p) where
    own_p : own p ≡ some (a1 ∷ a2 ∷ [])
    own_p = table_at-own own root f tables a2 a1 p reached

    write_above :
        (x j : ℕ) (at : List ℕ) → own x ≡ some at → length at < 2 → write f p i v x j ≡ f x j
    write_above x j at e lt = rw (not_level own x p at (a1 ∷ a2 ∷ []) e own_p lt) refl

    write_child :
        (x j : ℕ) (at : List ℕ)
        → own x ≡ some at
        → length at < 2
        → is_set pte_v (write f p i v x j) ≡ true
        → own (pte2pa (write f p i v x j)) ≡ some (j ∷ at)
    write_child x j at e lt on =
        let same = write_above x j at e lt in rw same (tables.child x j at e lt (rw same at on))

    pub write-Tables : Tables own root (write f p i v)
    write-Tables = record { at_root = tables.at_root; child = write_child }

    write-table_at : (i2 i1 : ℕ) → table_at (write f p i v) root i2 i1 ≡ table_at f root i2 i1
    write-table_at i2 i1 =
        let same = write_above root i2 [] tables.at_root (omega arith) in
        elim (Option-cases (child_of f root i2)) [
          | inl e ↦ rw (same, e) refl
          | inr (c, e) ↦
              rw
                (
                  same,
                  e,
                  write_above c i1 (i2 ∷ []) (first-own own root f tables i2 c e) (omega arith),
                )
                refl
        ]

    other_table :
        (i2 i1 d : ℕ)
        → table_at f root i2 i1 ≡ some d
        → ((i2 == a2) && (i1 == a1)) ≡ false
        → (d == p) ≡ false
    other_table i2 i1 d e away = elim (Bool-cases (d == p)) [
      | inr other ↦ other
      | inl same ↦
          let at : d ≡ p = (==_iff d p).0 same in
          let paths : i1 ∷ i2 ∷ [] ≡ a1 ∷ a2 ∷ [] =
            some_inj (sym (table_at-own own root f tables i2 i1 d e) ∙ ap own at ∙ own_p) in
          let at1 : i1 ≡ a1 = cc in
          let at2 : i2 ≡ a2 = cc in
          let here : ((i2 == a2) && (i1 == a1)) ≡ true =
            rw ((==_iff i2 a2).1 at2, (==_iff i1 a1).1 at1) refl in
          let bad : true ≡ false = sym here ∙ away in cc
    ]

    -- The entry for the indices `i2`, `i1` and `i0` is another one unless they are those of the write.
    pub write-pte_at :
        (i2 i1 i0 : ℕ)
        → pte_at (write f p i v) root i2 i1 i0
          ≡ (if (i2 == a2) && ((i1 == a1) && (i0 == i)) then v else pte_at f root i2 i1 i0)
    write-pte_at i2 i1 i0 = elim (Bool-cases ((i2 == a2) && (i1 == a1))) [
      | inl here ↦
          let at2 : i2 ≡ a2 = ground (arith, here, ==_iff i2 a2) in
          let at1 : i1 ≡ a1 = ground (arith, here, ==_iff i1 a1) in
          let at : table_at f root i2 i1 ≡ some p = rw (at2, at1) reached in
          let self : (p == p) ≡ true = ground arith in
          rw (write-table_at i2 i1, at, self, (==_iff i2 a2).1 at2, (==_iff i1 a1).1 at1) refl
      | inr away ↦
          let off : ((i2 == a2) && ((i1 == a1) && (i0 == i))) ≡ false = ground (arith, away) in
          elim (Option-cases (table_at f root i2 i1)) [
            | inl e ↦ rw (write-table_at i2 i1, e, off) refl
            | inr (d, e) ↦ rw (write-table_at i2 i1, e, off, other_table i2 i1 d e away) refl
          ]
    ]
