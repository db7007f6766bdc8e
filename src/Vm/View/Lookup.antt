-- ===== src/Vm/View/Lookup.antt =====
-- vm.c: `walkaddr` against the entries of the page table.
use pplottery.Prelude.{
  ℕ, ◌<◌, ◌≡◌, inl, inr, refl, ap, ◌∙◌, true, false, ◌&&◌, Option, none, some, if◌then◌else◌, arith,
  Bool-cases, Option-cases, ok, panic, leb,
}
use pplottery.Vm.{
  Vm, is_set, pte_v, pte_u, pte2pa, px, leaf, descend, walk_from, walk, walkaddr, maxva,
}
use pplottery.Vm.View.{child_of, then_child, table_at, view}
use pplottery.Vm.View.Walk.{go_on, walk_from-step}

-- The place of the entry for an address.
abbrev pub place_of : Option ℕ → ℕ → Option (ℕ × ℕ)
place_of none i = none
place_of (some d) i = some (d, i)

descend_look : (p i : ℕ) (s : Vm) → descend false p i s ≡ (child_of s.ptes p i, s)
unfolding descend
descend_look p i s = elim (Bool-cases (is_set pte_v (s.ptes p i))) [
  | inl on ↦ rw (descend, on) refl
  | inr off ↦ rw (descend, off) refl
]

from_second : (va : ℕ) (o : Option ℕ) (s : Vm) → go_on 0 false va (o, s) ≡ (place_of o (px 0 va), s)
unfolding walk_from
from_second va none s = refl
from_second va (some d) s = refl

from_first :
    (va : ℕ) (o : Option ℕ) (s : Vm)
    → go_on 1 false va (o, s) ≡ (place_of (then_child s.ptes o (px 1 va)) (px 0 va), s)
from_first va none s = refl
from_first va (some c) s =
    walk_from-step 0 false c va s
    ∙ ap (λ r. go_on 0 false va (r.0, r.1)) (descend_look c (px 1 va) s)
    ∙ from_second va (child_of s.ptes c (px 1 va)) s

walk_from_look :
    (root va : ℕ) (s : Vm)
    → walk_from 2 false root va s
      ≡ (place_of (table_at s.ptes root (px 2 va) (px 1 va)) (px 0 va), s)
walk_from_look root va s =
    walk_from-step 1 false root va s
    ∙ ap (λ r. go_on 1 false va (r.0, r.1)) (descend_look root (px 2 va) s)
    ∙ from_first va (child_of s.ptes root (px 2 va)) s

pub walk_look :
    (root va : ℕ) (s : Vm)
    → va < maxva
    → walk false root va s ≡ ok (place_of (table_at s.ptes root (px 2 va) (px 1 va)) (px 0 va), s)
unfolding walk
walk_look root va s low =
    let fits : leb maxva va ≡ false = ground arith in rw (walk, fits, walk_from_look root va s) refl

-- `walkaddr` reads the entry for the address: it returns the page of a valid entry for users, else 0.
walkaddr-view :
    (root va : ℕ) (s : Vm)
    → va < maxva
    → walkaddr root va s
      ≡ ok (
        if is_set pte_v (view root va s) && is_set pte_u (view root va s)
            then pte2pa (view root va s)
            else 0,
        s,
      )
unfolding walkaddr
walkaddr-view root va s low =
    let fits : leb maxva va ≡ false = ground arith in
    elim (Option-cases (table_at s.ptes root (px 2 va) (px 1 va))) [
      | inl e ↦ rw (walkaddr, fits, walk_from_look root va s, e) refl
      | inr (d, e) ↦ elim (Bool-cases (is_set pte_v (s.ptes d (px 0 va)))) [
        | inr off ↦ rw (walkaddr, fits, walk_from_look root va s, e, off) refl
        | inl on ↦ elim (Bool-cases (is_set pte_u (s.ptes d (px 0 va)))) [
          | inr off ↦ rw (walkaddr, fits, walk_from_look root va s, e, on, off) refl
          | inl user ↦ rw (walkaddr, fits, walk_from_look root va s, e, on, user) refl
        ]
      ]
    ]

-- `walkaddr` neither panics nor changes anything.
pub walkaddr-reads : (root va : ℕ) (s : Vm) → (pa : ℕ) × (walkaddr root va s ≡ ok (pa, s))
unfolding walkaddr
walkaddr-reads root va s = elim (Bool-cases (leb maxva va)) [
  | inl high ↦ (0, rw (walkaddr, high) refl)
  | inr low ↦ (_, walkaddr-view root va s (ground arith))
]

pub leaf_bits :
    (pa perm : ℕ)
    → perm < 1024
    → (is_set pte_v (leaf pa perm) ≡ true) × (is_set pte_u (leaf pa perm) ≡ is_set pte_u perm)
leaf_bits pa perm h = (ground arith, ground arith)

pub walk_high : (root va : ℕ) (s : Vm) → leb maxva va ≡ true → walk false root va s ≡ panic
unfolding walk
walk_high root va s high = rw (walk, high) refl
