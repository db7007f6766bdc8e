-- ===== src/Fs/Itable/Refs.antt =====
-- The reference counts of the table of inodes.
use pplottery.Prelude.{
  ℕ, zero, suc, ◌+◌, ◌-◌, ◌^◌, ◌≤◌, ◌<◌, ◌≡◌, inl, inr, refl, ap, ◌∙◌, true, none, some, List, [],
  ◌∷◌, ◌==◌, if◌then◌else◌, Result, ok, panic, arith, get_elem?, add32, Bool-cases, Option-cases,
  ==_iff,
}
use mathlib.Core.Option
use pplottery.Fs.{Fs, Inode, balloc}
use pplottery.Fs.Bitmap.{balloc-Allocates, itable-allocated}
use pplottery.Fs.Itable.{
  modify, find_inode, find_empty, is_inode, more_refs, claimed, on_table, iget,
}

-- The count in slot `k`; 0 behind the table.
abbrev pub ref_at : ℕ → List Inode → ℕ
ref_at k [] = 0
ref_at zero (p ∷ ps) = p.ref
ref_at (suc k) (p ∷ ps) = ref_at k ps

-- The counts of `s`, and those with one more, or one less, in slot `i`.
abbrev pub SameRefs : Fs → Fs → Type 0
SameRefs s t = (k : ℕ) → ref_at k t.itable ≡ ref_at k s.itable

abbrev pub at_slot : (i k : ℕ) → ℕ
at_slot i k = if i == k then 1 else 0

abbrev pub MoreRefs : ℕ → Fs → Fs → Type 0
MoreRefs i s t = (k : ℕ) → ref_at k t.itable ≡ ref_at k s.itable + at_slot i k

abbrev pub FewerRefs : ℕ → Fs → Fs → Type 0
FewerRefs i s t = (k : ℕ) → ref_at k t.itable + at_slot i k ≡ ref_at k s.itable

-- The counts are `int`s that can still grow by `room`.
abbrev pub Bounded : ℕ → Fs → Type 0
Bounded room s = (k : ℕ) → ref_at k s.itable + room < 2 ^ 31

ref_at-get_elem? :
    (t : List Inode) (i : ℕ) {p : Inode} → get_elem? t i ≡ some p → ref_at i t ≡ p.ref
ref_at-get_elem? [] i e = cc
ref_at-get_elem? (q ∷ t) zero e = ground arith
ref_at-get_elem? (q ∷ t) (suc i) e = ref_at-get_elem? t i e

ref_at-modify_same :
    (t : List Inode) (i k : ℕ) (f : Inode → Inode)
    → ((p : Inode) → (f p).ref ≡ p.ref)
    → ref_at k (modify i f t) ≡ ref_at k t
ref_at-modify_same [] i k f keep = refl
ref_at-modify_same (p ∷ t) zero zero f keep = keep p
ref_at-modify_same (p ∷ t) zero (suc k) f keep = refl
ref_at-modify_same (p ∷ t) (suc i) zero f keep = refl
ref_at-modify_same (p ∷ t) (suc i) (suc k) f keep = ref_at-modify_same t i k f keep

-- Slot `i` is there and its count becomes `v`.
pub ref_at-modify :
    (t : List Inode) (i k v : ℕ) (f : Inode → Inode) {p : Inode}
    → get_elem? t i ≡ some p
    → (f p).ref ≡ v
    → ref_at k (modify i f t) ≡ (if i == k then v else ref_at k t)
ref_at-modify [] i k v f e h = cc
ref_at-modify (q ∷ t) zero zero v f e h = ground (arith, e)
ref_at-modify (q ∷ t) zero (suc k) v f e h = ground arith
ref_at-modify (q ∷ t) (suc i) zero v f e h = ground arith
ref_at-modify (q ∷ t) (suc i) (suc k) v f e h = ground (arith, ref_at-modify t i k v f e h)

find_inode_lem :
    (dev inum k j : ℕ) (t : List Inode)
    → find_inode dev inum k t ≡ some j
    → (p : Inode) × (k ≤ j) × (get_elem? t (j - k) ≡ some p) × (is_inode dev inum p ≡ true)
unfolding find_inode
find_inode_lem dev inum k j [] e = cc
find_inode_lem dev inum k j (q ∷ t) e = elim (Bool-cases (is_inode dev inum q)) [
  | inl found ↦ let at : j - k ≡ 0 = ground arith in (q, ground arith, rw at refl, found)
  | inr other ↦
      let (p, le, here, is) = find_inode_lem dev inum (k + 1) j t (rw other at e) in
      let at : j - k ≡ suc (j - (k + 1)) = omega arith in (p, omega arith, rw at here, is)
]

find_empty_lem :
    (k j : ℕ) (t : List Inode)
    → find_empty k t ≡ some j
    → (p : Inode) × (k ≤ j) × (get_elem? t (j - k) ≡ some p) × (p.ref ≡ 0)
unfolding find_empty
find_empty_lem k j [] e = cc
find_empty_lem k j (q ∷ t) e = elim (Bool-cases (q.ref == 0)) [
  | inl found ↦ let at : j - k ≡ 0 = ground arith in (q, ground arith, rw at refl, ground arith)
  | inr other ↦
      let (p, le, here, is) = find_empty_lem (k + 1) j t (rw other at e) in
      let at : j - k ≡ suc (j - (k + 1)) = omega arith in (p, omega arith, rw at here, is)
]

pub more_refs-MoreRefs :
    (i : ℕ) (s : Fs) {p : Inode}
    → Bounded 1 s
    → get_elem? s.itable i ≡ some p
    → MoreRefs i s (on_table (modify i more_refs) s)
more_refs-MoreRefs i s {p} small here k =
    let at = ref_at-get_elem? s.itable i here in
    let extended : add32 p.ref 1 ≡ p.ref + 1 = omega (arith, small i, at) in
    ground (arith, ref_at-modify s.itable i k (p.ref + 1) more_refs here extended, at, ==_iff i k)

-- The inode that a slot holds.
abbrev pub Holds : (dev inum i : ℕ) → Fs → Type 0
Holds dev inum i s =
    (p : Inode) × (get_elem? s.itable i ≡ some p) × (p.dev ≡ dev) × (p.inum ≡ inum) × (0 < p.ref)

pub get_elem?-modify :
    (t : List Inode) (i : ℕ) (f : Inode → Inode) {p : Inode}
    → get_elem? t i ≡ some p
    → get_elem? (modify i f t) i ≡ some (f p)
get_elem?-modify [] i f e = cc
get_elem?-modify (q ∷ t) zero f e = ap (λ x. Option.map f x) e
get_elem?-modify (q ∷ t) (suc i) f e = get_elem?-modify t i f e

found_inode :
    (dev inum i : ℕ) (s : Fs)
    → Bounded 1 s
    → find_inode dev inum 0 s.itable ≡ some i
    → MoreRefs i s (on_table (modify i more_refs) s)
      × Holds dev inum i (on_table (modify i more_refs) s)
found_inode dev inum i s small e =
    let (p, le, here0, is) = find_inode_lem dev inum 0 i s.itable e in
    let at_i : i - 0 ≡ i = omega arith in
    let here : get_elem? s.itable i ≡ some p = rw at_i at here0 in
    let at = ref_at-get_elem? s.itable i here in
    (
      more_refs-MoreRefs i s small here,
      (
        more_refs p,
        get_elem?-modify s.itable i more_refs here,
        ground (arith, is),
        ground (arith, is),
        ground (arith, small i, at),
      ),
    )

found_empty :
    (dev inum i : ℕ) (s : Fs)
    → find_empty 0 s.itable ≡ some i
    → MoreRefs i s (on_table (modify i (claimed dev inum)) s)
      × Holds dev inum i (on_table (modify i (claimed dev inum)) s)
found_empty dev inum i s e =
    let (p, le, here0, is) = find_empty_lem 0 i s.itable e in
    let at_i : i - 0 ≡ i = omega arith in
    let here : get_elem? s.itable i ≡ some p = rw at_i at here0 in
    let at = ref_at-get_elem? s.itable i here in
    (
      (λ k.
          ground
            (arith, ref_at-modify s.itable i k 1 (claimed dev inum) here refl, at, ==_iff i k)),
      (
        claimed dev inum p,
        get_elem?-modify s.itable i (claimed dev inum) here,
        refl,
        refl,
        omega arith,
      ),
    )

-- What `iget` comes to: a reference more in one slot, which holds the inode; nothing else changes
-- but the slot.
abbrev pub Gets : (dev inum : ℕ) → Fs → Result (ℕ × Fs) → Type 0
Gets dev inum s panic = find_empty 0 s.itable ≡ none
Gets dev inum s (ok (i, t)) = MoreRefs i s t × Holds dev inum i t × (t ≡ on_table (λ l. t.itable) s)

-- `iget` of an inode gives a slot that holds it, with one reference more than before, and leaves
-- the counts of all other slots, and the disk, as they are. It panics only if every slot is in use.
pub iget-Gets : (dev inum : ℕ) (s : Fs) → Bounded 1 s → Gets dev inum s (iget dev inum s)
unfolding iget
iget-Gets dev inum s small = elim (Option-cases (find_inode dev inum 0 s.itable)) [
  | inr (i, e) ↦
      let (more, holds) = found_inode dev inum i s small e in rw (e, iget) (more, holds, refl)
  | inl e ↦ elim (Option-cases (find_empty 0 s.itable)) [
    | inr (i, f) ↦
        let (more, holds) = found_empty dev inum i s f in rw (e, f, iget) (more, holds, refl)
    | inl f ↦ rw (e, f, iget) f
  ]
]

pub SameRefs-trans : (s t u : Fs) → SameRefs s t → SameRefs t u → SameRefs s u
SameRefs-trans s t u a b k = b k ∙ a k

pub modify-SameRefs :
    (i : ℕ) (f : Inode → Inode) (s : Fs)
    → ((p : Inode) → (f p).ref ≡ p.ref)
    → SameRefs s (on_table (modify i f) s)
modify-SameRefs i f s keep k = ref_at-modify_same s.itable i k f keep

pub itable-balloc : (s : Fs) → (balloc s).1.itable ≡ s.itable
itable-balloc s = elim (balloc-Allocates s) [
  | inl (b, first, e) ↦ rw e (itable-allocated b s)
  | inr (all, e) ↦ rw e refl
]
