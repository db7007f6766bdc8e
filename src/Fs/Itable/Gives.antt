-- ===== src/Fs/Itable/Gives.antt =====
-- fs.c: the references that `iput` gives back, and those that `idup` takes.
use pplottery.Prelude.{
  ℕ, zero, suc, ◌+◌, ◌-◌, Option, none, ◌<◌, ◌≡◌, inl, inr, refl, ◌∙◌, ◌&&◌, some, List, [], ◌∷◌,
  ◌==◌, Result, ok, panic, arith, get_elem?, sub32, Bool-cases, Option-cases, Result-cases, ==_iff,
}
use pplottery.Fs.{Fs, M, ◌>>◌, Inode, log_write, iblock, put}
use pplottery.Fs.Itable.{
  modify, fewer_refs, on_table, idup, iunlock, release_inode, iput, iunlockput, ialloc_from, ialloc,
  iget, empty_dinode,
}
use pplottery.Fs.Itable.Refs.{
  ref_at, SameRefs, MoreRefs, FewerRefs, Bounded, more_refs-MoreRefs, ref_at-modify, Gets,
  iget-Gets,
}
use pplottery.Fs.Itable.Keeps.{Keeps-ok, iunlock-Keeps, release_inode-Keeps}

slot_of_ref_at :
    (t : List Inode) (i : ℕ)
    → 0 < ref_at i t
    → (p : Inode) × (get_elem? t i ≡ some p) × (p.ref ≡ ref_at i t)
slot_of_ref_at [] i h = absurd (omega arith)
slot_of_ref_at (q ∷ t) zero h = (q, refl, refl)
slot_of_ref_at (q ∷ t) (suc i) h = slot_of_ref_at t i h

fewer_refs-FewerRefs :
    (i : ℕ) (s : Fs)
    → Bounded 0 s
    → 0 < ref_at i s.itable
    → FewerRefs i s (on_table (modify i fewer_refs) s)
fewer_refs-FewerRefs i s small held k =
    let (p, here, count) = slot_of_ref_at s.itable i held in
    let less : sub32 p.ref 1 ≡ p.ref - 1 = omega (arith, small i, count, held) in
    ground
      (arith, ref_at-modify s.itable i k (p.ref - 1) fewer_refs here less, count, held, ==_iff i k)

-- A result, unless it is a panic, has a reference less in slot `i`.
abbrev pub Gives : {A : Type 0} → ℕ → Fs → Result (A × Fs) → Type 0
Gives i s panic = Unit {0}
Gives i s (ok (a, t)) = FewerRefs i s t

Gives-after :
    {A : Type 0} (i : ℕ) (s t : Fs) (r : Result (A × Fs)) → SameRefs s t → Gives i t r → Gives i s r
Gives-after i s t panic h g = tt
Gives-after i s t (ok (a, u)) h g = λ k. g k ∙ h k

-- The decrement at the end of `iput`.
abbrev drop_ref : ℕ → M (Unit {0})
drop_ref i t = ok (tt, on_table (modify i fewer_refs) t)

dropped :
    (i : ℕ) (s t : Fs)
    → Bounded 0 s
    → 0 < ref_at i s.itable
    → SameRefs s t
    → Gives i s (drop_ref i t)
dropped i s t small held same k =
    fewer_refs-FewerRefs i t (λ j. omega (arith, small j, same j)) (omega (arith, held, same i)) k
    ∙ same k

-- Unless it panics, `iput` of a slot in which there is a reference, with all counts below 2^31, gives
-- one reference of that slot back, whether or not it frees the inode, and keeps the counts of all
-- other slots.
pub iput-Gives : (i : ℕ) (s : Fs) → Bounded 0 s → 0 < ref_at i s.itable → Gives i s (iput i s)
unfolding iput
iput-Gives i s small held = elim (Option-cases (get_elem? s.itable i)) [
  | inl e ↦ rw (iput, e) tt
  | inr (ip, e) ↦ elim (Bool-cases ((ip.ref == 1) && (ip.valid && (ip.copy.nlink == 0)))) [
    | inr more ↦ rw (iput, e, more) (dropped i s s small held (λ k. refl))
    | inl last ↦ elim (Result-cases (release_inode i s)) [
      | inl f ↦ rw (iput, e, last, f) tt
      | inr ((u, t), f) ↦
          rw (iput, e, last, f)
            (dropped i s t small held
              (Keeps-ok s t (release_inode i s) (release_inode-Keeps i s) f))
    ]
  ]
]

pub iunlockput-Gives :
    (me i : ℕ) (s : Fs) → Bounded 0 s → 0 < ref_at i s.itable → Gives i s (iunlockput me i s)
unfolding iunlockput
iunlockput-Gives me i s small held = elim (Result-cases (iunlock me i s)) [
  | inl e ↦ rw (iunlockput, e, ◌>>◌) tt
  | inr ((u, t), e) ↦
      let same = Keeps-ok s t (iunlock me i s) (iunlock-Keeps me i s) e in
      rw (iunlockput, e, ◌>>◌)
        (Gives-after i s t (iput i t) same
          (iput-Gives i t (λ j. omega (arith, small j, same j)) (omega (arith, held, same i))))
]

-- A result, unless it is a panic, has a reference more in the slot that it returns.
abbrev pub Starts : Fs → Result (ℕ × Fs) → Type 0
Starts s panic = Unit {0}
Starts s (ok (i, t)) = MoreRefs i s t

pub idup-Starts : (i : ℕ) (s : Fs) → Bounded 1 s → 0 < ref_at i s.itable → Starts s (idup i s)
unfolding idup
idup-Starts i s small held =
    let (p, here, count) = slot_of_ref_at s.itable i held in more_refs-MoreRefs i s small here

-- With a slot, one reference more there; without, the references of before.
abbrev pub FoundAt : Option ℕ → Fs → Fs → Type 0
FoundAt none s t = SameRefs s t
FoundAt (some i) s t = MoreRefs i s t

abbrev pub Finds : {A : Type 0} → (A → Option ℕ) → Fs → Result (A × Fs) → Type 0
Finds slot s panic = Unit {0}
Finds slot s (ok (a, t)) = FoundAt (slot a) s t

ialloc_from-Finds :
    (n inum dev type : ℕ) (s : Fs) → Bounded 1 s → Finds (λ o. o) s (ialloc_from n inum dev type s)
unfolding ialloc_from
ialloc_from-Finds zero inum dev type s small = λ k. refl
ialloc_from-Finds (suc n) inum dev type s small =
    let s' =
      log_write (iblock inum s.sb)
        (record s { dinodes = put s.dinodes inum (record empty_dinode { type = type }) }) in
    elim (Bool-cases ((s.dinodes inum).type == 0)) [
      | inr taken ↦ rw (taken, ialloc_from) (ialloc_from-Finds n (inum + 1) dev type s small)
      | inl free ↦ elim (Result-cases (iget dev inum s')) [
        | inl e ↦ rw (free, e, ialloc_from) tt
        | inr ((i, t), e) ↦
            let gets : Gets dev inum s' (ok (i, t)) = rw e at (iget-Gets dev inum s' small) in
            rw (free, e, ialloc_from) (gets.0)
      ]
    ]

-- Unless it panics, `ialloc` has taken one reference in the slot that it returns, and none if no
-- inode is free. The counts must be able to grow by one.
pub ialloc-Finds : (dev type : ℕ) (s : Fs) → Bounded 1 s → Finds (λ o. o) s (ialloc dev type s)
unfolding ialloc
ialloc-Finds dev type s small = ialloc_from-Finds (s.sb.ninodes - 1) 1 dev type s small
