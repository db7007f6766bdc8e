-- ===== src/Sysfile/Shared.antt =====
-- sysfile.c: the descriptors of a process, and the references to files.
pub mod Calls
use pplottery.Prelude.{
  ℕ, zero, suc, ◌+◌, ◌-◌, ◌^◌, ◌≤◌, ◌<◌, ◌≡◌, refl, ◌∙◌, inl, inr, Option, none, some, List, [],
  ◌∷◌, arith, get_elem?, set, length, Option-cases, Result-cases, length-set, some_inj,
}
use pplottery.Fs.Itable.Refs.{at_slot}
use pplottery.File.{Closing, filealloc, fileclose, nothing, pipe_closes, inode_put}
use pplottery.File.Refs.{filealloc-none}
use pplottery.File.Counts.{
  Clean, Clean-filealloc, Clean-fileclose, file_refs, file_refs-filealloc, file_refs-fileclose,
}
use pplottery.Sysfile.{
  Sys, M, ◌>>=◌, ◌>>◌, first_free, fdalloc, clear_fd, file_alloc, file_close, close_table,
  finish_close, nofile, lift, begin_op, end_op,
}
use pplottery.Fs.Itable.{iput}
use pplottery.Sysfile.Runs.{bind, panics, ends, Runs}
use pplottery.Sysfile.Ledger.{count-le, count, held}

abbrev pub held_at : Option ℕ → ℕ → ℕ
held_at none k = 0
held_at (some j) k = at_slot j k

-- The number of descriptors that stand for file `k`.
abbrev pub fds_of : ℕ → List (Option ℕ) → ℕ
fds_of k [] = 0
fds_of k (o ∷ os) = held_at o k + fds_of k os

fds_of-le : (k : ℕ) (l : List (Option ℕ)) → fds_of k l ≤ length l
fds_of-le k [] = omega arith
fds_of-le k (none ∷ l) = ground (arith, fds_of-le k l)
fds_of-le k (some j ∷ l) = ground (arith, fds_of-le k l)

pub fds_of-set :
    (l : List (Option ℕ)) (fd k : ℕ) (x y : Option ℕ)
    → get_elem? l fd ≡ some x
    → fds_of k (set l fd y) + held_at x k ≡ fds_of k l + held_at y k
fds_of-set [] fd k x y e = cc
fds_of-set (o ∷ l) zero k x y e = rw (some_inj e) (omega arith)
fds_of-set (o ∷ l) (suc fd) k x y e = omega (arith, fds_of-set l fd k x y e)

first_free_lem :
    (n fd : ℕ) (l : List (Option ℕ))
    → first_free n l ≡ some fd
    → (n ≤ fd) × (get_elem? l (fd - n) ≡ some none)
first_free_lem n fd [] e = cc
first_free_lem n fd (none ∷ l) e =
    let at : fd - n ≡ 0 = omega (arith, some_inj e) in (omega (arith, some_inj e), rw at refl)
first_free_lem n fd (some j ∷ l) e =
    let (le, here) = first_free_lem (n + 1) fd l e in
    let at : fd - n ≡ suc (fd - (n + 1)) = omega (arith, le) in (omega (arith, le), rw at here)

pub free_fd : (fd : ℕ) (l : List (Option ℕ)) → first_free 0 l ≡ some fd → get_elem? l fd ≡ some none
free_fd fd l e = let at : fd - 0 ≡ fd = omega arith in rw at at (first_free_lem 0 fd l e).1

-- Each file has a reference for each descriptor of the process that stands for it, one for each place
-- of `h`, and `c` that belong to others, and no file without references is set up; `E` is something
-- else that is known of the descriptors.
pub record Shares (c : ℕ → ℕ) (E : List (Option ℕ) → Type 0) (h : List ℕ) (s : Sys) : Type 0 where
  pub balance : (k : ℕ) → file_refs k s.ftable ≡ c k + fds_of k s.ofile + count h k
  pub fds : length s.ofile ≡ nofile
  pub known : E s.ofile
  pub clean : Clean s.ftable

module _ {c : ℕ → ℕ} (room : (k : ℕ) → c k + 32 < 2 ^ 31) where
  pub bounded :
      {E : List (Option ℕ) → Type 0} {h : List ℕ} (s : Sys)
      → length h ≤ 8
      → Shares c E h s
      → (k : ℕ) → file_refs k s.ftable + 1 < 2 ^ 31
  bounded {h = h} s few o k =
      omega (arith, room k, o.balance k, count-le h k, fds_of-le k s.ofile, o.fds, few)

  module _ {E : List (Option ℕ) → Type 0} {h : List ℕ} where
    pub allocates : Runs (Shares c E h) file_alloc (λ o. Shares c E (held o h))
    unfolding file_alloc
    allocates s o = elim (Option-cases (filealloc 0 s.ftable).0) [
      | inl e ↦ let same = filealloc-none 0 s.ftable e in rw (e, same) (ends o)
      | inr (j, e) ↦ rw e (
          ends (record {
            balance = (λ k. omega (arith, o.balance k, file_refs-filealloc s.ftable j k e));
            fds = o.fds;
            known = o.known;
            clean = Clean-filealloc s.ftable j o.clean e;
          }))
    ]

    closes_table :
        (j : ℕ) → length h ≤ 7 → Runs (Shares c E (j ∷ h)) (close_table j) (λ x. Shares c E h)
    unfolding close_table
    closes_table j few s o = elim (Result-cases (fileclose j s.ftable)) [
      | inl e ↦ rw (close_table, e) panics
      | inr ((x, t), e) ↦
          rw (close_table, e)
            (ends (record {
              balance = (λ k. omega (
                arith,
                o.balance k,
                file_refs-fileclose s.ftable t j k x
                    (omega (arith, bounded {h = j ∷ h} s (omega (arith, few)) o j)) e,
              ));
              fds = o.fds;
              known = o.known;
              clean = Clean-fileclose s.ftable t j x o.clean e;
            }))
    ]

    finishes : (x : Closing) → Runs (Shares c E h) (finish_close x) (λ u. Shares c E h)
    unfolding finish_close lift begin_op end_op ◌>>◌
    finishes nothing s o = ends o
    finishes (pipe_closes p w) s o =
        ends (record { balance = o.balance; fds = o.fds; known = o.known; clean = o.clean })
    finishes (inode_put i) s o = elim (Result-cases (iput i s.fs)) [
      | inl e ↦ rw (finish_close, ◌>>◌, lift, e) panics
      | inr ((u, t), e) ↦
          rw (finish_close, ◌>>◌, lift, e)
            (ends (record { balance = o.balance; fds = o.fds; known = o.known; clean = o.clean }))
    ]

    pub closes :
        (j : ℕ) → length h ≤ 7 → Runs (Shares c E (j ∷ h)) (file_close j) (λ u. Shares c E h)
    unfolding file_close
    closes j few = bind (closes_table j few) finishes

    pub clears :
        {E' : List (Option ℕ) → Type 0} (fd j : ℕ)
        → ((l : List (Option ℕ)) → E l → (get_elem? l fd ≡ some (some j)) × E' (set l fd none))
        → Runs (Shares c E h) (clear_fd fd) (λ u. Shares c E' (j ∷ h))
    unfolding clear_fd
    clears fd j there s o =
        let (here, known') = there s.ofile o.known in
        ends (record {
          balance = (λ k. omega (arith, o.balance k, fds_of-set s.ofile fd k (some j) none here));
          fds = length-set s.ofile fd none ∙ o.fds;
          known = known';
          clean = o.clean;
        })

    pub allocates_fd :
        {A : Type 0} {Q : A → Sys → Type 0} (f : Option ℕ → M A) (E' : ℕ → List (Option ℕ) → Type 0)
        (j : ℕ)
        → ((l : List (Option ℕ)) (fd : ℕ)
            → E l
            → get_elem? l fd ≡ some none
            → E' fd (set l fd (some j)))
        → Runs (Shares c E (j ∷ h)) (f none) Q
        → ((fd : ℕ) → Runs (Shares c (E' fd) h) (f (some fd)) Q)
        → Runs (Shares c E (j ∷ h)) (fdalloc j >>= f) Q
    unfolding ◌>>=◌ fdalloc
    allocates_fd f E' j learn without with_fd s o = elim (Option-cases (first_free 0 s.ofile)) [
      | inl e ↦ rw (◌>>=◌, fdalloc, e) (without s o)
      | inr (fd, e) ↦
          let here = free_fd fd s.ofile e in
          rw (◌>>=◌, fdalloc, e)
            (with_fd fd (record s { ofile = set s.ofile fd (some j) })
              (record {
                balance =
                    (λ k. omega (arith, o.balance k, fds_of-set s.ofile fd k none (some j) here));
                fds = length-set s.ofile fd (some j) ∙ o.fds;
                known = learn s.ofile fd o.known here;
                clean = o.clean;
              }))
    ]

pub Shares-swap :
    {c : ℕ → ℕ} {E : List (Option ℕ) → Type 0} {i j : ℕ} {h : List ℕ} (s : Sys)
    → Shares c E (i ∷ j ∷ h) s
    → Shares c E (j ∷ i ∷ h) s
Shares-swap s o = record {
  balance = (λ k. omega (arith, o.balance k));
  fds = o.fds;
  known = o.known;
  clean = o.clean;
}

-- Nothing more is known.
abbrev pub Any : List (Option ℕ) → Type 0
Any l = Unit {0}
