-- ===== src/Sysfile/Paths/Steps.antt =====
-- sysfile.c: the account of the steps that the system calls on paths are made of.
use pplottery.Prelude.{
  ℕ, zero, suc, ◌+◌, ◌≤◌, ◌≡◌, refl, ap, sym, subst, inl, inr, none, some, List, [], ◌∷◌, ◌==◌,
  arith, length, Result-cases, Bool-cases,
}
use pplottery.Fs.{Fs}
use pplottery.Fs.Itable.{ilock, iunlock, iput, iunlockput, iupdate}
use pplottery.Fs.Itable.Keeps.{
  Keeps, Keeps-ok, Keeps-after, ilock-Keeps, iunlock-Keeps, iupdate-Keeps,
}
use pplottery.Fs.Itable.Gives.{iput-Gives, iunlockput-Gives}
use pplottery.Fs.Dirs.{dirlookup, dirlink, read_entry, de_inum, dirent_size}
use pplottery.Fs.Dirs.Refs.{dirlookup-Finds, dirlink-Keeps, slot_of, read_entry-Keeps}
use pplottery.Fs.Names.{namei, nameiparent}
use pplottery.Fs.Names.Refs.{place, namei-Finds, nameiparent-Finds}
use pplottery.Sysfile.{Sys, lift}
use pplottery.Sysfile.Paths.{look, look_parent, leave, drop, isdirempty_from, isdirempty, no_name}
use pplottery.Sysfile.Runs.{weaken, Ends, Runs, next, done}
use pplottery.Sysfile.Ledger.{held, Sound, Owes, ends_op, lift_keeps, lift_gives, lift_finds}

isdirempty_from-Keeps : (n off dp : ℕ) (s : Fs) → Keeps s (isdirempty_from n off dp s)
unfolding isdirempty_from
isdirempty_from-Keeps zero off dp s = λ k. refl
isdirempty_from-Keeps (suc n) off dp s = elim (Result-cases (read_entry dp off s)) [
  | inl e ↦ rw (e, isdirempty_from) tt
  | inr ((none, t), e) ↦ rw (e, isdirempty_from) tt
  | inr ((some de, t), e) ↦
      let same = Keeps-ok s t (read_entry dp off s) (read_entry-Keeps dp off s) e in
      elim (Bool-cases (de_inum de == 0)) [
        | inr full ↦ rw (e, full, isdirempty_from) same
        | inl free ↦
            rw (e, free, isdirempty_from)
              (Keeps-after s t (isdirempty_from n (off + dirent_size) dp t) same
                (isdirempty_from-Keeps n (off + dirent_size) dp t))
      ]
]

pub isdirempty-Keeps : (dp size : ℕ) (s : Fs) → Keeps s (isdirempty dp size s)
unfolding isdirempty
isdirempty-Keeps dp size s = isdirempty_from-Keeps _ _ dp s

module _ (s0 : Sys) (sound : Sound s0) (me : ℕ) {n : ℕ} where
  module _ {h : List ℕ} (i : ℕ) (few : length h ≤ 4) where
    pub locks : Runs (Owes s0 n h) (lift (ilock me i)) (λ a. Owes s0 n h)
    locks = lift_keeps s0 sound (ilock me i) (omega (arith, few)) (λ t b. ilock-Keeps me i t)

    pub unlocks : Runs (Owes s0 n h) (lift (iunlock me i)) (λ a. Owes s0 n h)
    unlocks = lift_keeps s0 sound (iunlock me i) (omega (arith, few)) (λ t b. iunlock-Keeps me i t)

    pub updates : Runs (Owes s0 n h) (lift (iupdate i)) (λ a. Owes s0 n h)
    updates = lift_keeps s0 sound (iupdate i) (omega (arith, few)) (λ t b. iupdate-Keeps i t)

    pub puts : Runs (Owes s0 n (i ∷ h)) (lift (iput i)) (λ a. Owes s0 n h)
    puts = lift_gives s0 sound i (iput i) few (iput-Gives i)

    pub unlockputs : Runs (Owes s0 n (i ∷ h)) (lift (iunlockput me i)) (λ a. Owes s0 n h)
    unlockputs = lift_gives s0 sound i (iunlockput me i) few (iunlockput-Gives me i)

    pub links :
        (name : List ℕ) (inum : ℕ)
        → Runs (Owes s0 n h) (lift (dirlink i name inum)) (λ a. Owes s0 n h)
    links name inum =
        lift_keeps s0 sound (dirlink i name inum) (omega (arith, few))
          (λ t b. dirlink-Keeps i name inum t (λ k. omega (arith, b k)))

    pub looks_up :
        (name : List ℕ)
        → Runs (Owes s0 n h) (lift (dirlookup i name)) (λ o. Owes s0 n (held (slot_of o) h))
    looks_up name =
        lift_finds s0 sound slot_of (dirlookup i name) few
          (λ t b home. dirlookup-Finds i name t (λ k. omega (arith, b k)))

  pub looks :
      {h : List ℕ} (path : List ℕ)
      → length h ≤ 4
      → Runs (Owes s0 n h) (look me path) (λ d. Owes s0 n (held (place d) h))
  unfolding look
  looks {h} path few s o =
      let at_home : s.cwd ≡ s0.cwd = ap (λ (u : Sys). u.cwd) o.frame in
      subst (λ c. Ends (λ d. Owes s0 n (held (place d) h)) (lift (namei me c path) s)) (sym at_home)
        (lift_finds s0 sound place (λ t. namei me s0.cwd path t) few
          (λ t b home. namei-Finds me s0.cwd path t b home) s o)

  pub looks_parent :
      {h : List ℕ} (path : List ℕ)
      → length h ≤ 4
      → Runs (Owes s0 n h) (look_parent me path) (λ d. Owes s0 n (held (place d) h))
  unfolding look_parent
  looks_parent {h} path few s o =
      let at_home : s.cwd ≡ s0.cwd = ap (λ (u : Sys). u.cwd) o.frame in
      subst (λ c. Ends (λ d. Owes s0 n (held (place d) h)) (lift (nameiparent me c path no_name) s))
        (sym at_home)
        (lift_finds s0 sound place (λ t. nameiparent me s0.cwd path no_name t) few
          (λ t b home. nameiparent-Finds me s0.cwd path no_name t b home) s o)

  -- The ways out of a call.
  pub leaves_with :
      {A : Type 0} {h : List ℕ} (Q : A → Sys → Type 0) (a : A)
      → ((t : Sys) → Owes s0 n h t → Q a t)
      → Runs (Owes s0 (n + 1) h) (leave a) Q
  unfolding leave
  leaves_with Q a then_so = next (weaken ends_op (λ u t o. then_so t o)) (done a)

  pub leaves :
      {A : Type 0} {h : List ℕ} (a : A) → Runs (Owes s0 (n + 1) h) (leave a) (λ b. Owes s0 n h)
  leaves {h = h} a = leaves_with (λ b. Owes s0 n h) a (λ t o. o)

module _ (s0 : Sys) (sound : Sound s0) (me : ℕ) where
  pub drops_with :
      {A : Type 0} (Q : A → Sys → Type 0) (i : ℕ) (a : A)
      → ((t : Sys) → Owes s0 0 [] t → Q a t)
      → Runs (Owes s0 1 (i ∷ [])) (drop me i a) Q
  unfolding drop
  drops_with Q i a then_so =
      next (unlockputs s0 sound me i (omega arith)) (leaves_with s0 sound me Q a then_so)

  pub drops :
      {A : Type 0} (i : ℕ) (a : A) → Runs (Owes s0 1 (i ∷ [])) (drop me i a) (λ b. Owes s0 0 [])
  drops i a = drops_with (λ b. Owes s0 0 []) i a (λ t o. o)
