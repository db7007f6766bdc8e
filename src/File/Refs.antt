-- ===== src/File/Refs.antt =====
-- The reference counts of open files.
use pplottery.Prelude.{
  ℕ, none, ◌≤◌, zero, suc, ◌+◌, ◌-◌, ◌^◌, ◌<◌, ◌≡◌, refl, sym, ap, ◌∙◌, get_elem?-set_self,
  lt-length_of_get_elem?, true, false, some, List, [], ◌∷◌, ◌==◌, get_elem?, set, add32, sub32,
  slt32, ok, arith, Bool-cases, inl, inr, some_inj,
}
use pplottery.File.{File, Ftable, filealloc, filedup, fileclose, closing, nothing, fd_none}

pub set-set {ℓ} : {A : Type ℓ} (xs : List A) (i : ℕ) (a b : A) → set (set xs i a) i b ≡ set xs i b
set-set [] i a b = refl
set-set (x ∷ xs) zero a b = refl
set-set (x ∷ xs) (suc i) a b = ap (λ l. x ∷ l) (set-set xs i a b)

pub set_same {ℓ} :
    {A : Type ℓ} (xs : List A) (i : ℕ) (a : A) → get_elem? xs i ≡ some a → set xs i a ≡ xs
set_same [] i a h = refl
set_same (x ∷ xs) zero a h = ap (λ y. y ∷ xs) (sym (some_inj h))
set_same (x ∷ xs) (suc i) a h = ap (λ l. x ∷ l) (set_same xs i a h)

-- The file that is closed for good, and its slot then.
abbrev pub closed : File → File
closed f = record f { ref = 0; type = fd_none }

filealloc-closed :
    (t : Ftable) (i k : ℕ) (f : File)
    → get_elem? t i ≡ some f
    → (j : ℕ) × ((filealloc k (set t i (closed f))).0 ≡ some j)
unfolding filealloc
filealloc-closed [] i k f h = cc
filealloc-closed (g ∷ gs) zero k f h = (k, refl)
filealloc-closed (g ∷ gs) (suc i) k f h = elim (Bool-cases (g.ref == 0)) [
  | inl free ↦ (k, rw free refl)
  | inr used ↦ let (j, e) = filealloc-closed gs i (k + 1) f h in (j, rw used e)
]

filedup_undone :
    (i : ℕ) (t : Ftable) (f : File)
    → get_elem? t i ≡ some f
    → 0 < f.ref
    → f.ref < 2 ^ 31 - 1
    → (t' : Ftable) × (filedup i t ≡ ok t') × (fileclose i t' ≡ ok (nothing, t))
unfolding filedup fileclose
filedup_undone i t f here pos fits =
    let f1 = record f { ref = f.ref + 1 } in
    let one_more : add32 f.ref 1 ≡ f.ref + 1 = omega arith in
    let is_open : slt32 f.ref 1 ≡ false = ground arith in
    let still_open : slt32 (f.ref + 1) 1 ≡ false = ground arith in
    let back : sub32 (f.ref + 1) 1 ≡ f.ref = omega arith in
    let left : slt32 0 f.ref ≡ true = ground arith in
    let here1 = get_elem?-set_self t i f1 (lt-length_of_get_elem? t i here) in
    (
      set t i f1,
      rw (filedup, here, is_open, one_more) refl,
      rw (fileclose, here1, still_open, back, left)
          (ap (λ l. ok (nothing, l)) (set-set t i f1 f ∙ set_same t i f here)),
    )

-- A `filedup` of an open file is undone by one `fileclose`, which closes nothing. The `fileclose` of
-- the only reference closes the pipe or the inode behind the file, and gives the slot back:
-- `filealloc` then finds a slot.
fileclose-filedup :
    (i : ℕ) (t : Ftable) (f : File)
    → get_elem? t i ≡ some f
    → 0 < f.ref
    → f.ref < 2 ^ 31 - 1
    → ((t' : Ftable) × (filedup i t ≡ ok t') × (fileclose i t' ≡ ok (nothing, t)))
      × (f.ref ≡ 1
          → (fileclose i t ≡ ok (closing f, set t i (closed f)))
            × ((k : ℕ) → (j : ℕ) × ((filealloc k (set t i (closed f))).0 ≡ some j)))
unfolding fileclose
fileclose-filedup i t f here pos fits = (
  filedup_undone i t f here pos fits,
  (λ last. (rw (fileclose, here, last) refl, (λ k. filealloc-closed t i k f here))),
)

-- `filealloc` takes a slot without references, or none and changes nothing.
pub filealloc-none : (k : ℕ) (t : Ftable) → (filealloc k t).0 ≡ none → (filealloc k t).1 ≡ t
unfolding filealloc
filealloc-none k [] e = refl
filealloc-none k (f ∷ fs) e = elim (Bool-cases (f.ref == 0)) [
  | inl free ↦ cc
  | inr used ↦ rw used (ap (λ l. f ∷ l) (filealloc-none (k + 1) fs (rw used at e)))
]

pub filealloc-some :
    (k j : ℕ) (t : Ftable)
    → (filealloc k t).0 ≡ some j
    → (f : File) × (k ≤ j)
      × (get_elem? t (j - k) ≡ some f)
      × (f.ref ≡ 0)
      × ((filealloc k t).1 ≡ set t (j - k) (record f { ref = 1 }))
unfolding filealloc
filealloc-some k j [] e = cc
filealloc-some k j (f ∷ fs) e = elim (Bool-cases (f.ref == 0)) [
  | inl free ↦
      let at : j - k ≡ 0 = ground (arith, some_inj (rw free at e)) in
      (
        f,
        ground (arith, some_inj (rw free at e)),
        rw at refl,
        ground (arith, free),
        rw (free, at) refl,
      )
  | inr used ↦
      let (g, le, here, zero_ref, e') = filealloc-some (k + 1) j fs (rw used at e) in
      let at : j - k ≡ suc (j - (k + 1)) = omega (arith, le) in
      (g, omega (arith, le), rw at here, zero_ref, rw (used, at) (ap (λ l. f ∷ l) e'))
]

pub fileclose-last :
    (j : ℕ) (t : Ftable) (g : File)
    → get_elem? t j ≡ some g
    → g.ref ≡ 1
    → fileclose j t ≡ ok (closing g, set t j (closed g))
unfolding fileclose
fileclose-last j t g here last = rw (fileclose, here, last) refl
