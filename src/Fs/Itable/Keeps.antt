-- ===== src/Fs/Itable/Keeps.antt =====
-- fs.c: the operations on inodes that keep the reference counts: all but `iget`, `idup` and `iput`.
use pplottery.Prelude.{
  ℕ, ◌-◌, ◌≡◌, inl, inr, refl, ap, ◌∙◌, false, not, ◌&&◌, ◌||◌, List, [], ◌∷◌, ◌++◌, ◌==◌,
  if◌then◌else◌, Result, ok, panic, get_elem?, get_or, slt32, Bool-cases, Option-cases,
  Result-cases, ltb, take,
}
use pplottery.Sleeplock.{holdingsleep}
use pplottery.Fs.{Fs, M, ◌>>=◌, ◌>>◌, Inode, balloc, bfree}
use pplottery.Fs.Bitmap.{itable-bfree}
use pplottery.Fs.Itable.{
  modify, on_table, iupdate, ilock, iunlock, loaded, unlocked, direct, indirect, bmap, free_all,
  itrunc, release_inode, with_addr, ndirect, nindirect, entry, set_entry, entries, emptied,
}
use pplottery.Fs.Itable.Refs.{ref_at, SameRefs, SameRefs-trans, modify-SameRefs, itable-balloc}

direct-SameRefs : (i j : ℕ) (ip : Inode) (s : Fs) → SameRefs s (direct i j ip s).1
unfolding direct
direct-SameRefs i j ip s k = elim (Bool-cases (get_or ip.copy.addrs j 0 == 0)) [
  | inr e ↦ rw (e) refl
  | inl e ↦ elim (Bool-cases ((balloc s).0 == 0)) [
    | inl z ↦ rw (e, z) (ap (ref_at k) (itable-balloc s))
    | inr z ↦
        rw (e, z)
          (modify-SameRefs i (with_addr j (balloc s).0) (balloc s).1 (λ p. refl) k
            ∙ ap (ref_at k) (itable-balloc s))
  ]
]

indirect-SameRefs : (a j : ℕ) (s : Fs) → SameRefs s (indirect a j s).1
unfolding indirect set_entry
indirect-SameRefs a j s k = elim (Bool-cases (entry a j s == 0)) [
  | inr e ↦ rw (e) refl
  | inl e ↦ elim (Bool-cases ((balloc s).0 == 0)) [
    | inl z ↦ rw (e, z) (ap (ref_at k) (itable-balloc s))
    | inr z ↦ rw (e, z) (ap (ref_at k) (itable-balloc s))
  ]
]

-- A result, unless it is a panic, keeps the counts.
abbrev pub Keeps : {A : Type 0} → Fs → Result (A × Fs) → Type 0
Keeps s panic = Unit {0}
Keeps s (ok (a, t)) = SameRefs s t

pub Keeps-after :
    {A : Type 0} (s t : Fs) (r : Result (A × Fs)) → SameRefs s t → Keeps t r → Keeps s r
Keeps-after s t panic h k = tt
Keeps-after s t (ok (a, u)) h k = SameRefs-trans s t u h k

pub Keeps-ok :
    {A : Type 0} (s t : Fs) {a : A} (r : Result (A × Fs)) → Keeps s r → r ≡ ok (a, t) → SameRefs s t
Keeps-ok s t r h e = rw e at h

-- Of two steps in a row, the second from any state that the first can lead to.
pub Keeps-then :
    {A B : Type 0} (s : Fs) (m : M A) (f : A → M B)
    → Keeps s (m s)
    → ((a : A) (t : Fs) → m s ≡ ok (a, t) → Keeps t (f a t))
    → Keeps s ((m >>= f) s)
Keeps-then s m f first second = elim (Result-cases (m s)) [
  | inl e ↦ rw (e, ◌>>=◌) tt
  | inr ((a, t), e) ↦
      rw (e, ◌>>=◌) (Keeps-after s t (f a t) (Keeps-ok s t (m s) first e) (second a t e))
]

pub Keeps-next :
    {A B : Type 0} (s : Fs) (m : M A) (n : M B)
    → Keeps s (m s)
    → ((t : Fs) → Keeps t (n t))
    → Keeps s ((m >> n) s)
Keeps-next s m n first second = Keeps-then s m (λ a. n) first (λ a t e. second t)

pub bmap-Keeps : (i bn : ℕ) (s : Fs) → Keeps s (bmap i bn s)
unfolding bmap
bmap-Keeps i bn s = elim (Option-cases (get_elem? s.itable i)) [
  | inl e ↦ rw (bmap, e) tt
  | inr (ip, e) ↦ elim (Bool-cases (ltb bn ndirect)) [
    | inl small ↦ rw (bmap, e, small) (direct-SameRefs i bn ip s)
    | inr large ↦ elim (Bool-cases (ltb (bn - ndirect) nindirect)) [
      | inr out ↦ rw (bmap, e, large, out) tt
      | inl more ↦ elim (Bool-cases ((direct i ndirect ip s).0 == 0)) [
        | inl z ↦ rw (bmap, e, large, more, z) (direct-SameRefs i ndirect ip s)
        | inr z ↦
            rw (bmap, e, large, more, z)
              (SameRefs-trans s (direct i ndirect ip s).1
                (indirect (direct i ndirect ip s).0 (bn - ndirect) (direct i ndirect ip s).1).1
                (direct-SameRefs i ndirect ip s)
                (indirect-SameRefs (direct i ndirect ip s).0 (bn - ndirect)
                  (direct i ndirect ip s).1))
      ]
    ]
  ]
]

pub iupdate-Keeps : (i : ℕ) (s : Fs) → Keeps s (iupdate i s)
unfolding iupdate
iupdate-Keeps i s = elim (Option-cases (get_elem? s.itable i)) [
  | inl e ↦ rw (iupdate, e) tt
  | inr (ip, e) ↦ rw (iupdate, e) (λ k. refl)
]

free_all-Keeps : (l : List ℕ) (s : Fs) → Keeps s (free_all l s)
unfolding free_all
free_all-Keeps [] s = λ k. refl
free_all-Keeps (a ∷ rest) s = elim (Bool-cases (a == 0)) [
  | inl z ↦ rw z (free_all-Keeps rest s)
  | inr z ↦ elim (Result-cases (bfree a s)) [
    | inl e ↦ rw (z, e) tt
    | inr ((u, t), e) ↦
        rw (z, e)
          (Keeps-after s t (free_all rest t) (λ k. ap (ref_at k) (itable-bfree a s t e))
            (free_all-Keeps rest t))
  ]
]

changed-Keeps :
    {A : Type 0} (i : ℕ) (f : Inode → Inode) (s : Fs) (m : M A)
    → ((p : Inode) → (f p).ref ≡ p.ref)
    → Keeps (on_table (modify i f) s) (m (on_table (modify i f) s))
    → Keeps s (m (on_table (modify i f) s))
changed-Keeps i f s m keep h =
    Keeps-after s (on_table (modify i f) s) (m (on_table (modify i f) s))
      (modify-SameRefs i f s keep) h

-- The end of `itrunc`, and of `release_inode`.
abbrev finish : ℕ → M (Unit {0})
finish i t = iupdate i (on_table (modify i emptied) t)

finish-Keeps : (i : ℕ) (t : Fs) → Keeps t (finish i t)
finish-Keeps i t =
    changed-Keeps i emptied t (iupdate i) (λ p. refl)
      (iupdate-Keeps i (on_table (modify i emptied) t))

abbrev untyped : Inode → Inode
untyped ip = record ip { copy = record (ip.copy) { type = 0 } }

abbrev invalid : Inode → Inode
invalid ip = record (unlocked ip) { valid = false }

abbrev clear_type : ℕ → M (Unit {0})
clear_type i t = iupdate i (on_table (modify i untyped) t)

abbrev drop_lock : ℕ → M (Unit {0})
drop_lock i t = ok (tt, on_table (modify i invalid) t)

clear_type-Keeps : (i : ℕ) (t : Fs) → Keeps t (clear_type i t)
clear_type-Keeps i t =
    changed-Keeps i untyped t (iupdate i) (λ p. refl)
      (iupdate-Keeps i (on_table (modify i untyped) t))

pub itrunc-Keeps : (i : ℕ) (s : Fs) → Keeps s (itrunc i s)
unfolding itrunc
itrunc-Keeps i s = elim (Option-cases (get_elem? s.itable i)) [
  | inl e ↦ rw (itrunc, e) tt
  | inr (ip, e) ↦
      let a = get_or ip.copy.addrs ndirect 0 in
      let tail = if a == 0 then [] else entries nindirect 0 a s ++ (a ∷ []) in
      rw (itrunc, e)
        (Keeps-next s (free_all (take ndirect ip.copy.addrs)) (free_all tail >> finish i)
          (free_all-Keeps (take ndirect ip.copy.addrs) s)
          (λ t. Keeps-next t (free_all tail) (finish i) (free_all-Keeps tail t) (finish-Keeps i)))
]

pub release_inode-Keeps : (i : ℕ) (s : Fs) → Keeps s (release_inode i s)
unfolding release_inode
release_inode-Keeps i s =
    Keeps-next s (itrunc i) (clear_type i >> drop_lock i) (itrunc-Keeps i s) (λ t.
      Keeps-next t (clear_type i) (drop_lock i) (clear_type-Keeps i t)
        (λ u. modify-SameRefs i invalid u (λ p. refl)))

pub ilock-Keeps : (me i : ℕ) (s : Fs) → Keeps s (ilock me i s)
unfolding ilock
ilock-Keeps me i s = elim (Option-cases (get_elem? s.itable i)) [
  | inl e ↦ rw (ilock, e) tt
  | inr (ip, e) ↦ elim (Bool-cases (slt32 ip.ref 1)) [
    | inl bad ↦ rw (ilock, e, bad) tt
    | inr good ↦ elim (Bool-cases (not ip.valid && ((s.dinodes ip.inum).type == 0))) [
      | inl bad ↦ rw (ilock, e, good, bad) tt
      | inr fine ↦ rw (ilock, e, good, fine) (modify-SameRefs i (loaded me s.dinodes) s (λ p. refl))
    ]
  ]
]

pub iunlock-Keeps : (me i : ℕ) (s : Fs) → Keeps s (iunlock me i s)
unfolding iunlock
iunlock-Keeps me i s = elim (Option-cases (get_elem? s.itable i)) [
  | inl e ↦ rw (iunlock, e) tt
  | inr (ip, e) ↦ elim (Bool-cases (not (holdingsleep me ip.lock) || slt32 ip.ref 1)) [
    | inl bad ↦ rw (iunlock, e, bad) tt
    | inr good ↦ rw (iunlock, e, good) (modify-SameRefs i unlocked s (λ p. refl))
  ]
]
