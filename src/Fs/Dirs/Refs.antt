-- ===== src/Fs/Dirs/Refs.antt =====
-- fs.c: what `dirlookup` and `dirlink` do to the reference counts of inodes.
use pplottery.Prelude.{
  ℕ, zero, suc, ◌+◌, inl, inr, refl, ◌∙◌, not, Option, none, some, List, ◌==◌, Result, ok, panic,
  get_or, minus_one, if◌then◌else◌, ==_iff, arith, get_elem?, Bool-cases, Option-cases,
  Result-cases,
}
use pplottery.Fs.{Fs, Inode, ◌>>◌}
use pplottery.Fs.Itable.{iget, iput}
use pplottery.Fs.Itable.Gives.{Gives, iput-Gives, FoundAt, Finds}
use pplottery.Fs.Itable.Refs.{SameRefs, Bounded, Gets, iget-Gets}
use pplottery.Fs.Itable.Keeps.{Keeps, Keeps-ok, Keeps-after}
use pplottery.Fs.Files.{readi, writei}
use pplottery.Fs.Files.Refs.{readi-Keeps, writei-Keeps}
use pplottery.Fs.Dirs.{
  read_entry, dirlookup_from, dirlookup, dirent_size, t_dir, de_inum, de_name, same_name,
  entries_of, find_slot, new_entry, dirlink,
}

pub read_entry-Keeps : (dp off : ℕ) (s : Fs) → Keeps s (read_entry dp off s)
unfolding read_entry
read_entry-Keeps dp off s = elim (Result-cases (readi dp off dirent_size (λ tot m. m) s)) [
  | inl e ↦ rw (read_entry, e) tt
  | inr (((r, out), t), e) ↦
      rw (read_entry, e)
        (Keeps-ok s t (readi dp off dirent_size (λ tot m. m) s)
          (readi-Keeps dp off dirent_size (λ tot m. m) s) e)
]

Found-after : (i : Option ℕ) (s t u : Fs) → SameRefs s t → FoundAt i t u → FoundAt i s u
Found-after none s t u h f = λ k. f k ∙ h k
Found-after (some i) s t u h f = λ k. omega (arith, f k, h k)

Finds-after :
    {A : Type 0} (slot : A → Option ℕ) (s t : Fs) (r : Result (A × Fs))
    → SameRefs s t
    → Finds slot t r
    → Finds slot s r
Finds-after slot s t panic h f = tt
Finds-after slot s t (ok (a, u)) h f = Found-after (slot a) s t u h f

abbrev pub slot_of : Option (ℕ × ℕ) → Option ℕ
slot_of none = none
slot_of (some (i, off)) = some i

dirlookup_from-Finds :
    (n off dp : ℕ) (ip : Inode) (name : List ℕ) (s : Fs)
    → Bounded 1 s
    → Finds slot_of s (dirlookup_from n off dp ip name s)
unfolding dirlookup_from
dirlookup_from-Finds zero off dp ip name s small = λ k. refl
dirlookup_from-Finds (suc n) off dp ip name s small = elim (Result-cases (read_entry dp off s)) [
  | inl e ↦ rw (e, dirlookup_from) tt
  | inr ((none, t), e) ↦ rw (e, dirlookup_from) tt
  | inr ((some de, t), e) ↦
      let same = Keeps-ok s t (read_entry dp off s) (read_entry-Keeps dp off s) e in
      let small_t : Bounded 1 t = (λ k. omega (arith, small k, same k)) in
      let ih =
        Finds-after slot_of s t (dirlookup_from n (off + dirent_size) dp ip name t) same
          (dirlookup_from-Finds n (off + dirent_size) dp ip name t small_t) in
      elim (Bool-cases (de_inum de == 0)) [
        | inl free ↦ rw (e, free, dirlookup_from) ih
        | inr taken ↦ elim (Bool-cases (same_name name (de_name de))) [
          | inr other ↦ rw (e, taken, other, dirlookup_from) ih
          | inl match ↦ elim (Result-cases (iget ip.dev (de_inum de) t)) [
            | inl f ↦ rw (e, taken, match, f, dirlookup_from) tt
            | inr ((i, u), f) ↦
                let gets : Gets ip.dev (de_inum de) t (ok (i, u)) =
                  rw f at (iget-Gets ip.dev (de_inum de) t small_t) in
                rw (e, taken, match, f, dirlookup_from) (λ k. omega (arith, gets.0 k, same k))
          ]
        ]
      ]
]

-- `dirlookup` holds one reference more in the slot that it returns, and none if it returns null.
pub dirlookup-Finds :
    (dp : ℕ) (name : List ℕ) (s : Fs) → Bounded 1 s → Finds slot_of s (dirlookup dp name s)
unfolding dirlookup
dirlookup-Finds dp name s small = elim (Option-cases (get_elem? s.itable dp)) [
  | inl e ↦ rw (dirlookup, e) tt
  | inr (ip, e) ↦ elim (Bool-cases (not (ip.copy.type == t_dir))) [
    | inl bad ↦ rw (dirlookup, e, bad) tt
    | inr good ↦ rw (dirlookup, e, good) (dirlookup_from-Finds (entries_of ip) 0 dp ip name s small)
  ]
]

find_slot-Keeps : (n off dp : ℕ) (s : Fs) → Keeps s (find_slot n off dp s)
unfolding find_slot
find_slot-Keeps zero off dp s = λ k. refl
find_slot-Keeps (suc n) off dp s = elim (Result-cases (read_entry dp off s)) [
  | inl e ↦ rw (e, find_slot) tt
  | inr ((none, t), e) ↦ rw (e, find_slot) tt
  | inr ((some de, t), e) ↦
      let same = Keeps-ok s t (read_entry dp off s) (read_entry-Keeps dp off s) e in
      elim (Bool-cases (de_inum de == 0)) [
        | inl free ↦ rw (e, free, find_slot) same
        | inr taken ↦
            rw (e, taken, find_slot)
              (Keeps-after s t (find_slot n (off + dirent_size) dp t) same
                (find_slot-Keeps n (off + dirent_size) dp t))
      ]
]

-- `dirlink` from the search of an empty entry on.
write_entry-Keeps :
    (dp inum : ℕ) (name : List ℕ) (t : Fs)
    → Keeps t (elim (get_elem? t.itable dp) [
      | none ↦ panic
      | some ip ↦ elim (find_slot (entries_of ip) 0 dp t) [
        | panic ↦ panic
        | ok (off, u) ↦
            elim (writei dp off dirent_size
              (λ x. get_or (new_entry inum name) x 0)
              (λ tot m. m)
              u) [ panic ↦ panic | ok (r, v) ↦ ok (if r == dirent_size then 0 else minus_one, v) ]
      ]
    ])
write_entry-Keeps dp inum name t = elim (Option-cases (get_elem? t.itable dp)) [
  | inl e ↦ rw e tt
  | inr (ip, e) ↦ elim (Result-cases (find_slot (entries_of ip) 0 dp t)) [
    | inl f ↦ rw (e, f) tt
    | inr ((off, u), f) ↦
        let bytes : ℕ → ℕ = (λ x. get_or (new_entry inum name) x 0) in
        let same =
          Keeps-ok t u (find_slot (entries_of ip) 0 dp t) (find_slot-Keeps (entries_of ip) 0 dp t)
            f in
        elim (Result-cases (writei dp off dirent_size bytes (λ tot m. m) u)) [
          | inl g ↦ rw (e, f, g) tt
          | inr ((r, v), g) ↦
              let same' =
                Keeps-ok u v (writei dp off dirent_size bytes (λ tot m. m) u)
                  (writei-Keeps dp off dirent_size bytes (λ tot m. m) u) g in
              rw (e, f, g) (λ k. same' k ∙ same k)
        ]
  ]
]

-- `dirlink` keeps the counts, also of an inode that it finds under the name.
pub dirlink-Keeps :
    (dp : ℕ) (name : List ℕ) (inum : ℕ) (s : Fs) → Bounded 1 s → Keeps s (dirlink dp name inum s)
unfolding dirlink
dirlink-Keeps dp name inum s small = elim (Result-cases (dirlookup dp name s)) [
  | inl e ↦ rw (dirlink, e) tt
  | inr ((none, t), e) ↦
      let same : Finds slot_of s (ok (none, t)) = rw e at (dirlookup-Finds dp name s small) in
      rw (dirlink, e) (Keeps-after s t _ same (write_entry-Keeps dp inum name t))
  | inr ((some (i, off), t), e) ↦
      let more : Finds slot_of s (ok (some (i, off), t)) =
        rw e at (dirlookup-Finds dp name s small) in
      elim (Result-cases (iput i t)) [
        | inl f ↦ rw (dirlink, e, f, ◌>>◌) tt
        | inr ((a, u), f) ↦
            let less : Gives i t (ok (a, u)) = rw f at (
              iput-Gives i t (λ k. ground (arith, small k, more k))
                (ground (arith, more i, ==_iff i i))) in
            rw (dirlink, e, f, ◌>>◌) (λ k. omega (arith, more k, less k))
      ]
]
