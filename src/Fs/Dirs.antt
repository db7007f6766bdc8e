-- ===== src/Fs/Dirs.antt =====
-- fs.c: directories. A directory is a file of entries of 16 bytes, an inode number and a name.
pub mod Refs
use pplottery.Prelude.{
  ℕ, zero, suc, ◌+◌, ◌-◌, ◌*◌, ◌/◌, ◌%◌, Bool, false, not, Option, none, some, List, ◌∷◌, ◌==◌,
  if◌then◌else◌, Result, ok, panic, get_elem?, get_or, drop, minus_one, replicate,
}
use pplottery.Str.{strncmp, strncpy}
use pplottery.Fs.{Fs, M, ◌>>=◌, ◌>>◌, Inode}
use pplottery.Fs.Itable.{iget, iput}
use pplottery.Fs.Files.{readi, writei}

abbrev pub dirsiz : ℕ
dirsiz = 14

-- `sizeof(struct dirent)`
abbrev pub dirent_size : ℕ
dirent_size = 16

abbrev pub t_dir : ℕ
t_dir = 1

-- `de.inum` and `de.name` of the bytes of an entry.
abbrev pub de_inum : List ℕ → ℕ
de_inum de = get_or de 0 0 + 256 * get_or de 1 0

abbrev pub de_name : List ℕ → List ℕ
de_name de = drop 2 de

-- `namecmp(s, t) == 0`; a read past the end of a buffer, which has a NUL or `DIRSIZ` bytes, is no match.
pub same_name : List ℕ → List ℕ → Bool
same_name s t = elim (strncmp s t dirsiz) [ none ↦ false | some d ↦ d == 0 ]

-- A read of the whole entry at `off` into the kernel, which fails only if the file ends before.
pub read_entry : (dp off : ℕ) → M (Option (List ℕ))
read_entry dp off s = elim (readi dp off dirent_size (λ tot m. m) s) [
  | panic ↦ panic
  | ok ((r, out), t) ↦ ok (if r == dirent_size then some out else none, t)
]

-- The loop of `dirlookup`, with `n` entries to go: the slot of the inode and the offset, or null.
pub dirlookup_from : (n off dp : ℕ) → Inode → List ℕ → M (Option (ℕ × ℕ))
unfolding read_entry
dirlookup_from zero off dp ip name s = ok (none, s)
dirlookup_from (suc n) off dp ip name s =
    let next = dirlookup_from n (off + dirent_size) dp ip name in
    elim (read_entry dp off s) [
      | panic ↦ panic
      | ok (none, t) ↦ panic
      | ok (some de, t) ↦
          let found : Result (Option (ℕ × ℕ) × Fs) = elim (iget ip.dev (de_inum de) t) [
            | panic ↦ panic
            | ok (i, u) ↦ ok (some (i, off), u)
          ] in
          if de_inum de == 0 then next t else if same_name name (de_name de) then found else next t
    ]

-- The number of rounds of `for(off = 0; off < dp->size; off += sizeof(de))`.
abbrev pub entries_of : Inode → ℕ
entries_of ip = (ip.copy.size + (dirent_size - 1)) / dirent_size

pub dirlookup : (dp : ℕ) → List ℕ → M (Option (ℕ × ℕ))
unfolding dirlookup_from
dirlookup dp name s = elim (get_elem? s.itable dp) [
  | none ↦ panic
  | some ip ↦
      if not (ip.copy.type == t_dir) then panic else dirlookup_from (entries_of ip) 0 dp ip name s
]

-- The loop of `dirlink`: the offset of an empty entry, or behind the last one.
pub find_slot : (n off dp : ℕ) → M ℕ
unfolding read_entry
find_slot zero off dp s = ok (off, s)
find_slot (suc n) off dp s =
    let next = find_slot n (off + dirent_size) dp in
    elim (read_entry dp off s) [
      | panic ↦ panic
      | ok (none, t) ↦ panic
      | ok (some de, t) ↦ if de_inum de == 0 then ok (off, t) else next t
    ]

-- The bytes of the new entry; `strncpy` fills all of `de.name`.
pub new_entry : (inum : ℕ) → List ℕ → List ℕ
new_entry inum name = inum % 256 ∷ inum / 256 % 256 ∷ strncpy (replicate dirsiz 0) name dirsiz

pub dirlink : (dp : ℕ) → List ℕ → (inum : ℕ) → M ℕ
unfolding dirlookup find_slot new_entry
dirlink dp name inum s = elim (dirlookup dp name s) [
  | panic ↦ panic
  | ok (some (i, off), t) ↦ (do iput i; (λ u. ok (minus_one, u))) t
  | ok (none, t) ↦ elim (get_elem? t.itable dp) [
    | none ↦ panic
    | some ip ↦ elim (find_slot (entries_of ip) 0 dp t) [
      | panic ↦ panic
      | ok (off, u) ↦
          elim (writei dp off dirent_size (λ x. get_or (new_entry inum name) x 0) (λ tot m. m) u) [
            | panic ↦ panic
            | ok (r, v) ↦ ok (if r == dirent_size then 0 else minus_one, v)
          ]
    ]
  ]
]
