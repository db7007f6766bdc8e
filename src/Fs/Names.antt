-- ===== src/Fs/Names.antt =====
-- fs.c: path names. A path is its bytes before the NUL; `name` is a buffer of `DIRSIZ` bytes.
pub mod Elements
pub mod Fuel
pub mod Refs
use pplottery.Prelude.{
  ℕ, zero, suc, ◌+◌, Bool, true, false, not, ◌&&◌, Option, none, some, List, [], ◌∷◌, ◌++◌, ◌==◌,
  leb, if◌then◌else◌, Result, ok, panic, get_elem?, length, take, drop, replicate,
}
use pplottery.Fs.{Fs, M, ◌>>=◌, ◌>>◌}
use pplottery.Fs.Itable.{iget, idup, ilock, iunlock, iput, iunlockput}
use pplottery.Fs.Dirs.{dirlookup, dirsiz, t_dir}

-- `while(*path == '/') path++;`
pub skip_slashes : List ℕ → List ℕ
skip_slashes [] = []
skip_slashes (c ∷ cs) = let rest = skip_slashes cs in if c == b'/' then rest else c ∷ cs

-- `while(*path != '/' && *path != 0) path++;`: what it passes over, and where it stops.
pub element : List ℕ → List ℕ × List ℕ
element [] = ([], [])
element (c ∷ cs) = let rest = element cs in if c == b'/' then ([], c ∷ cs) else (c ∷ rest.0, rest.1)

-- What `memmove` and the NUL make of `name`.
abbrev pub copy_name : List ℕ → List ℕ → List ℕ
copy_name elem name =
    if leb dirsiz (length elem) then take dirsiz elem else elem ++ (0 ∷ drop (length elem + 1) name)

pub skipelem : List ℕ → List ℕ → Option (List ℕ × List ℕ)
unfolding skip_slashes element
skipelem path name = elim (skip_slashes path) [
  | [] ↦ none
  | c ∷ cs ↦ let (elem, rest) = element (c ∷ cs) in some (skip_slashes rest, copy_name elem name)
]

-- The loop of `namex`, on fuel, at the inode in slot `i`: the slot, or null, and `name`.
pub namex_from : (fuel me i : ℕ) (parent : Bool) → List ℕ → List ℕ → M (Option ℕ × List ℕ)
unfolding skipelem
namex_from zero me i parent path name s = panic
namex_from (suc fuel) me i parent path name s = elim (skipelem path name) [
  | none ↦ if parent then (do iput i; (λ t. ok ((none, name), t))) s else ok ((some i, name), s)
  | some (rest, name') ↦
      let at_end : Bool = elim rest [ [] ↦ true | c ∷ cs ↦ false ] in
      let leave : M (Option ℕ × List ℕ) = (do iunlockput me i; (λ u. ok ((none, name'), u))) in
      let stop : M (Option ℕ × List ℕ) = (do iunlock me i; (λ u. ok ((some i, name'), u))) in
      let down : ℕ → M (Option ℕ × List ℕ) =
        (λ j. do iunlockput me i; namex_from fuel me j parent rest name') in
      elim (ilock me i s) [
        | panic ↦ panic
        | ok (u, t) ↦ elim (get_elem? t.itable i) [
          | none ↦ panic
          | some ip ↦
              let look : Result ((Option ℕ × List ℕ) × Fs) = elim (dirlookup i name' t) [
                | panic ↦ panic
                | ok (none, v) ↦ leave v
                | ok (some (j, off), v) ↦ down j v
              ] in
              if not (ip.copy.type == t_dir)
              then leave t
              else if parent && at_end
              then stop t
              else look
        ]
      ]
]

-- Where `namex` starts: the root, or `cwd`, the slot of the directory that the process is in.
pub first_inode : (cwd : ℕ) → List ℕ → M ℕ
first_inode cwd [] = idup cwd
first_inode cwd (c ∷ cs) = if c == b'/' then iget 1 1 else idup cwd

-- Each round of the loop takes at least one byte off the path.
pub namex : (me cwd : ℕ) (parent : Bool) → List ℕ → List ℕ → M (Option ℕ × List ℕ)
unfolding first_inode namex_from
namex me cwd parent path name s =
    (do i ← first_inode cwd path; namex_from (suc (length path)) me i parent path name) s

pub namei : (me cwd : ℕ) → List ℕ → M (Option ℕ × List ℕ)
unfolding namex
namei me cwd path s = namex me cwd false path (replicate dirsiz 0) s

pub nameiparent : (me cwd : ℕ) → List ℕ → List ℕ → M (Option ℕ × List ℕ)
unfolding namex
nameiparent me cwd path name s = namex me cwd true path name s
