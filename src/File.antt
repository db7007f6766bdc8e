-- ===== src/File.antt =====
-- file.c: the table of open files and its reference counts. `pipe` and `ip` are pointers, and the
-- counts are 32-bit patterns. Each operation is what happens under `ftable.lock`.
pub mod Refs
pub mod Counts
pub mod Content
use pplottery.Prelude.{
  ℕ, ◌+◌, Bool, Option, none, some, List, [], ◌∷◌, ◌==◌, get_elem?, set, if◌then◌else◌, add32,
  sub32, slt32, Result, ok, panic,
}

pub data FileType : Type 0 where
  fd_none fd_pipe fd_inode fd_device : FileType

-- `struct file`
pub record File : Type 0 where
  pub type : FileType
  pub ref : ℕ
  pub readable : Bool
  pub writable : Bool
  pub pipe : ℕ
  pub ip : ℕ
  pub off : ℕ
  pub major : ℕ

abbrev pub Ftable : Type 0
Ftable = List File

-- The file from slot `i` on, or null, and the table.
pub filealloc : ℕ → Ftable → Option ℕ × Ftable
filealloc i [] = (none, [])
filealloc i (f ∷ fs) =
    let rest = filealloc (i + 1) fs in
    if f.ref == 0 then (some i, record f { ref = 1 } ∷ fs) else (rest.0, f ∷ rest.1)

pub filedup : ℕ → Ftable → Result Ftable
filedup i t = elim (get_elem? t i) [
  | none ↦ panic
  | some f ↦ if slt32 f.ref 1 then panic else ok (set t i (record f { ref = add32 f.ref 1 }))
]

-- What `fileclose` does once it has released the lock.
pub data Closing : Type 0 where
  nothing : Closing
  pipe_closes : ℕ → Bool → Closing
  inode_put : ℕ → Closing

abbrev pub closing : File → Closing
closing f = elim (f.type) [
  | fd_none ↦ nothing
  | fd_pipe ↦ pipe_closes f.pipe f.writable
  | fd_inode ↦ inode_put f.ip
  | fd_device ↦ inode_put f.ip
]

pub fileclose : ℕ → Ftable → Result (Closing × Ftable)
fileclose i t = elim (get_elem? t i) [
  | none ↦ panic
  | some f ↦
      if slt32 f.ref 1
      then panic
      else if slt32 0 (sub32 f.ref 1)
      then ok (nothing, set t i (record f { ref = sub32 f.ref 1 }))
      else ok (closing f, set t i (record f { ref = 0; type = fd_none }))
]
