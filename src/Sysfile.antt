-- ===== src/Sysfile.antt =====
-- sysfile.c: the system calls on files, over the models of fs.c and file.c. A path that `argstr`
-- could not fetch is none; `me` is the pid of the calling process.
pub mod Paths
pub mod Create
pub mod Open
pub mod Exec
pub mod Runs
pub mod Ledger
pub mod Shared
mod Tests
use pplottery.Prelude.{
  ℕ, ◌+◌, ◌-◌, Bool, Option, none, some, List, [], ◌∷◌, leb, if◌then◌else◌, Result, ok, panic,
  get_elem?, get_or, set,
}
use pplottery.Sysproc.{failure}
use pplottery.File.{
  File, Ftable, Closing, nothing, pipe_closes, inode_put, filealloc, filedup, fileclose,
}
use pplottery.File.Content.{fileread, filewrite, filestat}
use pplottery.Fs.{Fs, Inode, Dinode}
use pplottery.Fs.Files.{Stat}
use pplottery.Fs.Itable.{iput, modify, on_table}

-- What the calls change: the file system, the number of operations between begin_op and end_op, the
-- table of files, the calls of `pipeclose`, and of the process its descriptors and the slot of its
-- directory. A pointer to a file is its slot in `ftable`.
pub record Sys : Type 0 where
  pub fs : Fs
  pub outstanding : ℕ
  pub ftable : Ftable
  pub closed_pipes : List (ℕ × Bool)
  pub ofile : List (Option ℕ)
  pub cwd : ℕ

-- A step of a system call: a panic, or a value and the state after it.
abbrev pub M : Type 0 → Type 0
M A = Sys → Result (A × Sys)

infixl 5 ◌>>=◌ ◌>>◌
pub ◌>>=◌ : {A B : Type 0} → M A → (A → M B) → M B
◌>>=◌ m f s = elim (m s) [ panic ↦ panic | ok (a, s') ↦ f a s' ]

pub ◌>>◌ : {A B : Type 0} → M A → M B → M B
◌>>◌ m n s = elim (m s) [ panic ↦ panic | ok (a, s') ↦ n s' ]

abbrev pub ret : {A : Type 0} → A → M A
ret a s = ok (a, s)

-- A call of fs.c.
pub lift : {A : Type 0} → (Fs → Result (A × Fs)) → M A
lift m s = elim (m s.fs) [ panic ↦ panic | ok (a, t) ↦ ok (a, record s { fs = t }) ]

-- What begin_op and end_op do to `log.outstanding`; the log itself is the subject of Log.
pub begin_op : M (Unit {0})
begin_op s = ok (tt, record s { outstanding = s.outstanding + 1 })

pub end_op : M (Unit {0})
end_op s = ok (tt, record s { outstanding = s.outstanding - 1 })

abbrev pub t_file : ℕ
t_file = 2

abbrev pub t_device : ℕ
t_device = 3

-- The inode that a pointer points to, and a change of the fields that it shares with the disk.
pub inode_at : ℕ → M Inode
inode_at i s = elim (get_elem? s.fs.itable i) [ none ↦ panic | some ip ↦ ok (ip, s) ]

abbrev pub with_copy : (Dinode → Dinode) → Inode → Inode
with_copy f ip = record ip { copy = f ip.copy }

pub alter : ℕ → (Dinode → Dinode) → M (Unit {0})
alter i f s = ok (tt, record s { fs = on_table (modify i (with_copy f)) s.fs })

abbrev pub nofile : ℕ
nofile = 16

-- `argfd`, of the value that `argint` reads: the file. A negative one is the pattern of a large
-- number.
pub argfd : ℕ → Sys → Option ℕ
argfd fd s = if leb nofile fd then none else get_or s.ofile fd none

-- The first descriptor from `fd` on that is free, and the descriptors with the file there.
abbrev pub first_free : (fd : ℕ) → List (Option ℕ) → Option ℕ
first_free fd [] = none
first_free fd (none ∷ os) = some fd
first_free fd (some f ∷ os) = first_free (fd + 1) os

pub fdalloc : ℕ → M (Option ℕ)
fdalloc f s = elim (first_free 0 s.ofile) [
  | none ↦ ok (none, s)
  | some fd ↦ ok (some fd, record s { ofile = set s.ofile fd (some f) })
]

-- `p->ofile[fd] = 0`
pub clear_fd : ℕ → M (Unit {0})
clear_fd fd s = ok (tt, record s { ofile = set s.ofile fd none })

-- file.c on the table of the state; `fileclose` does what it does behind the lock, too.
pub file_alloc : M (Option ℕ)
file_alloc s = let (f, t) = filealloc 0 s.ftable in ok (f, record s { ftable = t })

pub file_dup : ℕ → M (Unit {0})
file_dup f s = elim (filedup f s.ftable) [ panic ↦ panic | ok t ↦ ok (tt, record s { ftable = t }) ]

pub close_table : ℕ → M Closing
close_table f s = elim (fileclose f s.ftable) [
  | panic ↦ panic
  | ok (c, t) ↦ ok (c, record s { ftable = t })
]

pub finish_close : Closing → M (Unit {0})
unfolding lift begin_op end_op
finish_close nothing = ret tt
finish_close (pipe_closes p w) = (λ s. ok (tt, record s { closed_pipes = (p, w) ∷ s.closed_pipes }))
finish_close (inode_put i) = do begin_op; lift (iput i); end_op

pub file_close : ℕ → M (Unit {0})
unfolding close_table finish_close
file_close f = do c ← close_table f; finish_close c

pub sys_dup : ℕ → M ℕ
unfolding argfd fdalloc file_dup
sys_dup fd s = elim (argfd fd s) [
  | none ↦ ok (failure, s)
  | some f ↦
      (do
        o ← fdalloc f
        elim o as (λ _. M ℕ) [ none ↦ ret failure | some fd' ↦ (do file_dup f; ret fd') ])
        s
]

pub sys_close : ℕ → M ℕ
unfolding argfd clear_fd file_close
sys_close fd s = elim (argfd fd s) [
  | none ↦ ok (failure, s)
  | some f ↦ (do clear_fd fd; file_close f; ret 0) s
]

-- A call of file.c on the file that a descriptor stands for, and the file written back.
pub on_file : (fd : ℕ) → (File → Fs → Result ((ℕ × File) × Fs)) → M ℕ
unfolding argfd
on_file fd m s = elim (argfd fd s) [
  | none ↦ ok (failure, s)
  | some j ↦ elim (get_elem? s.ftable j) [
    | none ↦ panic
    | some f ↦ elim (m f s.fs) [
      | panic ↦ panic
      | ok ((r, g), t) ↦ ok (r, record s { fs = t; ftable = set s.ftable j g })
    ]
  ]
]

-- `n`, and the calls of pipes and devices, as in File.Content.
pub sys_read :
    (me fd n : ℕ) (copied : ℕ → ℕ → ℕ) (piperead : ℕ → Fs → Result (ℕ × Fs))
    (devs : ℕ → Option (Fs → Result (ℕ × Fs)))
    → M ℕ
unfolding on_file
sys_read me fd n copied piperead devs = on_file fd (λ f. fileread me n copied piperead devs f)

pub sys_write :
    (me fd n : ℕ) (src : ℕ → ℕ) (copied : ℕ → ℕ → ℕ) (pipewrite : ℕ → Fs → Result (ℕ × Fs))
    (devs : ℕ → Option (Fs → Result (ℕ × Fs)))
    → M ℕ
unfolding on_file
sys_write me fd n src copied pipewrite devs =
    on_file fd (λ f. filewrite me n src copied pipewrite devs f)

-- `st` is what `filestat` copies out; `copies` says whether `copyout` can.
pub sys_fstat : (me fd : ℕ) (copies : Bool) → M (ℕ × Option Stat)
unfolding argfd
sys_fstat me fd copies s = elim (argfd fd s) [
  | none ↦ ok ((failure, none), s)
  | some j ↦ elim (get_elem? s.ftable j) [
    | none ↦ panic
    | some f ↦ elim (filestat me f s.fs) [
      | panic ↦ panic
      | ok (none, t) ↦ ok ((failure, none), record s { fs = t })
      | ok (some st, t) ↦ ok (if copies then (0, some st) else (failure, none), record s { fs = t })
    ]
  ]
]
