-- ===== src/Sysfile/Create.antt =====
-- sysfile.c: `create`, sys_mkdir and sys_mknod.
pub mod Refs
use pplottery.Prelude.{
  ℕ, ◌%◌, ◌^◌, Bool, true, false, not, ◌&&◌, ◌||◌, Option, none, some, List, ◌==◌, if◌then◌else◌,
  slt32,
}
use pplottery.Sysproc.{failure}
use pplottery.Fs.Itable.{ilock, iunlockput, iupdate, ialloc}
use pplottery.Fs.Dirs.{dirlookup, dirlink, t_dir}
use pplottery.Sysfile.{M, ◌>>=◌, ◌>>◌, ret, lift, begin_op, inode_at, alter, t_file, t_device}
use pplottery.Sysfile.Paths.{more_links, look_parent, leave, drop, dot, dot_dot}

-- The label `fail` of `create`.
pub make_fails : (me dp i : ℕ) → M (Option ℕ)
unfolding lift alter
make_fails me dp i = do
  alter i (λ d. record d { nlink = 0 })
  lift (iupdate i)
  lift (iunlockput me i)
  lift (iunlockput me dp)
  ret none

-- The entries `.` and `..` of a new directory `i`: whether both are written.
pub make_dots : (dp i : ℕ) → M Bool
unfolding lift inode_at
make_dots dp i = do
  ip ← inode_at i
  r ← lift (dirlink i dot ip.inum)
  if slt32 r 0
      then ret false
      else (do dir ← inode_at dp; r' ← lift (dirlink i dot_dot dir.inum); ret (not (slt32 r' 0)))

-- `create` from `ilock(ip)` on, for a new inode `i`.
pub make_inode : (me dp i type major minor : ℕ) → List ℕ → M (Option ℕ)
unfolding make_fails make_dots
make_inode me dp i type major minor name = do
  lift (ilock me i)
  alter i (λ d. record d { major = major; minor = minor; nlink = 1 })
  lift (iupdate i)
  dots ← (if type == t_dir then make_dots dp i else ret true)
  if not dots then make_fails me dp i else (do
    ip ← inode_at i
    r ← lift (dirlink dp name ip.inum)
    if slt32 r 0 then make_fails me dp i else (do
      if type == t_dir then (do alter dp more_links; lift (iupdate dp)) else ret tt
      lift (iunlockput me dp)
      ret (some i)))

-- `create` of a name that is there.
pub found_inode : (me dp i type : ℕ) → M (Option ℕ)
unfolding lift inode_at
found_inode me dp i type = do
  lift (iunlockput me dp)
  lift (ilock me i)
  ip ← inode_at i
  if (type == t_file) && ((ip.copy.type == t_file) || (ip.copy.type == t_device))
      then ret (some i)
      else (do lift (iunlockput me i); ret none)

-- `create` of a name that is not there.
pub new_inode : (me dp type major minor : ℕ) → List ℕ → M (Option ℕ)
unfolding make_inode
new_inode me dp type major minor name = do
  dir ← inode_at dp
  o ← lift (ialloc dir.dev type)
  elim o as (λ _. M (Option ℕ)) [
    | none ↦ (do lift (iunlockput me dp); ret none)
    | some i ↦ make_inode me dp i type major minor name
  ]

pub create_in : (me dp type major minor : ℕ) → List ℕ → M (Option ℕ)
unfolding found_inode new_inode
create_in me dp type major minor name = do
  lift (ilock me dp)
  o ← lift (dirlookup dp name)
  elim o as (λ _. M (Option ℕ)) [
    | none ↦ new_inode me dp type major minor name
    | some (i, off) ↦ found_inode me dp i type
  ]

-- `create`; the inode that it returns is locked.
pub create : (me : ℕ) → List ℕ → (type major minor : ℕ) → M (Option ℕ)
unfolding create_in
create me path type major minor = do
  d ← look_parent me path
  let (o, name) = d
  elim o as (λ _. M (Option ℕ)) [
    | none ↦ ret none
    | some dp ↦ create_in me dp type major minor name
  ]

-- The rest of sys_mkdir and sys_mknod.
pub made : (me : ℕ) → Option ℕ → M ℕ
made me none = leave failure
made me (some i) = drop me i 0

pub sys_mkdir : (me : ℕ) → Option (List ℕ) → M ℕ
unfolding create made begin_op
sys_mkdir me none = do begin_op; leave failure
sys_mkdir me (some path) = do begin_op; o ← create me path t_dir 0 0; made me o

-- `major` and `minor` become shorts.
pub sys_mknod : (me : ℕ) → Option (List ℕ) → (major minor : ℕ) → M ℕ
unfolding create made begin_op
sys_mknod me none major minor = do begin_op; leave failure
sys_mknod me (some path) major minor = do
  begin_op
  o ← create me path t_device (major % 2 ^ 16) (minor % 2 ^ 16)
  made me o
