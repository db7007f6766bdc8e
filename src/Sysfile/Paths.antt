-- ===== src/Sysfile/Paths.antt =====
-- sysfile.c: sys_link, sys_unlink and sys_chdir, and the steps that calls on paths share.
pub mod Steps
mod Links
pub mod Refs
use pplottery.Prelude.{
  ℕ, zero, suc, ◌+◌, ◌*◌, ◌-◌, ◌/◌, ◌%◌, ◌^◌, Bool, true, false, not, ◌||◌, Option, none, some,
  List, [], ◌∷◌, ◌==◌, leb, if◌then◌else◌, Result, ok, panic, slt32, minus_one, replicate,
}
use pplottery.Sysproc.{failure}
use pplottery.Fs.{Fs, Dinode}
use pplottery.Fs.Itable.{ilock, iunlock, iput, iunlockput, iupdate}
use pplottery.Fs.Files.{writei}
use pplottery.Fs.Dirs.{
  dirlookup, dirlink, read_entry, de_inum, same_name, t_dir, dirsiz, dirent_size,
}
use pplottery.Fs.Names.{namei, nameiparent}
use pplottery.Sysfile.{M, ◌>>=◌, ◌>>◌, ret, lift, begin_op, end_op, inode_at, alter}

-- The changes of `nlink`, a short.
abbrev pub more_links : Dinode → Dinode
more_links d = record d { nlink = (d.nlink + 1) % 2 ^ 16 }

abbrev pub fewer_links : Dinode → Dinode
fewer_links d = record d { nlink = (d.nlink + (2 ^ 16 - 1)) % 2 ^ 16 }

abbrev pub no_name : List ℕ
no_name = replicate dirsiz 0

-- `namei` and `nameiparent` from the directory of the process.
pub look : (me : ℕ) → List ℕ → M (Option ℕ × List ℕ)
unfolding lift
look me path s = lift (namei me s.cwd path) s

pub look_parent : (me : ℕ) → List ℕ → M (Option ℕ × List ℕ)
unfolding lift
look_parent me path s = lift (nameiparent me s.cwd path no_name) s

-- `end_op(); return r;`, and with an `iunlockput` before it.
pub leave : {A : Type 0} → A → M A
unfolding end_op
leave r = do end_op; ret r

pub drop : {A : Type 0} → (me i : ℕ) → A → M A
unfolding lift leave
drop me i r = do lift (iunlockput me i); leave r

-- The label `bad` of sys_link.
pub unlinked : (me i : ℕ) → M ℕ
unfolding lift alter drop
unlinked me i = do lift (ilock me i); alter i fewer_links; lift (iupdate i); drop me i failure

-- sys_link with the directory found and the link counted in inode `i`.
pub link_at : (me dp i : ℕ) → List ℕ → M ℕ
unfolding unlinked inode_at
link_at me dp i name = do
  lift (ilock me dp)
  dir ← inode_at dp
  ip ← inode_at i
  linked ← (if dir.dev == ip.dev then lift (dirlink dp name ip.inum) else ret minus_one)
  lift (iunlockput me dp)
  if slt32 linked 0 then unlinked me i else (do lift (iput i); leave 0)

pub link_into : (me i : ℕ) → List ℕ → M ℕ
unfolding look_parent link_at
link_into me i new = do
  d ← look_parent me new
  let (o, name) = d
  elim o as (λ _. M ℕ) [ none ↦ unlinked me i | some dp ↦ link_at me dp i name ]

pub link_inode : (me i : ℕ) → List ℕ → M ℕ
unfolding link_into
link_inode me i new = do
  lift (ilock me i)
  ip ← inode_at i
  if ip.copy.type == t_dir
      then drop me i failure
      else (do alter i more_links; lift (iupdate i); lift (iunlock me i); link_into me i new)

pub sys_link : (me : ℕ) (old new : Option (List ℕ)) → M ℕ
unfolding look link_inode begin_op
sys_link me none new = ret failure
sys_link me (some old) none = ret failure
sys_link me (some old) (some new) = do
  begin_op
  d ← look me old
  let (o, name) = d
  elim o as (λ _. M ℕ) [ none ↦ leave failure | some i ↦ link_inode me i new ]

-- The loop of `isdirempty`, with `n` entries to go.
pub isdirempty_from : (n off dp : ℕ) → Fs → Result (Bool × Fs)
isdirempty_from zero off dp s = ok (true, s)
isdirempty_from (suc n) off dp s =
    let next = isdirempty_from n (off + dirent_size) dp in
    elim (read_entry dp off s) [
      | panic ↦ panic
      | ok (none, t) ↦ panic
      | ok (some de, t) ↦ if de_inum de == 0 then next t else ok (false, t)
    ]

pub isdirempty : (dp size : ℕ) → Fs → Result (Bool × Fs)
unfolding isdirempty_from
isdirempty dp size s =
    isdirempty_from ((size + (dirent_size - 1) - 2 * dirent_size) / dirent_size) (2 * dirent_size)
      dp s

-- sys_unlink from the write on: the entry at `off` of `dp`, for inode `i`.
pub remove_entry : (me dp off i : ℕ) → (is_dir : Bool) → M ℕ
unfolding lift alter drop
remove_entry me dp off i is_dir = do
  n ← lift (writei dp off dirent_size (λ x. 0) (λ tot m. m))
  if not (n == dirent_size) then (λ s. panic) else (do
    if is_dir then (do alter dp fewer_links; lift (iupdate dp)) else ret tt
    lift (iunlockput me dp)
    alter i fewer_links
    lift (iupdate i)
    drop me i 0)

-- sys_unlink with both inodes found, from `ilock(ip)` on.
pub unlink_inode : (me dp off i : ℕ) → M ℕ
unfolding remove_entry isdirempty inode_at
unlink_inode me dp off i = do
  lift (ilock me i)
  ip ← inode_at i
  if (ip.copy.nlink == 0) || leb (2 ^ 15) ip.copy.nlink then (λ s. panic) else (do
    empty ← (if ip.copy.type == t_dir then lift (isdirempty i ip.copy.size) else ret true)
    if empty
        then remove_entry me dp off i (ip.copy.type == t_dir)
        else (do lift (iunlockput me i); drop me dp failure))

abbrev pub dot : List ℕ
dot = b'.' ∷ 0 ∷ []

abbrev pub dot_dot : List ℕ
dot_dot = b'.' ∷ b'.' ∷ 0 ∷ []

pub unlink_from : (me dp : ℕ) → List ℕ → M ℕ
unfolding unlink_inode
unlink_from me dp name = do
  lift (ilock me dp)
  if same_name name dot || same_name name dot_dot then drop me dp failure else (do
    o ← lift (dirlookup dp name)
    elim o as (λ _. M ℕ) [ none ↦ drop me dp failure | some (i, off) ↦ unlink_inode me dp off i ])

pub sys_unlink : (me : ℕ) → Option (List ℕ) → M ℕ
unfolding look_parent unlink_from begin_op
sys_unlink me none = ret failure
sys_unlink me (some path) = do
  begin_op
  d ← look_parent me path
  let (o, name) = d
  elim o as (λ _. M ℕ) [ none ↦ leave failure | some dp ↦ unlink_from me dp name ]

-- `iput(p->cwd)`, `end_op` and `p->cwd = ip`.
pub enter_dir : ℕ → M ℕ
unfolding lift end_op
enter_dir i s = (do lift (iput s.cwd); end_op; (λ t. ok (0, record t { cwd = i }))) s

pub chdir_into : (me i : ℕ) → M ℕ
unfolding enter_dir drop inode_at
chdir_into me i = do
  lift (ilock me i)
  ip ← inode_at i
  if not (ip.copy.type == t_dir) then drop me i failure else (do lift (iunlock me i); enter_dir i)

pub sys_chdir : (me : ℕ) → Option (List ℕ) → M ℕ
unfolding look chdir_into begin_op
sys_chdir me none = do begin_op; leave failure
sys_chdir me (some path) = do
  begin_op
  d ← look me path
  let (o, name) = d
  elim o as (λ _. M ℕ) [ none ↦ leave failure | some i ↦ chdir_into me i ]
