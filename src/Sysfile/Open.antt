-- ===== src/Sysfile/Open.antt =====
-- sysfile.c: sys_open and sys_pipe, with `pipealloc` of pipe.c.
mod Steps
pub mod Refs
pub mod Pipe
pub mod Close
use pplottery.Prelude.{
  ℕ, ◌^◌, Bool, true, false, not, ◌&&◌, ◌||◌, Option, none, some, List, ◌==◌, leb, if◌then◌else◌,
  ok, panic, get_elem?, set,
}
use Prim.Native.Nat.{bit_and}
use pplottery.Sysproc.{failure}
use pplottery.File.{File, fd_inode, fd_device, fd_pipe}
use pplottery.File.Content.{ndev}
use pplottery.Fs.{Inode}
use pplottery.Fs.Itable.{ilock, iunlock, itrunc}
use pplottery.Fs.Dirs.{t_dir}
use pplottery.Sysfile.{
  M, ◌>>=◌, ◌>>◌, ret, lift, begin_op, inode_at, t_file, t_device, fdalloc, clear_fd, file_alloc,
  file_close,
}
use pplottery.Sysfile.Paths.{look, drop, leave}
use pplottery.Sysfile.Create.{create}

-- The flags of `open`.
abbrev pub o_wronly : ℕ
o_wronly = 1

abbrev pub o_rdwr : ℕ
o_rdwr = 2

abbrev pub o_create : ℕ
o_create = 512

abbrev pub o_trunc : ℕ
o_trunc = 1024

-- `omode & flag`, as a condition.
abbrev pub has : (omode flag : ℕ) → Bool
has omode flag = not (bit_and omode flag == 0)

-- A change of an open file.
pub alter_file : ℕ → (File → File) → M (Unit {0})
alter_file j f s = elim (get_elem? s.ftable j) [
  | none ↦ panic
  | some g ↦ ok (tt, record s { ftable = set s.ftable j (f g) })
]

-- What sys_open makes of a file for the inode in slot `i`.
pub opened : (i omode : ℕ) → Inode → File → File
opened i omode ip f =
    let g =
      if ip.copy.type == t_device
      then record f { type = fd_device; major = ip.copy.major }
      else record f { type = fd_inode; off = 0 } in
    record g {
      ip = i;
      readable = not (has omode o_wronly);
      writable = has omode o_wronly || has omode o_rdwr;
    }

-- sys_open with the file and the descriptor allocated.
pub fill_file : (me i j fd omode : ℕ) → M ℕ
unfolding inode_at alter_file opened lift
fill_file me i j fd omode = do
  ip ← inode_at i
  alter_file j (opened i omode ip)
  if has omode o_trunc && (ip.copy.type == t_file) then lift (itrunc i) else ret tt
  lift (iunlock me i)
  leave fd

pub install : (me i omode : ℕ) → M ℕ
unfolding file_alloc fdalloc file_close fill_file
install me i omode = do
  o ← file_alloc
  elim o as (λ _. M ℕ) [
    | none ↦ drop me i failure
    | some j ↦ (do
      d ← fdalloc j
      elim d as (λ _. M ℕ) [
        | none ↦ (do file_close j; drop me i failure)
        | some fd ↦ fill_file me i j fd omode
      ])
  ]

-- sys_open with the inode in slot `i` found and locked; `major` is the pattern of a short.
pub open_locked : (me i omode : ℕ) → M ℕ
unfolding install
open_locked me i omode = do
  ip ← inode_at i
  if (ip.copy.type == t_device) && (leb (2 ^ 15) ip.copy.major || leb ndev ip.copy.major)
      then drop me i failure
      else install me i omode

pub open_found : (me i omode : ℕ) → M ℕ
unfolding open_locked
open_found me i omode = do
  lift (ilock me i)
  ip ← inode_at i
  if (ip.copy.type == t_dir) && not (omode == 0) then drop me i failure else open_locked me i omode

pub open_path : (me : ℕ) → List ℕ → (omode : ℕ) → M ℕ
unfolding open_found
open_path me path omode = do
  d ← look me path
  let (o, name) = d
  elim o as (λ _. M ℕ) [ none ↦ leave failure | some i ↦ open_found me i omode ]

pub create_path : (me : ℕ) → List ℕ → (omode : ℕ) → M ℕ
unfolding open_locked
create_path me path omode = do
  o ← create me path t_file 0 0
  elim o as (λ _. M ℕ) [ none ↦ leave failure | some i ↦ open_locked me i omode ]

pub sys_open : (me : ℕ) → Option (List ℕ) → (omode : ℕ) → M ℕ
unfolding begin_op open_path create_path
sys_open me none omode = ret failure
sys_open me (some path) omode = do
  begin_op
  if has omode o_create then create_path me path omode else open_path me path omode

-- `pipealloc`, as far as it is about files: the two ends of the pipe in the page that `kalloc` gives.
pub read_end : ℕ → File → File
read_end p f = record f { type = fd_pipe; readable = true; writable = false; pipe = p }

pub write_end : ℕ → File → File
write_end p f = record f { type = fd_pipe; readable = false; writable = true; pipe = p }

pub pipe_files : (page : Option ℕ) → M (Option (ℕ × ℕ))
unfolding file_alloc file_close alter_file read_end write_end
pipe_files page = do
  o ← file_alloc
  elim o as (λ _. M (Option (ℕ × ℕ))) [
    | none ↦ ret none
    | some f0 ↦ (do
      o' ← file_alloc
      elim o' as (λ _. M (Option (ℕ × ℕ))) [
        | none ↦ (do file_close f0; ret none)
        | some f1 ↦ elim page as (λ _. M (Option (ℕ × ℕ))) [
          | none ↦ (do file_close f0; file_close f1; ret none)
          | some p ↦ (do
            alter_file f0 (read_end p)
            alter_file f1 (write_end p)
            ret (some (f0, f1)))
        ]
      ])
  ]

-- `fileclose(rf); fileclose(wf); return -1;`
pub close_both : (rf wf : ℕ) → M (ℕ × Option (ℕ × ℕ))
unfolding file_close
close_both rf wf = do file_close rf; file_close wf; ret (failure, none)

-- sys_pipe with the two files; `copies` says whether both calls of `copyout` succeed.
pub pipe_fds : (rf wf : ℕ) (copies : Bool) → M (ℕ × Option (ℕ × ℕ))
unfolding fdalloc clear_fd close_both
pipe_fds rf wf copies = do
  o ← fdalloc rf
  elim o as (λ _. M (ℕ × Option (ℕ × ℕ))) [
    | none ↦ close_both rf wf
    | some fd0 ↦ (do
      o' ← fdalloc wf
      elim o' as (λ _. M (ℕ × Option (ℕ × ℕ))) [
        | none ↦ (do clear_fd fd0; close_both rf wf)
        | some fd1 ↦
            if copies
            then ret (0, some (fd0, fd1))
            else (do clear_fd fd0; clear_fd fd1; close_both rf wf)
      ])
  ]

-- The result, and the two descriptors that are copied out.
pub sys_pipe : (page : Option ℕ) (copies : Bool) → M (ℕ × Option (ℕ × ℕ))
unfolding pipe_files pipe_fds
sys_pipe page copies = do
  o ← pipe_files page
  elim o as (λ _. M (ℕ × Option (ℕ × ℕ))) [
    | none ↦ ret (failure, none)
    | some (rf, wf) ↦ pipe_fds rf wf copies
  ]
