-- ===== src/File/Content.antt =====
-- file.c: filestat, fileread and filewrite. `me` is the pid of `myproc()`. The calls of pipe.c and of
-- the device's functions in `devsw` are arguments; `copied` says how many bytes move between the
-- file system and the caller's memory, as in Fs.Files, and `src` is that memory. The
-- calls of begin_op and end_op, which the transactions stand between, are in Log.
pub mod Refs
use pplottery.Prelude.{
  ℕ, zero, suc, ◌+◌, ◌-◌, ◌*◌, ◌/◌, not, Option, none, some, ◌==◌, leb, min, if◌then◌else◌, Result,
  ok, panic, add32, slt32, minus_one, get_elem?,
}
use pplottery.Log.{maxopblocks}
use pplottery.File.{File, fd_none, fd_pipe, fd_inode, fd_device}
use pplottery.Fs.{Fs, M, ◌>>=◌, ◌>>◌, bsize}
use pplottery.Fs.Itable.{ilock, iunlock}
use pplottery.Fs.Files.{Stat, stati, readi, writei}

abbrev pub ndev : ℕ
ndev = 10

-- A negative `major` is the pattern of a large number.
abbrev pub device : (table : ℕ → Option (M ℕ)) → (major : ℕ) → Option (M ℕ)
device table major = if leb ndev major then none else table major

-- The `struct stat` that is copied out, or none, and what `copyout` returned is left to the caller.
pub filestat : (me : ℕ) → File → M (Option Stat)
filestat me f s =
    let read : M (Option Stat) = (do
      ilock me f.ip
      (λ t. elim (get_elem? t.itable f.ip) [
        | none ↦ panic
        | some ip ↦ (do iunlock me f.ip; (λ u. ok (some (stati ip), u))) t
      ])) in
    elim (f.type) [
      | fd_none ↦ ok (none, s)
      | fd_pipe ↦ ok (none, s)
      | fd_inode ↦ read s
      | fd_device ↦ read s
    ]

-- `if(r > 0) f->off += r`
abbrev pub moved : ℕ → File → File
moved r f = if slt32 0 r then record f { off = add32 f.off r } else f

-- The branch of `fileread` for an inode.
pub read_inode : (me n : ℕ) (copied : ℕ → ℕ → ℕ) → File → M (ℕ × File)
read_inode me n copied f = do
  ilock me f.ip
  r ← readi f.ip f.off n copied
  iunlock me f.ip
  (λ t. ok ((r.0, moved r.0 f), t))

pub fileread :
    (me n : ℕ) (copied : ℕ → ℕ → ℕ) (piperead : ℕ → M ℕ) (devs : ℕ → Option (M ℕ))
    → File
    → M (ℕ × File)
unfolding read_inode
fileread me n copied piperead devs f s =
    let same : M ℕ → Result ((ℕ × File) × Fs) =
      (λ m. elim (m s) [ panic ↦ panic | ok (r, t) ↦ ok ((r, f), t) ]) in
    let run : Result ((ℕ × File) × Fs) = elim (f.type) [
      | fd_none ↦ panic
      | fd_pipe ↦ same (piperead f.pipe)
      | fd_inode ↦ read_inode me n copied f s
      | fd_device ↦ elim (device devs f.major) [
        | none ↦ ok ((minus_one, f), s)
        | some read ↦ same read
      ]
    ] in
    if not f.readable then ok ((minus_one, f), s) else run

-- `max`
abbrev pub max_write : ℕ
max_write = (maxopblocks - 1 - 1 - 2) / 2 * bsize

-- The loop of `filewrite`, on fuel, after `i` bytes: `i` at its end. Each round is a transaction.
pub write_rounds : (fuel i me n : ℕ) (src : ℕ → ℕ) (copied : ℕ → ℕ → ℕ) → File → M (ℕ × File)
write_rounds zero i me n src copied f s = ok ((i, f), s)
write_rounds (suc fuel) i me n src copied f s =
    let n1 = min (n - i) max_write in
    let round : M ℕ = (do
      ilock me f.ip
      r ← writei f.ip f.off n1 (λ x. src (i + x)) (λ tot m. copied (i + tot) m)
      iunlock me f.ip
      (λ t. ok (r, t))) in
    let step : Result ((ℕ × File) × Fs) = elim (round s) [
      | panic ↦ panic
      | ok (r, t) ↦
          let next = write_rounds fuel (i + r) me n src copied (moved r f) t in
          if r == n1 then next else ok ((i, moved r f), t)
    ] in
    if slt32 i n then step else ok ((i, f), s)

-- A round that goes on writes a byte at least.
pub filewrite :
    (me n : ℕ) (src : ℕ → ℕ) (copied : ℕ → ℕ → ℕ) (pipewrite : ℕ → M ℕ) (devs : ℕ → Option (M ℕ))
    → File
    → M (ℕ × File)
unfolding write_rounds
filewrite me n src copied pipewrite devs f s =
    let same : M ℕ → Result ((ℕ × File) × Fs) =
      (λ m. elim (m s) [ panic ↦ panic | ok (r, t) ↦ ok ((r, f), t) ]) in
    let rounds : Result ((ℕ × File) × Fs) = elim (write_rounds n 0 me n src copied f s) [
      | panic ↦ panic
      | ok ((i, g), t) ↦ ok ((if i == n then n else minus_one, g), t)
    ] in
    let run : Result ((ℕ × File) × Fs) = elim (f.type) [
      | fd_none ↦ panic
      | fd_pipe ↦ same (pipewrite f.pipe)
      | fd_inode ↦ rounds
      | fd_device ↦ elim (device devs f.major) [
        | none ↦ ok ((minus_one, f), s)
        | some write ↦ same write
      ]
    ] in
    if not f.writable then ok ((minus_one, f), s) else run
