-- ===== src/Sysfile/Tests.antt =====
-- The theorems on the system calls on files at a small disk: the process is in the root directory,
-- has a file open and may open one more.
use pplottery.Prelude.{
  ℕ, zero, suc, ◌+◌, ◌^◌, ◌<◌, ◌≡◌, refl, true, false, none, some, List, [], ◌∷◌, if◌then◌else◌,
  ◌==◌, arith, replicate,
}
use pplottery.File.{File, fd_inode, fd_none}
use pplottery.Fs.{Dinode, Inode}
use pplottery.Fs.Itable.{empty_dinode}
use pplottery.Sysfile.{Sys, sys_dup, sys_close}
use pplottery.Sysfile.Paths.{sys_link, sys_unlink, sys_chdir}
use pplottery.Sysfile.Create.{sys_mkdir, sys_mknod}
use pplottery.Sysfile.Paths.Refs.{
  Settled, Moved, sys_link-sys_unlink-sys_mkdir-sys_mknod-Settled, sys_chdir-Moved,
}
use pplottery.Sysfile.Open.{sys_open, sys_pipe}
use pplottery.File.Counts.{Clean, file_refs}
use pplottery.Sysfile.Open.Refs.{Opens, sys_open-Opens}
use pplottery.Fs.Itable.Refs.{ref_at}
use pplottery.Sysfile.Shared.{fds_of}
use pplottery.Sysfile.Runs.{Ends}
use pplottery.Sysfile.Ledger.{count, Sound}
use pplottery.Sysfile.Shared.Calls.{Balanced, sys_dup-sys_close-sys_pipe-sys_open-Balanced}

abbrev directory : Dinode
directory = record empty_dinode { type = 1; nlink = 1; size = 32; addrs = 5 ∷ [] }

abbrev in_use : (inum ref : ℕ) → Dinode → Inode
in_use inum ref copy = record {
  dev = 1;
  inum = inum;
  ref = ref;
  lock = record { locked = false; pid = 0 };
  valid = true;
  copy = copy;
}

abbrev a_file : (ref ip : ℕ) → File
a_file ref ip = record {
  type = if ref == 0 then fd_none else fd_inode;
  ref = ref;
  readable = true;
  writable = false;
  pipe = 0;
  ip = ip;
  off = 0;
  major = 0;
}

abbrev small_system : Sys
small_system = record {
  fs = record {
    sb = record { size = 20; ninodes = 4; inodestart = 2; bmapstart = 3 };
    bitmap = (λ k. if k == 0 then 63 else 0);
    dinodes = (λ i. if i == 3 then empty_dinode else directory);
    data_bytes = (λ b i. if i == 2 then b'a' else if i == 0 then 2 else 0);
    logged = [];
    itable = in_use 1 1 directory ∷ in_use 2 1 directory ∷ in_use 0 0 directory ∷ [];
  };
  outstanding = 0;
  ftable = a_file 1 1 ∷ a_file 0 0 ∷ [];
  closed_pipes = [];
  ofile = some 0 ∷ replicate 15 none;
  cwd = 0;
}

sound : Sound small_system
sound = record { room = room; home = omega arith }
  where
    room : (k : ℕ) → ref_at k small_system.fs.itable + 8 < 2 ^ 31
    room zero = omega arith
    room (suc zero) = omega arith
    room (suc (suc zero)) = omega arith
    room (suc (suc (suc k))) = omega arith

clean : Clean (small_system.ftable)
clean zero f here unused = cc
clean (suc zero) f here unused = cc
clean (suc (suc j)) f here unused = cc

balanced : Balanced (λ k. 0) small_system
balanced = record { balance = balance; fds = refl; known = tt; clean = clean }
  where
    balance :
        (k : ℕ) → file_refs k small_system.ftable ≡ 0 + fds_of k small_system.ofile + count [] k
    balance zero = refl
    balance (suc zero) = refl
    balance (suc (suc k)) = ground arith

abbrev slash_a : List ℕ
slash_a = b'/' ∷ b'a' ∷ []

sys_link-sys_unlink-sys_mkdir-sys_mknod-Settled_example :
    Ends (λ r. Settled small_system) (sys_link 1 (some slash_a) (some (b'b' ∷ [])) small_system)
    × Ends (λ r. Settled small_system) (sys_unlink 1 (some slash_a) small_system)
    × Ends (λ r. Settled small_system) (sys_mkdir 1 (some slash_a) small_system)
    × Ends (λ r. Settled small_system) (sys_mknod 1 (some slash_a) 3 0 small_system)
sys_link-sys_unlink-sys_mkdir-sys_mknod-Settled_example =
    sys_link-sys_unlink-sys_mkdir-sys_mknod-Settled 1 (some slash_a) (some (b'b' ∷ [])) 3 0
      small_system sound

sys_chdir-Moved_example : Ends (Moved small_system) (sys_chdir 1 (some slash_a) small_system)
sys_chdir-Moved_example = sys_chdir-Moved 1 (some slash_a) small_system sound

sys_open-Opens_example : Ends (Opens 514 small_system) (sys_open 1 (some slash_a) 514 small_system)
sys_open-Opens_example = sys_open-Opens 1 (some slash_a) 514 small_system sound clean

sys_dup-sys_close-sys_pipe-sys_open-Balanced_example :
    Ends (λ r. Balanced (λ k. 0)) (sys_dup 0 small_system)
    × Ends (λ r. Balanced (λ k. 0)) (sys_close 0 small_system)
    × Ends (λ r. Balanced (λ k. 0)) (sys_pipe (some 4096) true small_system)
    × Ends (λ r. Balanced (λ k. 0)) (sys_open 1 (some slash_a) 0 small_system)
sys_dup-sys_close-sys_pipe-sys_open-Balanced_example =
    sys_dup-sys_close-sys_pipe-sys_open-Balanced (λ k. 0) 1 0 0 (some 4096) true (some slash_a)
      small_system (λ k. omega arith) balanced sound
