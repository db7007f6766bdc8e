-- ===== src/Sysfile/Open/Close.antt =====
-- sysfile.c: sys_close gives back what sys_open has taken.
use pplottery.Prelude.{ℕ, ◌≡◌, ◌⊎◌, some, get_elem?, set}
use pplottery.Sysproc.{failure}
use pplottery.Fs.{Fs}
use pplottery.Fs.Itable.Refs.{ref_at}
use pplottery.Fs.Itable.Gives.{Gives}
use pplottery.File.{File, fd_none}
use pplottery.Sysfile.{Sys}
use pplottery.Sysfile.Paths.Refs.{Settled}

-- An open and a close have failed together, with the counts and the tables of before, or the close
-- has succeeded and the tables are as before but for a file that is free. Neither says what there
-- is in the file system.
abbrev pub Reclosed : Sys → ℕ → Sys → Type 0
Reclosed s r u =
    ((r ≡ failure) × Settled s u)
    ⊎ ((r ≡ 0)
        × ((j : ℕ) × (f : File) × (g : File) × (get_elem? s.ftable j ≡ some f)
            × (f.ref ≡ 0)
            × (g.ref ≡ 0)
            × (g.type ≡ fd_none)
            × (u ≡ record s { fs = u.fs; ftable = set s.ftable j g })
            × ((k : ℕ) → ref_at k u.fs.itable ≡ ref_at k s.fs.itable)))
