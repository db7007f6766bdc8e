-- ===== src/Sysfile/Open/Refs.antt =====
-- sysfile.c: what sys_open does to the references of files and inodes.
use pplottery.Prelude.{
  ℕ, ◌+◌, ◌≡◌, ◌⊎◌, ◌^◌, refl, ap, ap₂, sym, subst, ◌∙◌, inl, inr, not, ◌&&◌, ◌||◌, ◌==◌, leb,
  Option, none, some, List, [], ◌∷◌, arith, get_elem?, set, Bool-cases, lt-length_of_get_elem?,
  get_elem?-set_self,
}
use pplottery.Sysproc.{failure}
use pplottery.File.{File, Ftable, fd_none, fd_inode, fd_device}
use pplottery.File.Content.{ndev}
use pplottery.File.Counts.{Clean}
use pplottery.File.Refs.{closed, set-set, set_same}
use pplottery.Fs.{Inode}
use pplottery.Fs.Itable.{itrunc}
use pplottery.Fs.Itable.Refs.{ref_at, at_slot}
use pplottery.Fs.Itable.Keeps.{itrunc-Keeps}
use pplottery.Fs.Dirs.{t_dir}
use pplottery.Sysfile.{Sys, first_free, t_file, t_device}
use pplottery.Sysfile.Open.{
  o_wronly, o_rdwr, o_create, o_trunc, has, opened, fill_file, install, open_locked, open_found,
  open_path, create_path, sys_open,
}
use pplottery.Sysfile.Open.Steps.{
  with_files, with_fds, allocs_file, allocs_fd, alters_file, closes_unused,
}
use pplottery.Sysfile.Runs.{ends, Ends, Runs, bind, next, by_test, done}
use pplottery.Sysfile.Ledger.{Sound, Owes, by_held, begins, reads, lift_keeps}
use pplottery.Sysfile.Paths.Steps.{locks, unlocks, looks, drops_with, leaves_with}
use pplottery.Sysfile.Create.Refs.{create-Owes}
use pplottery.Sysfile.Paths.Refs.{Settled, settle, start}

-- A file with its one reference, for the inode in slot `i`, opened in the way `omode` says.
pub record IsOpen (i omode : ℕ) (f : File) : Type 0 where
  pub one_ref : f.ref ≡ 1
  pub inode : f.ip ≡ i
  pub reads_if : f.readable ≡ not (has omode o_wronly)
  pub writes_if : f.writable ≡ (has omode o_wronly || has omode o_rdwr)
  pub kind : (f.type ≡ fd_device) ⊎ ((f.type ≡ fd_inode) × (f.off ≡ 0))

-- What sys_open comes to. If it fails, the counts and the tables are as before. If it succeeds, the first free descriptor
-- stands for a file of which nobody had a reference, now open for an inode with one reference more.
pub data Opens (omode : ℕ) (s : Sys) : ℕ → Sys → Type 0 where
  fails : {t : Sys} → Settled s t → Opens omode s failure t
  opens :
      {t : Sys} {fd : ℕ} (i j : ℕ) (f g : File)
      → first_free 0 s.ofile ≡ some fd
      → get_elem? s.ftable j ≡ some f
      → f.ref ≡ 0
      → IsOpen i omode g
      → t ≡ record s { fs = t.fs; ftable = set s.ftable j g; ofile = set s.ofile fd (some j) }
      → ((k : ℕ) → ref_at k t.fs.itable ≡ ref_at k s.fs.itable + at_slot i k)
      → Opens omode s fd t

opened-IsOpen :
    (i omode : ℕ) (ip : Inode) (f : File) → f.ref ≡ 1 → IsOpen i omode (opened i omode ip f)
unfolding opened
opened-IsOpen i omode ip f one = elim (Bool-cases (ip.copy.type == t_device)) [
  | inl device ↦ record {
    one_ref = rw device one;
    inode = refl;
    reads_if = refl;
    writes_if = refl;
    kind = rw device (inl refl);
  }
  | inr file ↦ record {
    one_ref = rw file one;
    inode = refl;
    reads_if = refl;
    writes_if = refl;
    kind = rw file (inr (refl, refl));
  }
]

closed_unused : (f : File) → f.ref ≡ 0 → f.type ≡ fd_none → closed f ≡ f
closed_unused f unused bare = ap₂ (λ r y. record f { ref = r; type = y }) (sym unused) (sym bare)

module _ (s0 : Sys) (sound : Sound s0) (me omode : ℕ) where
  -- A file taken and closed again.
  reclosed :
      (j : ℕ) (f : File) (t : Sys)
      → get_elem? s0.ftable j ≡ some f
      → f.ref ≡ 0
      → f.type ≡ fd_none
      → Owes (with_files (set (set s0.ftable j (record f { ref = 1 })) j (closed f)) s0) 0 [] t
      → Settled s0 t
  reclosed j f t here unused bare o = settle s0 t (
      subst (λ l. Owes (with_files l s0) 0 [] t)
        (set-set s0.ftable j (record f { ref = 1 }) (closed f)
          ∙ ap (set s0.ftable j) (closed_unused f unused bare)
          ∙ set_same s0.ftable j f here)
        o)

  fills :
      (i j fd : ℕ) (f : File)
      → get_elem? s0.ftable j ≡ some f
      → f.ref ≡ 0
      → first_free 0 s0.ofile ≡ some fd
      → Runs
          (Owes
            (with_fds
              (set s0.ofile fd (some j))
              (with_files (set s0.ftable j (record f { ref = 1 })) s0))
            1
            (i ∷ []))
          (fill_file me i j fd omode)
          (Opens omode s0)
  unfolding fill_file
  fills i j fd f here unused e =
      let f1 = record f { ref = 1 } in
      let l : List (Option ℕ) = set s0.ofile fd (some j) in
      let t1 : Ftable = set s0.ftable j f1 in
      let here1 : get_elem? t1 j ≡ some f1 =
        get_elem?-set_self s0.ftable j f1 (lt-length_of_get_elem? s0.ftable j here) in
      bind (reads i) (λ ip.
        let g = opened i omode ip f1 in
        let s3 : Sys = with_fds l (with_files (set t1 j g) s0) in
        let sound3 : Sound s3 = record { room = sound.room; home = sound.home } in
        alters_file j f1 (opened i omode ip) here1 (
          next
            (by_test (has omode o_trunc && (ip.copy.type == t_file))
              (lift_keeps s3 sound3 (itrunc i) (omega arith) (λ t b. itrunc-Keeps i t)) (done tt))
            (next (unlocks s3 sound3 me i (omega arith)) (
              leaves_with s3 sound3 me {n = 0} (Opens omode s0) fd (λ t o.
                opens i j f g e here unused (opened-IsOpen i omode ip f1 refl)
                  (o.frame
                    ∙ ap₂ (λ c d. record s0 { fs = t.fs; outstanding = c; ftable = d; ofile = l })
                        (omega arith) (set-set s0.ftable j f1 g))
                  (λ k. omega (arith, o.counts k)))))))

  installs :
      (i : ℕ) → Clean s0.ftable → Runs (Owes s0 1 (i ∷ [])) (install me i omode) (Opens omode s0)
  unfolding install
  installs i clean =
      allocs_file _
        (λ e. drops_with s0 sound me (Opens omode s0) i failure (λ t o. fails (settle s0 t o)))
        (λ j f here unused.
          let f1 = record f { ref = 1 } in
          let t1 : Ftable = set s0.ftable j f1 in
          let here1 : get_elem? t1 j ≡ some f1 =
            get_elem?-set_self s0.ftable j f1 (lt-length_of_get_elem? s0.ftable j here) in
          let bare = clean j f here unused in
          allocs_fd _ j
            (λ e. closes_unused j f1 here1 refl bare (
              drops_with (with_files (set t1 j (closed f1)) s0)
                (record { room = sound.room; home = sound.home }) me (Opens omode s0) i failure
                (λ t o. fails (reclosed j f t here unused bare o))))
            (λ fd e. fills i j fd f here unused e))

  installs_checked :
      (i : ℕ)
      → Clean s0.ftable
      → Runs (Owes s0 1 (i ∷ [])) (open_locked me i omode) (Opens omode s0)
  unfolding open_locked
  installs_checked i clean = bind (reads i) (λ ip.
      by_test ((ip.copy.type == t_device) && (leb (2 ^ 15) ip.copy.major || leb ndev ip.copy.major))
        (drops_with s0 sound me (Opens omode s0) i failure (λ t o. fails (settle s0 t o)))
        (installs i clean))

  installs_found :
      (i : ℕ) → Clean s0.ftable → Runs (Owes s0 1 (i ∷ [])) (open_found me i omode) (Opens omode s0)
  unfolding open_found
  installs_found i clean = next (locks s0 sound me i (omega arith)) (
      bind (reads i) (λ ip.
        by_test ((ip.copy.type == t_dir) && not (omode == 0))
          (drops_with s0 sound me (Opens omode s0) i failure (λ t o. fails (settle s0 t o)))
          (installs_checked i clean)))

-- sys_open, with any path and flags, either fails and leaves the reference counts of inodes, the
-- open files, the descriptors and the number of operations that have begun as they were, or returns
-- the first free descriptor, which then stands for a file that was free: its only reference is that
-- descriptor, it is open for reading and writing as the flags say, and the inode that it is open
-- for has one reference more than before, all others as many. It may panic. No file without
-- references may be set up before, the counts must be able to grow by eight, and the process must
-- hold a reference to its directory.
pub sys_open-Opens :
    (me : ℕ) (path : Option (List ℕ)) (omode : ℕ) (s : Sys)
    → Sound s
    → Clean s.ftable
    → Ends (Opens omode s) (sys_open me path omode s)
unfolding sys_open open_path create_path
sys_open-Opens me none omode s sound clean = ends (fails (refl, λ k. refl))
sys_open-Opens me (some path) omode s sound clean =
    next begins
      (by_test (has omode o_create)
        (bind (create-Owes s sound me path t_file 0 0) (λ o.
          by_held o (leaves_with s sound me (Opens omode s) failure (λ t o. fails (settle s t o)))
            (λ i. installs_checked s sound me omode i clean)))
        (bind (looks s sound me path (omega arith)) (λ d.
          by_held d.0 (leaves_with s sound me (Opens omode s) failure (λ t o. fails (settle s t o)))
            (λ i. installs_found s sound me omode i clean))))
      s (start s)
