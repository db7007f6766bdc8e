-- ===== src/Sysfile/Paths/Refs.antt =====
-- sysfile.c: what the system calls on paths leave of the references to inodes.
use pplottery.Prelude.{
  ◌∙◌, sym, ◌∷◌, ◌⊎◌, inl, inr, ◌-◌, ◌<◌, subst, Result-cases, refl, ◌==◌, not, none, some, ℕ, ◌+◌,
  ◌≡◌, ap, Option, List, [], ok, arith,
}
use pplottery.Fs.Itable.Refs.{ref_at, at_slot, Bounded}
use pplottery.Sysfile.{Sys, ◌>>◌, lift, end_op}
use pplottery.Sysfile.Paths.{sys_link, sys_unlink, enter_dir, chdir_into, sys_chdir}
use pplottery.Sysfile.Create.{sys_mkdir, sys_mknod}
use pplottery.Sysproc.{failure}
use pplottery.Fs.Itable.{iput}
use pplottery.Fs.Itable.Gives.{Gives, iput-Gives}
use pplottery.Fs.Dirs.{t_dir}
use pplottery.Sysfile.Paths.Steps.{locks, unlocks, drops_with, leaves_with, looks}
use pplottery.Sysfile.Runs.{weaken, ends, panics, Runs, bind, next, by_test, Ends}
use pplottery.Sysfile.Ledger.{by_held, begins, reads, Sound, Owes}
use pplottery.Sysfile.Paths.Links.{sys_link-Owes, sys_unlink-Owes}
use pplottery.Sysfile.Create.Refs.{sys_mkdir-Owes, sys_mknod-Owes}

-- All is as it was but what fs.c keeps beside the reference counts.
abbrev pub Settled : Sys → Sys → Type 0
Settled s t = (t ≡ record s { fs = t.fs }) × ((k : ℕ) → ref_at k t.fs.itable ≡ ref_at k s.fs.itable)

pub settle : (s t : Sys) → Owes s 0 [] t → Settled s t
settle s t o = (
  o.frame ∙ ap (λ c. record s { fs = t.fs; outstanding = c }) (omega arith),
  λ k. omega (arith, o.counts k),
)

pub start : (s : Sys) → Owes s 0 [] s
start s = record {
  frame = ap (λ c. record s { outstanding = c }) (omega arith);
  counts = (λ k. omega arith);
}

-- sys_link, sys_unlink, sys_mkdir and sys_mknod, on each of their paths and whatever they find there,
-- give back every reference to an inode that they take and end every operation that they begin; the
-- open files, the descriptors and the directory of the process stay as they are. The reference
-- counts must be able to grow by eight, and the process must hold a reference to its directory. A
-- call may panic.
pub sys_link-sys_unlink-sys_mkdir-sys_mknod-Settled :
    (me : ℕ) (path new : Option (List ℕ)) (major minor : ℕ) (s : Sys)
    → Sound s
    → Ends (λ r. Settled s) (sys_link me path new s)
      × Ends (λ r. Settled s) (sys_unlink me path s)
      × Ends (λ r. Settled s) (sys_mkdir me path s)
      × Ends (λ r. Settled s) (sys_mknod me path major minor s)
sys_link-sys_unlink-sys_mkdir-sys_mknod-Settled me path new major minor s sound = (
  weaken (sys_link-Owes s sound me path new) (λ r. settle s) s (start s),
  weaken (sys_unlink-Owes s sound me path) (λ r. settle s) s (start s),
  weaken (sys_mkdir-Owes s sound me path) (λ r. settle s) s (start s),
  weaken (sys_mknod-Owes s sound me path major minor) (λ r. settle s) s (start s),
)

-- The reference to the directory has gone over to the new one, of which the process may be in
-- already; a call that fails does not move.
abbrev pub Moved : Sys → ℕ → Sys → Type 0
Moved s r t =
    (t ≡ record s { fs = t.fs; cwd = t.cwd })
    × ((r ≡ 0) ⊎ (t.cwd ≡ s.cwd))
    × ((k : ℕ) → ref_at k t.fs.itable + at_slot s.cwd k ≡ ref_at k s.fs.itable + at_slot t.cwd k)

module _ (s0 : Sys) (sound : Sound s0) (me : ℕ) where
  enters : (i : ℕ) → Runs (Owes s0 1 (i ∷ [])) (enter_dir i) (Moved s0)
  unfolding enter_dir lift end_op ◌>>◌
  enters i s o = elim (Result-cases (iput s.cwd s.fs)) [
    | inl e ↦ rw (enter_dir, lift, ◌>>◌, e) panics
    | inr ((a, t), e) ↦
        let at_home : s.cwd ≡ s0.cwd = ap (λ (u : Sys). u.cwd) o.frame in
        let due = o.counts s.cwd in
        let present : 0 < ref_at s.cwd s.fs.itable =
          rw at_home (omega (arith, sound.home, o.counts s0.cwd)) in
        let small : Bounded 0 s.fs = (λ k. ground (arith, sound.room k, o.counts k)) in
        let less : Gives s.cwd s.fs (ok (a, t)) = rw e at (iput-Gives s.cwd s.fs small present) in
        let back : s.outstanding - 1 ≡ s0.outstanding =
          ap (λ (u : Sys). u.outstanding - 1) o.frame ∙ omega arith in
        rw (enter_dir, lift, ◌>>◌, e)
          (ends (
            ap (λ (u : Sys). record u { fs = t; outstanding = s.outstanding - 1; cwd = i }) o.frame
                ∙ ap (λ c. record s0 { fs = t; outstanding = c; cwd = i }) back,
            inl refl,
            λ k. omega (
              arith,
              subst (λ c. ref_at k t.itable + at_slot c k ≡ ref_at k s.fs.itable) at_home (less k),
              o.counts k,
            ),
          ))
  ]

  stayed : (r : ℕ) (t : Sys) → Owes s0 0 [] t → Moved s0 r t
  stayed r t o = (
    o.frame
        ∙ ap (λ c. record s0 { fs = t.fs; outstanding = c }) (omega arith)
        ∙ ap (λ c. record s0 { fs = t.fs; cwd = c }) (sym (ap (λ (u : Sys). u.cwd) o.frame)),
    inr (ap (λ (u : Sys). u.cwd) o.frame),
    λ k. ground (arith, o.counts k, ap (λ (u : Sys). u.cwd) o.frame),
  )

  chdirs_into : (i : ℕ) → Runs (Owes s0 1 (i ∷ [])) (chdir_into me i) (Moved s0)
  unfolding chdir_into
  chdirs_into i = next (locks s0 sound me i (omega arith)) (
      bind (reads i) (λ ip.
        by_test (not (ip.copy.type == t_dir))
          (drops_with s0 sound me (Moved s0) i failure (stayed failure))
          (next (unlocks s0 sound me i (omega arith)) (enters i))))

-- sys_chdir ends every operation that it begins and leaves the open files and the descriptors as they
-- are. If it succeeds, it hands its reference to the new directory over to the process, in exchange
-- for that to the old one, so all other counts are as before; if it fails, the process stays where it
-- is, with the counts of before. It may panic. The counts must be able to grow by eight, and the
-- process must hold a reference to its directory.
pub sys_chdir-Moved :
    (me : ℕ) (path : Option (List ℕ)) (s : Sys) → Sound s → Ends (Moved s) (sys_chdir me path s)
unfolding sys_chdir
sys_chdir-Moved me none s sound =
    next begins (leaves_with s sound me (Moved s) failure (stayed s sound me failure)) s (start s)
sys_chdir-Moved me (some path) s sound =
    next begins
      (bind (looks s sound me path (omega arith)) (λ d.
        by_held d.0 (leaves_with s sound me (Moved s) failure (stayed s sound me failure))
          (chdirs_into s sound me)))
      s (start s)
