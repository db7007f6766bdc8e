-- ===== src/Sysfile/Create/Refs.antt =====
-- sysfile.c: the account of `create`, sys_mkdir and sys_mknod.
use pplottery.Prelude.{
  ℕ, true, false, Option, none, some, List, [], ◌∷◌, ◌==◌, ◌||◌, ◌&&◌, ◌^◌, ◌%◌, not, slt32, arith,
}
use pplottery.Fs.Itable.{ialloc}
use pplottery.Fs.Itable.Gives.{ialloc-Finds}
use pplottery.Fs.Dirs.{t_dir}
use pplottery.Sysproc.{failure}
use pplottery.Sysfile.{Sys, t_file, t_device}
use pplottery.Sysfile.Paths.{more_links, dot, dot_dot}
use pplottery.Sysfile.Create.{
  make_fails, make_dots, make_inode, found_inode, new_inode, create_in, create, made, sys_mkdir,
  sys_mknod,
}
use pplottery.Sysfile.Runs.{Runs, bind, next, by_test, done}
use pplottery.Sysfile.Ledger.{
  by_held, by_found, held, Sound, Owes, swapped, begins, reads, alters, lift_finds,
}
use pplottery.Sysfile.Paths.Steps.{
  locks, updates, unlockputs, links, looks_up, looks_parent, leaves, drops,
}

module _ (s0 : Sys) (sound : Sound s0) (me : ℕ) where
  -- `create`, and the calls that are made of it.
  make_fails-Owes :
      (dp i : ℕ) → Runs (Owes s0 1 (i ∷ dp ∷ [])) (make_fails me dp i) (λ o. Owes s0 1 (held o []))
  unfolding make_fails
  make_fails-Owes dp i = next (alters i _) (
      next (updates s0 sound me i (omega arith)) (
        next (unlockputs s0 sound me i (omega arith))
          (next (unlockputs s0 sound me dp (omega arith)) (done none))))

  make_dots-Owes :
      (dp i : ℕ) → Runs (Owes s0 1 (i ∷ dp ∷ [])) (make_dots dp i) (λ b. Owes s0 1 (i ∷ dp ∷ []))
  unfolding make_dots
  make_dots-Owes dp i = bind (reads i) (λ ip.
      bind (links s0 sound me i (omega arith) dot ip.inum) (λ r. by_test (slt32 r 0) (done false) (
        bind (reads dp) (λ dir.
          bind (links s0 sound me i (omega arith) dot_dot dir.inum)
            (λ r'. done (not (slt32 r' 0)))))))

  make_inode-Owes :
      (dp i type major minor : ℕ) (name : List ℕ)
      → Runs
          (Owes s0 1 (i ∷ dp ∷ []))
          (make_inode me dp i type major minor name)
          (λ o. Owes s0 1 (held o []))
  unfolding make_inode
  make_inode-Owes dp i type major minor name = next (locks s0 sound me i (omega arith)) (
      next (alters i _) (
        next (updates s0 sound me i (omega arith)) (
          bind (by_test (type == t_dir) (make_dots-Owes dp i) (done true)) (λ dots.
            by_test (not dots) (make_fails-Owes dp i) (
              bind (reads i) (λ ip. bind (links s0 sound me dp (omega arith) name ip.inum) (λ r.
                by_test (slt32 r 0) (make_fails-Owes dp i) (
                  next
                    (by_test (type == t_dir)
                      (next (alters dp more_links) (updates s0 sound me dp (omega arith)))
                      (done tt))
                    (swapped
                      (next (unlockputs s0 sound me dp (omega arith)) (done (some i))))))))))))

  found_inode-Owes :
      (dp i type : ℕ)
      → Runs (Owes s0 1 (i ∷ dp ∷ [])) (found_inode me dp i type) (λ o. Owes s0 1 (held o []))
  unfolding found_inode
  found_inode-Owes dp i type = swapped (
      next (unlockputs s0 sound me dp (omega arith)) (
        next (locks s0 sound me i (omega arith)) (
          bind (reads i) (λ ip.
            by_test ((type == t_file) && ((ip.copy.type == t_file) || (ip.copy.type == t_device)))
              (done (some i)) (next (unlockputs s0 sound me i (omega arith)) (done none))))))

  new_inode-Owes :
      (dp type major minor : ℕ) (name : List ℕ)
      → Runs
          (Owes s0 1 (dp ∷ []))
          (new_inode me dp type major minor name)
          (λ o. Owes s0 1 (held o []))
  unfolding new_inode
  new_inode-Owes dp type major minor name = bind (reads dp) (λ dir.
      bind
        (lift_finds s0 sound (λ o. o) (ialloc dir.dev type) (omega arith)
          (λ t b home. ialloc-Finds dir.dev type t (λ k. omega (arith, b k))))
        (λ o.
          by_held o (next (unlockputs s0 sound me dp (omega arith)) (done none))
            (λ i. make_inode-Owes dp i type major minor name)))

  -- `create` holds one reference more, to the inode that it returns.
  pub create-Owes :
      (path : List ℕ) (type major minor : ℕ)
      → Runs (Owes s0 1 []) (create me path type major minor) (λ o. Owes s0 1 (held o []))
  unfolding create create_in
  create-Owes path type major minor = bind (looks_parent s0 sound me path (omega arith)) (λ d.
      by_held d.0 (done none) (λ dp. next (locks s0 sound me dp (omega arith)) (
        bind (looks_up s0 sound me dp (omega arith) d.1) (λ o.
          by_found o (new_inode-Owes dp type major minor d.1)
            (λ i off. found_inode-Owes dp i type)))))

  made-Owes : (o : Option ℕ) → Runs (Owes s0 1 (held o [])) (made me o) (λ b. Owes s0 0 [])
  unfolding made
  made-Owes none = leaves s0 sound me failure
  made-Owes (some i) = drops s0 sound me i 0

  pub sys_mkdir-Owes :
      (path : Option (List ℕ)) → Runs (Owes s0 0 []) (sys_mkdir me path) (λ b. Owes s0 0 [])
  unfolding sys_mkdir
  sys_mkdir-Owes none = next begins (leaves s0 sound me failure)
  sys_mkdir-Owes (some path) = next begins (bind (create-Owes path t_dir 0 0) made-Owes)

  pub sys_mknod-Owes :
      (path : Option (List ℕ)) (major minor : ℕ)
      → Runs (Owes s0 0 []) (sys_mknod me path major minor) (λ b. Owes s0 0 [])
  unfolding sys_mknod
  sys_mknod-Owes none major minor = next begins (leaves s0 sound me failure)
  sys_mknod-Owes (some path) major minor =
      next begins (bind (create-Owes path t_device (major % 2 ^ 16) (minor % 2 ^ 16)) made-Owes)
