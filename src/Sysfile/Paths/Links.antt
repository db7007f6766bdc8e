-- ===== src/Sysfile/Paths/Links.antt =====
-- sysfile.c: the account of sys_link and sys_unlink.
use pplottery.Prelude.{
  ℕ, Bool, true, Option, none, some, List, [], ◌∷◌, ◌==◌, ◌||◌, leb, ◌^◌, not, slt32, minus_one,
  arith,
}
use pplottery.Fs.Files.{writei}
use pplottery.Fs.Files.Refs.{writei-Keeps}
use pplottery.Fs.Dirs.{dirent_size, t_dir, same_name}
use pplottery.Sysproc.{failure}
use pplottery.Sysfile.{Sys}
use pplottery.Sysfile.Paths.{
  more_links, fewer_links, unlinked, link_at, link_into, link_inode, sys_link, isdirempty,
  remove_entry, unlink_inode, unlink_from, sys_unlink, dot, dot_dot,
}
use pplottery.Sysfile.Runs.{Runs, bind, next, by_test, stuck, done}
use pplottery.Sysfile.Ledger.{
  by_held, by_found, Sound, Owes, swapped, begins, reads, alters, lift_keeps,
}
use pplottery.Sysfile.Paths.Steps.{
  locks, unlocks, updates, puts, unlockputs, links, looks_up, looks, looks_parent, leaves, drops,
  isdirempty-Keeps,
}

module _ (s0 : Sys) (sound : Sound s0) (me : ℕ) where
  -- sys_link.
  unlinks : (i : ℕ) → Runs (Owes s0 1 (i ∷ [])) (unlinked me i) (λ b. Owes s0 0 [])
  unfolding unlinked
  unlinks i = next (locks s0 sound me i (omega arith)) (
      next (alters i fewer_links)
        (next (updates s0 sound me i (omega arith)) (drops s0 sound me i failure)))

  links_at :
      (dp i : ℕ) (name : List ℕ)
      → Runs (Owes s0 1 (dp ∷ i ∷ [])) (link_at me dp i name) (λ b. Owes s0 0 [])
  unfolding link_at
  links_at dp i name = next (locks s0 sound me dp (omega arith)) (
      bind (reads dp) (λ dir. bind (reads i) (λ ip.
        bind
          (by_test (dir.dev == ip.dev) (links s0 sound me dp (omega arith) name ip.inum)
            (done minus_one))
          (λ linked. next (unlockputs s0 sound me dp (omega arith)) (
            by_test (slt32 linked 0) (unlinks i)
              (next (puts s0 sound me i (omega arith)) (leaves s0 sound me 0)))))))

  links_into :
      (i : ℕ) (new : List ℕ) → Runs (Owes s0 1 (i ∷ [])) (link_into me i new) (λ b. Owes s0 0 [])
  unfolding link_into
  links_into i new =
      bind (looks_parent s0 sound me new (omega arith))
        (λ d. by_held d.0 (unlinks i) (λ dp. links_at dp i d.1))

  links_inode :
      (i : ℕ) (new : List ℕ) → Runs (Owes s0 1 (i ∷ [])) (link_inode me i new) (λ b. Owes s0 0 [])
  unfolding link_inode
  links_inode i new = next (locks s0 sound me i (omega arith)) (
      bind (reads i) (λ ip. by_test (ip.copy.type == t_dir) (drops s0 sound me i failure) (
        next (alters i more_links) (
          next (updates s0 sound me i (omega arith))
            (next (unlocks s0 sound me i (omega arith)) (links_into i new))))))

  pub sys_link-Owes :
      (old new : Option (List ℕ)) → Runs (Owes s0 0 []) (sys_link me old new) (λ b. Owes s0 0 [])
  unfolding sys_link
  sys_link-Owes none new = done failure
  sys_link-Owes (some old) none = done failure
  sys_link-Owes (some old) (some new) = next begins (
      bind (looks s0 sound me old (omega arith))
        (λ d. by_held d.0 (leaves s0 sound me failure) (λ i. links_inode i new)))

  -- sys_unlink.
  removes :
      (dp off i : ℕ) (is_dir : Bool)
      → Runs (Owes s0 1 (i ∷ dp ∷ [])) (remove_entry me dp off i is_dir) (λ b. Owes s0 0 [])
  unfolding remove_entry
  removes dp off i is_dir =
      bind
        (lift_keeps s0 sound (writei dp off dirent_size (λ x. 0) (λ tot m. m)) (omega arith)
          (λ t b. writei-Keeps dp off dirent_size (λ x. 0) (λ tot m. m) t))
        (λ r.
          by_test (not (r == dirent_size)) (stuck (Owes s0 1 (i ∷ dp ∷ [])) (λ b. Owes s0 0 [])) (
            next
              (by_test is_dir (next (alters dp fewer_links) (updates s0 sound me dp (omega arith)))
                (done tt))
              (swapped (
                next (unlockputs s0 sound me dp (omega arith)) (
                  next (alters i fewer_links)
                    (next (updates s0 sound me i (omega arith)) (drops s0 sound me i 0)))))))

  unlinks_inode :
      (dp off i : ℕ) → Runs (Owes s0 1 (i ∷ dp ∷ [])) (unlink_inode me dp off i) (λ b. Owes s0 0 [])
  unfolding unlink_inode
  unlinks_inode dp off i = next (locks s0 sound me i (omega arith)) (
      bind (reads i) (λ ip.
        by_test ((ip.copy.nlink == 0) || leb (2 ^ 15) ip.copy.nlink)
          (stuck (Owes s0 1 (i ∷ dp ∷ [])) (λ b. Owes s0 0 []))
          (bind
            (by_test (ip.copy.type == t_dir)
              (lift_keeps s0 sound (isdirempty i ip.copy.size) (omega arith)
                (λ t b. isdirempty-Keeps i ip.copy.size t))
              (done true))
            (λ empty.
              by_test empty (removes dp off i (ip.copy.type == t_dir))
                (next (unlockputs s0 sound me i (omega arith)) (drops s0 sound me dp failure))))))

  unlinks_from :
      (dp : ℕ) (name : List ℕ)
      → Runs (Owes s0 1 (dp ∷ [])) (unlink_from me dp name) (λ b. Owes s0 0 [])
  unfolding unlink_from
  unlinks_from dp name = next (locks s0 sound me dp (omega arith)) (
      by_test (same_name name dot || same_name name dot_dot) (drops s0 sound me dp failure) (
        bind (looks_up s0 sound me dp (omega arith) name)
          (λ o. by_found o (drops s0 sound me dp failure) (λ i off. unlinks_inode dp off i))))

  pub sys_unlink-Owes :
      (path : Option (List ℕ)) → Runs (Owes s0 0 []) (sys_unlink me path) (λ b. Owes s0 0 [])
  unfolding sys_unlink
  sys_unlink-Owes none = done failure
  sys_unlink-Owes (some path) = next begins (
      bind (looks_parent s0 sound me path (omega arith))
        (λ d. by_held d.0 (leaves s0 sound me failure) (λ dp. unlinks_from dp d.1)))
