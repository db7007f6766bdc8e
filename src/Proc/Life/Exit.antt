-- ===== src/Proc/Life/Exit.antt =====
-- `exit`: the zombie it leaves, its children, and the parent that waits for it.
use pplottery.Prelude.{
  ℕ, ◌≡◌, ◌≢◌, refl, Bool, true, false, Option, none, some, get_elem?, arith, length, map,
  Option-cases, inl, inr, ap, ◌∙◌, ◌++◌, ℕ_discrete, ok,
}
use pplottery.Proc.{Proc, zombie, runnable, sleeping, of_proc, same_slot, modify}
use pplottery.Proc.Services.{Services}
use pplottery.Proc.Slots.{get_elem?-modify, get_elem?-modify_ne}
use pplottery.Proc.Signal.Wakeup.{
  woken, get_elem?-wakeup, stirred, get_elem?-wakeups, stirred_self, stirred-cases,
}
use pplottery.Proc.Signal.{wakeups}
use pplottery.Proc.Life.{Kernel, exit, exit_family, exit_proc, close_files, chan_of}
use pplottery.Proc.Life.Reparent.{is_child, any_child, adopted, after, get_elem?-reparent}

module _ (sv : Services) (me init status : ℕ) (k : Kernel sv.Rest) (p : Proc)
    (here : get_elem? k.table me ≡ some p) where
  abbrev closed : Proc → Proc
  closed q = record q { ofile = map (λ _. 0) q.ofile; cwd = 0 }

  abbrev any : Bool
  any = any_child (length (modify me closed k.table)) 0 me (modify me closed k.table)

  -- Another slot `j` afterwards: adopted by `init`, and woken if it is `init` with an adopted child,
  -- or the parent in `wait`.
  exit_family-other :
      (j : ℕ) (q : Proc)
      → me ≢ j
      → get_elem? k.table j ≡ some q
      → get_elem? (exit_family sv me init status p k).table j
        ≡ some (woken (chan_of p.parent) (some me) j (after any true me init j q))
  unfolding exit_family
  exit_family-other j q ne at = rw (
    get_elem?-modify_ne _ me j _ ne,
    get_elem?-wakeup,
    get_elem?-reparent,
    get_elem?-modify_ne _ me j _ ne,
    at,
  )

  exit_family-none :
      (j : ℕ)
      → me ≢ j
      → get_elem? k.table j ≡ none
      → get_elem? (exit_family sv me init status p k).table j ≡ none
  unfolding exit_family
  exit_family-none j ne at = rw (
    get_elem?-modify_ne _ me j _ ne,
    get_elem?-wakeup,
    get_elem?-reparent,
    get_elem?-modify_ne _ me j _ ne,
    at,
  )

  exit_family-me :
      get_elem? (exit_family sv me init status p k).table me
      ≡ some
          (record (closed p) { parent = adopted me init p.parent; xstate = status; state = zombie })
  unfolding exit_family
  exit_family-me =
      rw (get_elem?-modify, get_elem?-wakeup, get_elem?-reparent, get_elem?-modify, here)
        (ground arith)

module _ (sv : Services) where
  -- No process has `me` as its parent after `exit_family`.
  exit_family-orphans :
      (me init status : ℕ) (k : Kernel sv.Rest) (p : Proc)
      → get_elem? k.table me ≡ some p
      → me ≢ init
      → p.parent ≢ some me
      → (j : ℕ) → is_child me (get_elem? (exit_family sv me init status p k).table j) ≡ false
  exit_family-orphans me init status k p here ninit nself j = elim (ℕ_discrete me j) [
    | yes e ↦ rw (← e, exit_family-me sv me init status k p here) (adopted-other p.parent)
    | no ne ↦ elim (Option-cases (get_elem? k.table j)) [
      | inl out ↦ rw (exit_family-none sv me init status k p here j ne out)
      | inr (q, at) ↦ rw (exit_family-other sv me init status k p here j q ne at) (woken_parent q)
    ]
  ]
    where
      adopted-other : (o : Option ℕ) → same_slot (adopted me init o) (some me) ≡ false
      adopted-other o = ground arith

      woken_parent :
          (q : Proc)
          → is_child me (
              some (
                woken
                  (chan_of p.parent)
                  (some me)
                  j
                  (after (any sv me init status k p here) true me init j q)))
            ≡ false
      woken_parent q = ground (arith, adopted-other q.parent)

  -- If a process other than `init` exits while its parent sleeps in `wait`, then it is a zombie
  -- with the exit status, its parent is RUNNABLE, and no process has it as its parent any more,
  -- whichever processes the closing of its files has woken. Closing them is taken not to panic.
  pub exit-wakes_parent :
      (me init status par : ℕ) (k : Kernel sv.Rest) (p q : Proc)
      → me ≢ init
      → me ≢ par
      → get_elem? k.table me ≡ some p
      → p.parent ≡ some par
      → get_elem? k.table par ≡ some q
      → q.state ≡ sleeping
      → q.chan ≡ of_proc par
      → (k' : Kernel sv.Rest) × (z w : Proc) × (exit sv me init status k ≡ ok k')
        × (get_elem? k'.table me ≡ some z)
        × (z.state ≡ zombie)
        × (z.xstate ≡ status)
        × (get_elem? k'.table par ≡ some w)
        × (w.state ≡ runnable)
        × ((j : ℕ) → is_child me (get_elem? k'.table j) ≡ false)
  unfolding exit exit_proc
  exit-wakes_parent me init status par k p q ninit npar here parent at asleep chan =
      let (cs, r1) = close_files sv p.ofile k.rest in
      let (ds, r2) = sv.iput p.cwd r1 in
      let k1 : Kernel sv.Rest = record k {
        table = wakeups (cs ++ ds) (some me) k.table;
        rest = r2;
      } in
      let here' : get_elem? k1.table me ≡ some p =
        get_elem?-wakeups (cs ++ ds) k.table me (some me) here
        ∙ ap some (stirred_self (cs ++ ds) me p) in
      let at' = get_elem?-wakeups (cs ++ ds) k.table par (some me) at in
      (
        exit_family sv me init status p k1,
        _,
        _,
        rw (here, exit) (ground arith),
        exit_family-me sv me init status k1 p here',
        refl,
        refl,
        exit_family-other sv me init status k1 p here' par (stirred (cs ++ ds) (some me) par q) npar
            at',
        (elim (stirred-cases (cs ++ ds) (some me) par q) [
          | inl same ↦ rw same (ground arith)
          | inr same ↦ rw same (ground arith)
        ]),
        exit_family-orphans me init status k1 p here' ninit (ground arith),
      )
