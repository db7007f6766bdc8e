-- ===== src/Proc/Life.antt =====
-- The life of a process in proc.c: `allocpid`, `allocproc`, `freeproc`, `fork`, `reparent`, `exit`
-- and `wait`. `me` is the slot of `myproc()`. Each definition is what one CPU does from one `acquire`
-- of `wait_lock` or of a `p->lock` to the matching `release`; `fork` is its three parts in a row.
pub mod Alloc
pub mod Pids
pub mod Reparent
pub mod Exit
pub mod Wait
use pplottery.Prelude.{
  ℕ, zero, suc, ◌+◌, Bool, true, false, ◌||◌, not, Option, none, some, List, [], ◌∷◌, ◌++◌, ◌==◌,
  get_elem?, set, if◌then◌else◌, minus_one, add32, length, map, Result, ok, panic,
}
use pplottery.Str.{safestrcpy}
use pplottery.Proc.{
  Proc, Table, unused, used, runnable, zombie, Chan, no_chan, of_proc, is_unused, is_zombie,
  same_slot, modify,
}
use pplottery.Proc.Services.{Services}
use pplottery.Proc.Signal.{wakeup, wakeups}

-- The table, `nextpid`, and what the other parts of the kernel keep.
pub record Kernel (R : Type 0) : Type 0 where
  pub table : Table
  pub nextpid : ℕ
  pub rest : R

abbrev page_size : ℕ
page_size = 4096

-- The first UNUSED slot, from slot `i` on.
pub find_unused : ℕ → Table → Option (ℕ × Proc)
find_unused i [] = none
find_unused i (p ∷ ps) =
    let rest = find_unused (i + 1) ps in if is_unused p.state then some (i, p) else rest

-- The fields that `freeproc` clears.
abbrev pub cleared : Proc → Proc
cleared p = record p {
  trapframe = 0;
  pagetable = 0;
  sz = 0;
  pid = 0;
  parent = none;
  name = set p.name 0 0;
  chan = no_chan;
  killed = 0;
  xstate = 0;
  state = unused;
}

-- The channel of a `struct proc *`, null included.
abbrev pub chan_of : Option ℕ → Chan
chan_of none = no_chan
chan_of (some i) = of_proc i

-- `pp->parent = initproc; wakeup(initproc)` at slot `i`.
adopt_and_wake : (i me init : ℕ) → Table → Table
adopt_and_wake i me init t =
    wakeup (of_proc init) (some me) (modify i (λ q. record q { parent = some init }) t)

-- The processes whose parent is `me` get the parent `init`; each such slot is followed by a
-- `wakeup(initproc)` over the whole table. `n` slots are left, from slot `i` on.
pub reparent_from : (n i me init : ℕ) → Table → Table
reparent_from zero i me init t = t
reparent_from (suc n) i me init t = elim (get_elem? t i) [
  | none ↦ t
  | some p ↦
      reparent_from n (i + 1) me init
        (if same_slot p.parent (some me) then adopt_and_wake i me init t else t)
]

pub reparent : (me init : ℕ) → Table → Table
unfolding reparent_from
reparent me init t = reparent_from (length t) 0 me init t

module _ (sv : Services) where
  open sv use {
    Rest, kalloc, kfree, proc_pagetable, proc_freepagetable, uvmcopy, uvmalloc, uvmdealloc, copyout,
  }
  open sv use {filedup, fileclose, idup, iput}

  -- What `freeproc` gives back, and the process after it.
  abbrev pub free_memory : Proc → Rest → Rest
  free_memory p r =
      let r1 = if p.trapframe == 0 then r else kfree p.trapframe r in
      if p.pagetable == 0 then r1 else proc_freepagetable p.pagetable p.sz r1

  pub freeproc : Proc → Rest → Proc × Rest
  freeproc p r = (cleared p, free_memory p r)

  -- `allocproc` from `found:` on: whether it succeeds, the process, the rest.
  pub init_proc : (pid forkret : ℕ) → Proc → Rest → Bool × Proc × Rest
  unfolding freeproc
  init_proc pid forkret p r =
      let q = record p { pid = pid; state = used; tickets = 10 } in
      let (page, r1) = kalloc r in
      let q1 = record q { trapframe = page } in
      let freed1 = freeproc q1 r1 in
      if page == 0
      then (false, freed1.0, freed1.1)
      else let (pt, r2) = proc_pagetable page r1 in
        let q2 = record q1 { pagetable = pt } in
        let freed2 = freeproc q2 r2 in
        if pt == 0 then (false, freed2.0, freed2.1) else (
          true,
          record q2 {
            context = record {
              ra = forkret;
              sp = q2.kstack + page_size;
              saved = map (λ _. 0) q2.context.saved;
            };
          },
          r2,
        )

  -- `allocproc`: the slot, or none, and the kernel after it.
  unfoldable pub allocproc : (forkret : ℕ) → Kernel Rest → Option ℕ × Kernel Rest
  unfolding find_unused init_proc
  allocproc forkret k = elim (find_unused 0 k.table) [
    | none ↦ (none, k)
    | some (i, p) ↦
        let (done, q, r) = init_proc k.nextpid forkret p k.rest in
        (
          if done then some i else none,
          record k { table = set k.table i q; nextpid = add32 k.nextpid 1; rest = r },
        )
  ]

  -- `for(i = 0; i < NOFILE; i++) if(p->ofile[i]) np->ofile[i] = filedup(p->ofile[i]);`
  dup_files : List ℕ → List ℕ → Rest → List ℕ × Rest
  dup_files [] child r = (child, r)
  dup_files (f ∷ fs) [] r = ([], r)
  dup_files (f ∷ fs) (c ∷ cs) r =
      let (cs', r') = dup_files fs cs (if f == 0 then r else filedup f r) in
      ((if f == 0 then c else f) ∷ cs', r')

  -- The child that `fork` fills in, once its memory is copied.
  copy_proc : Proc → Proc → Rest → Proc × Rest
  unfolding dup_files safestrcpy
  copy_proc p np r =
      let (files, r') = dup_files p.ofile np.ofile r in
      (
        record np {
          sz = p.sz;
          regs = record p.regs { a0 = 0 };
          ofile = files;
          cwd = p.cwd;
          name = safestrcpy np.name p.name 16;
        },
        idup p.cwd r',
      )

  -- `fork` up to the release of `np->lock`: the child's slot and pid.
  fork_copy : (forkret me : ℕ) → Kernel Rest → Option (ℕ × ℕ) × Kernel Rest
  unfolding allocproc copy_proc freeproc
  fork_copy forkret me k = elim (get_elem? k.table me) [
    | none ↦ (none, k)
    | some p ↦
        let (slot, k1) = allocproc forkret k in
        elim slot [
          | none ↦ (none, k1)
          | some i ↦ elim (get_elem? k1.table i) [
            | none ↦ (none, k1)
            | some np ↦
                let (copied, r2) = uvmcopy p.pagetable np.pagetable p.sz k1.rest in
                let freed = freeproc np r2 in
                let child = copy_proc p np r2 in
                if copied
                then (
                  some (i, np.pid),
                  record k1 { table = set k1.table i child.0; rest = child.1 },
                )
                else (none, record k1 { table = set k1.table i freed.0; rest = freed.1 })
          ]
        ]
  ]

  -- `fork`: the child's pid, or -1.
  pub fork : (forkret me : ℕ) → Kernel Rest → ℕ × Kernel Rest
  unfolding fork_copy
  fork forkret me k =
      let (child, k1) = fork_copy forkret me k in
      elim child [
        | none ↦ (minus_one, k1)
        | some (i, pid) ↦
            let t2 = modify i (λ np. record np { parent = some me }) k1.table in
            (pid, record k1 { table = modify i (λ np. record np { state = runnable }) t2 })
      ]

  pub close_files : List ℕ → Rest → List Chan × Rest
  close_files [] r = ([], r)
  close_files (f ∷ fs) r =
      let (cs, r1) = if f == 0 then ([], r) else fileclose f r in
      let (ds, r2) = close_files fs r1 in (cs ++ ds, r2)

  -- The part of `exit` of slot `me`, whose process is `p`, that changes the table.
  pub exit_family : (me init status : ℕ) → Proc → Kernel Rest → Kernel Rest
  unfolding reparent
  exit_family me init status p k =
      let t1 = modify me (λ q. record q { ofile = map (λ _. 0) q.ofile; cwd = 0 }) k.table in
      let t2 = wakeup (chan_of p.parent) (some me) (reparent me init t1) in
      record k { table = modify me (λ q. record q { xstate = status; state = zombie }) t2 }

  -- `exit` of slot `me`, whose process is `p`, up to the call of `sched`. The wakeups while files are
  -- closed come before what `exit` does to the table.
  pub exit_proc : (me init status : ℕ) → Proc → Kernel Rest → Kernel Rest
  unfolding close_files exit_family
  exit_proc me init status p k =
      let (cs, r1) = close_files p.ofile k.rest in
      let (ds, r2) = iput p.cwd r1 in
      exit_family me init status p
        (record k { table = wakeups (cs ++ ds) (some me) k.table; rest = r2 })

  pub exit : (me init status : ℕ) → Kernel Rest → Result (Kernel Rest)
  unfolding exit_proc
  exit me init status k =
      if me == init
      then panic
      else elim (get_elem? k.table me) [ none ↦ panic | some p ↦ ok (exit_proc me init status p k) ]

  -- What one scan of the table by `wait` comes to: the result of the call, or a further wait.
  pub data Scan : Type 0 where
    returns : ℕ → Kernel Rest → Scan
    waits : Kernel Rest → Scan

  -- The scan for an exited child, `n` slots from slot `i` on. `pt` is the caller's page table.
  pub scan_from : (n i me addr pt : ℕ) → Bool → Kernel Rest → Option Scan × Bool
  unfolding freeproc
  scan_from zero i me addr pt havekids k = (none, havekids)
  scan_from (suc n) i me addr pt havekids k = elim (get_elem? k.table i) [
    | none ↦ (none, havekids)
    | some pp ↦
        let passed = scan_from n (i + 1) me addr pt havekids k in
        let counted = scan_from n (i + 1) me addr pt true k in
        let (copied, r) = if addr == 0 then (true, k.rest) else copyout pt addr pp.xstate k.rest in
        let freed = freeproc pp r in
        if same_slot pp.parent (some me)
        then (if is_zombie pp.state
            then (
              some (
                  if copied
                  then returns pp.pid (record k { table = set k.table i freed.0; rest = freed.1 })
                  else returns minus_one (record k { rest = r })),
              true,
            )
            else counted)
        else passed
  ]

  -- One round of the `for(;;)` of `wait`.
  pub wait_round : (me addr : ℕ) → Kernel Rest → Result Scan
  unfolding scan_from
  wait_round me addr k = elim (get_elem? k.table me) [
    | none ↦ panic
    | some p ↦
        let (found, havekids) = scan_from (length k.table) 0 me addr p.pagetable false k in
        elim found [
          | some s ↦ ok s
          | none ↦ ok (if not havekids || not (p.killed == 0) then returns minus_one k else waits k)
        ]
  ]
