-- ===== src/Proc/Tests.antt =====
-- The theorems on the process table at concrete tables.
use pplottery.Prelude.{
  ℕ, zero, suc, ◌+◌, ◌*◌, ◌<◌, ◌≡◌, refl, sym, ◌∙◌, true, false, none, some, [], ◌∷◌, get_elem?,
  some_inj, ok, arith,
}
use pplottery.Proc.{
  Proc, Table, unused, used, sleeping, runnable, zombie, is_unused, no_chan, of_proc, of_object,
  modify,
}
use pplottery.Proc.Scheduler.{Sched, count_tickets, scheduler_round}
use pplottery.Proc.Scheduler.Share.{share_at}
use pplottery.Proc.Scheduler.Lottery.{wins, lottery_fair}
use pplottery.Proc.Scheduler.RoundRobin.{
  has, runnable_at-modify, KeepsOthers, scheduler_round-no_starvation,
}
use pplottery.Proc.Services.{Services}
use pplottery.Proc.Signal.{kill}
use pplottery.Proc.Life.{Kernel, allocproc, exit, wait_round}
use pplottery.Proc.Life.Pids.{PidsOk, allocproc-kill_zero}
use pplottery.Proc.Life.Reparent.{is_child}
use pplottery.Proc.Life.Exit.{exit-wakes_parent}
use pplottery.Proc.Life.Wait.{reap, wait_round-reap}

abbrev blank : Proc
blank = record {
  state = unused;
  chan = no_chan;
  killed = 0;
  xstate = 0;
  pid = 0;
  tickets = 0;
  parent = none;
  kstack = 0;
  sz = 0;
  pagetable = 0;
  trapframe = 0;
  regs = record { epc = 0; sp = 0; a0 = 0; others = [] };
  context = record { ra = 0; sp = 0; saved = [] };
  ofile = 0 ∷ [];
  cwd = 0;
  name = 0 ∷ [];
}

-- `init`, a parent that sleeps in `wait`, its child, a process that sleeps on a pipe, a free slot.
abbrev init : Proc
init = record blank { state = runnable; pid = 1; tickets = 10 }

abbrev parent : Proc
parent = record blank { state = sleeping; chan = of_proc 1; pid = 2; tickets = 30; parent = some 0 }

abbrev child : Proc
child = record blank {
  state = runnable;
  pid = 3;
  tickets = 20;
  parent = some 1;
  ofile = 7 ∷ [];
  cwd = 9;
}

abbrev reader : Proc
reader = record blank { state = sleeping; chan = of_object 99; pid = 4; parent = some 2 }

abbrev table : Table
table = init ∷ parent ∷ child ∷ reader ∷ blank ∷ []

abbrev start_state : Sched
start_state = record { table = table; cpu_proc = none; seed = 1 }

-- The state is the number of pages handed out.
abbrev services : Services
services = record {
  Rest = ℕ;
  kalloc = λ r. ((r + 1) * 4096, r + 1);
  kfree = λ a r. r;
  proc_pagetable = λ page r. ((r + 1) * 4096, r + 1);
  proc_freepagetable = λ pt sz r. r;
  uvmcopy = λ old new sz r. (true, r);
  uvmalloc = λ pt old new r. (new, r);
  uvmdealloc = λ pt old new r. (new, r);
  copyout = λ pt addr v r. (true, r);
  filedup = λ f r. r;
  fileclose = λ f r. (of_object 99 ∷ [], r);
  idup = λ ip r. r;
  iput = λ ip r. ([], r);
}

abbrev kernel : Kernel ℕ
kernel = record { table = table; nextpid = 5; rest = 0 }

lottery_fair_example : wins (count_tickets table 0) table 2 ≡ share_at 2 table
lottery_fair_example = lottery_fair table 2 (omega arith)

-- Whatever runs sleeps on a channel of its own.
abbrev sleeper : ℕ → Table → Table
sleeper i t = modify i (λ p. record p { chan = of_object 5; state = sleeping }) t

sleeper-KeepsOthers : KeepsOthers sleeper
sleeper-KeepsOthers = record {
  others = λ i j t ne h.
      runnable_at-modify i j (λ p. record p { chan = of_object 5; state = sleeping }) t ne ∙ h;
}

scheduler_round-no_starvation_example :
    has 2 (scheduler_round sleeper 0 (λ t. t) start_state).0 ≡ true
scheduler_round-no_starvation_example =
    scheduler_round-no_starvation sleeper sleeper-KeepsOthers 0 2 start_state (λ e. omega arith)
      refl

abbrev small : Kernel ℕ
small = record { table = init ∷ blank ∷ []; nextpid = 2; rest = 0 }

small-in_range :
    (i : ℕ) (p : Proc)
    → get_elem? small.table i ≡ some p
    → is_unused p.state ≡ false
    → (0 < p.pid) × (p.pid < 2)
small-in_range zero p e h = ground (arith, some_inj e)
small-in_range (suc zero) p e h = ground (arith, some_inj e)
small-in_range (suc (suc i)) p e h = ground (arith)

small_used :
    (i : ℕ) (p : Proc) → get_elem? small.table i ≡ some p → is_unused p.state ≡ false → i ≡ 0
small_used zero p e h = refl
small_used (suc zero) p e h = absurd (ground (arith, some_inj e))
small_used (suc (suc i)) p e h = absurd (ground arith)

small-distinct :
    (i j : ℕ) (p q : Proc)
    → get_elem? small.table i ≡ some p
    → get_elem? small.table j ≡ some q
    → is_unused p.state ≡ false
    → is_unused q.state ≡ false
    → p.pid ≡ q.pid
    → i ≡ j
small-distinct i j p q e f u v h = small_used i p e u ∙ sym (small_used j q f v)

small-PidsOk : PidsOk small.table 2
small-PidsOk = record { in_range = small-in_range; distinct = small-distinct }

allocproc-kill_zero_example :
    ((kill 0 table).0 ≡ 0)
    × (new : Proc) × (get_elem?
          (allocproc services 77 (record kernel { table = (kill 0 table).1 })).1.table
          4
        ≡ some new)
    × (new.state ≡ used)
    × (new.killed ≡ 1)
unfolding allocproc kill
allocproc-kill_zero_example =
    allocproc-kill_zero services 77 kernel 4 (refl, (refl, (refl, (refl, (refl, tt))))) refl

exit-wakes_parent_example :
    (k' : Kernel ℕ) × (z w : Proc) × (exit services 2 0 6 kernel ≡ ok k')
    × (get_elem? k'.table 2 ≡ some z)
    × (z.state ≡ zombie)
    × (z.xstate ≡ 6)
    × (get_elem? k'.table 1 ≡ some w)
    × (w.state ≡ runnable)
    × ((j : ℕ) → is_child 2 (get_elem? k'.table j) ≡ false)
exit-wakes_parent_example =
    exit-wakes_parent services 2 0 6 1 kernel child parent (λ e. omega arith) (λ e. omega arith)
      refl refl refl refl refl

-- The child has exited with status 6.
abbrev exited : Kernel ℕ
exited = record kernel {
  table = init ∷ parent ∷ record child { state = zombie; xstate = 6 } ∷ reader ∷ blank ∷ [];
}

wait_round-reap_example :
    wait_round services 1 64 exited
    ≡ ok (reap services 64 0 (2, record child { state = zombie; xstate = 6 }) exited)
wait_round-reap_example = wait_round-reap services 1 64 exited parent refl
