-- ===== src/Proc/Scheduler.antt =====
-- `scheduler` of proc.c: one round of the lottery and one of round robin. While a process runs,
-- control is with it: `run i` is what it and the other CPUs do to the table until it gives the
-- CPU back, and `between` is what the other CPUs do between the two passes of the lottery.
pub mod Share
pub mod Lottery
pub mod RoundRobin
use pplottery.Prelude.{
  ℕ, zero, suc, ◌+◌, Option, none, some, List, [], ◌∷◌, get_elem?, length, ◌==◌, add32, slt32,
  if◌then◌else◌,
}
use pplottery.Random.{random}
use pplottery.Proc.{Proc, Table, running, is_runnable, modify}

-- What `scheduler` keeps: the table, `c->proc` of its CPU, the seed of `random`.
pub record Sched : Type 0 where
  pub table : Table
  pub cpu_proc : Option ℕ
  pub seed : ℕ

-- The first pass: the tickets of the runnable processes.
unfoldable pub count_tickets : Table → ℕ → ℕ
count_tickets [] total = total
count_tickets (p ∷ ps) total =
    count_tickets ps (if is_runnable p.state then add32 total p.tickets else total)

-- The second pass: the slot at which the running sum first exceeds the winning ticket.
unfoldable pub pick : (winning sum i : ℕ) → Table → Option ℕ
pick winning sum i [] = none
pick winning sum i (p ∷ ps) =
    let skipped = pick winning sum (i + 1) ps in
    let passed = pick winning (add32 sum p.tickets) (i + 1) ps in
    if is_runnable p.state
    then (if slt32 winning (add32 sum p.tickets) then some i else passed)
    else skipped

abbrev pub set_running : Proc → Proc
set_running p = record p { state = running }

module _ (run : ℕ → Table → Table) where
  -- `p->state = RUNNING; c->proc = p; swtch(..); c->proc = 0`
  abbrev pub dispatch : ℕ → Sched → Sched
  dispatch i s = record s { table = run i (modify i set_running s.table); cpu_proc = none }

  -- One pass of the `for (;;)` with `scheduler_mode == 1`, and the slot that it ran.
  unfoldable pub lottery_round : (Table → Table) → Sched → Option ℕ × Sched
  lottery_round between s =
      let total = count_tickets s.table 0 in
      if total == 0
      then (none, s)
      else let drawn = random total s.seed in
        let s' = record s { table = between s.table; seed = drawn.1 } in
        elim (pick drawn.0 0 0 s'.table) [ none ↦ (none, s') | some i ↦ (some i, dispatch i s') ]

  -- The round-robin pass over `n` slots from slot `i` on, and the slots that it ran, in order.
  pub rr_from : (n i : ℕ) → Sched → List ℕ × Sched
  rr_from zero i s = ([], s)
  rr_from (suc n) i s = elim (get_elem? s.table i) [
    | none ↦ ([], s)
    | some p ↦
        let ran = rr_from n (i + 1) (dispatch i s) in
        let passed = rr_from n (i + 1) s in
        if is_runnable p.state then (i ∷ ran.0, ran.1) else passed
  ]

  -- One pass of the `for (;;)` of `scheduler`, in either mode.
  pub scheduler_round : ℕ → (Table → Table) → Sched → List ℕ × Sched
  scheduler_round mode between s =
      if mode == 1
      then (let (ran, s') = lottery_round between s in
          (elim ran [ none ↦ [] | some i ↦ i ∷ [] ], s'))
      else rr_from (length s.table) 0 s
