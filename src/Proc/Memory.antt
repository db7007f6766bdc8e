-- ===== src/Proc/Memory.antt =====
-- The size of a process in proc.c: `growproc`. And `procinit`, `sched` with what it panics on.
use pplottery.Prelude.{
  ℕ, ◌+◌, ◌%◌, ◌^◌, Bool, not, none, some, [], ◌∷◌, ◌==◌, get_elem?, if◌then◌else◌, minus_one,
  slt32, sext64, Result, ok, panic,
}
use pplottery.Proc.{Proc, Table, unused, is_running, modify}
use pplottery.Proc.Services.{Services}
use pplottery.Proc.Life.{Kernel}
use pplottery.Spinlock.{Cpu}

-- `procinit`: every slot is UNUSED and has its kernel stack, `kstack i` being `KSTACK(i)`.
procinit : (kstack : ℕ → ℕ) (i : ℕ) → Table → Table
procinit kstack i [] = []
procinit kstack i (p ∷ ps) =
    record p { state = unused; kstack = kstack i } ∷ procinit kstack (i + 1) ps

-- `sched` up to its `swtch`, by a process that holds its lock or not: the CPU as it switches.
pub sched : (holds : Bool) → Proc → Cpu → Result Cpu
sched holds p c =
    if not holds
    then panic
    else if not (c.noff == 1)
    then panic
    else if is_running p.state
    then panic
    else if c.intr
    then panic
    else ok c

-- What `sched` does when the process runs again, on the CPU `d`, after it left `c`.
sched_back : Cpu → Cpu → Cpu
sched_back c d = record d { intena = c.intena }

module _ (sv : Services) where
  open sv use {Rest, uvmalloc, uvmdealloc}

  -- `growproc(n)` of the process in slot `me`, `n` being the pattern of an `int`.
  unfoldable pub growproc : (n me : ℕ) → Kernel Rest → ℕ × Kernel Rest
  growproc n me k = elim (get_elem? k.table me) [
    | none ↦ (minus_one, k)
    | some p ↦
        let wanted = (p.sz + sext64 n) % 2 ^ 64 in
        let (grown, r) = uvmalloc p.pagetable p.sz wanted k.rest in
        let (shrunk, q) = uvmdealloc p.pagetable p.sz wanted k.rest in
        if slt32 0 n
        then (if grown == 0 then (minus_one, record k { rest = r }) else (
          0,
          record k { table = modify me (λ p. record p { sz = grown }) k.table; rest = r },
        ))
        else if slt32 n 0
        then (0, record k { table = modify me (λ p. record p { sz = shrunk }) k.table; rest = q })
        else (0, k)
  ]
