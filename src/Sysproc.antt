-- ===== src/Sysproc.antt =====
-- sysproc.c: the system calls on processes. Each takes the value that `argint` or `argaddr`
-- reads, and gives the 64-bit result with the state after it.
pub mod Tickets
use pplottery.Prelude.{
  ℕ, ◌-◌, ◌^◌, Bool, not, ◌&&◌, none, some, ◌==◌, get_elem?, if◌then◌else◌, ltb, slt32, sext64,
  sub32, Result,
}
use pplottery.Proc.{Table}
use pplottery.Proc.Services.{Services}
use pplottery.Proc.Signal.{kill, settickets}
use pplottery.Proc.Life.{Kernel, Scan, fork, exit, wait_round}
use pplottery.Proc.Memory.{growproc}

-- -1 as a `uint64`
abbrev pub failure : ℕ
failure = 2 ^ 64 - 1

-- `scheduler_mode` is written here and read by the scheduler.
sys_setsched : (mode scheduler_mode : ℕ) → ℕ × ℕ
sys_setsched mode scheduler_mode =
    if not (mode == 0) && not (mode == 1) then (failure, scheduler_mode) else (0, mode)

pub sys_settickets : (n me : ℕ) → Table → ℕ × Table
unfolding settickets
sys_settickets n me t = if slt32 n 1 then (failure, t) else (0, settickets n me t)

sys_kill : (pid : ℕ) → Table → ℕ × Table
unfolding kill
sys_kill pid t = let (result, t') = kill pid t in (sext64 result, t')

sys_getpid : (me : ℕ) → Table → ℕ
sys_getpid me t = elim (get_elem? t me) [ none ↦ failure | some p ↦ sext64 p.pid ]

-- One round of the loop of `sys_sleep` that began at tick `ticks0`: it sleeps on `&ticks`, or
-- returns. The comparison of a `uint` with an `int` is one of `uint`s.
data Nap : Type 0 where
  naps : Nap
  wakes : ℕ → Nap

sys_sleep_round : (n ticks0 ticks : ℕ) (killed : Bool) → Nap
sys_sleep_round n ticks0 ticks killed =
    let m = if slt32 n 0 then 0 else n in
    if ltb (sub32 ticks ticks0) m then (if killed then wakes failure else naps) else wakes 0

sys_uptime : (ticks : ℕ) → ℕ
sys_uptime ticks = ticks

module _ (sv : Services) where
  open sv use {Rest}

  sys_exit : (n me init : ℕ) → Kernel Rest → Result (Kernel Rest)
  sys_exit n me init k = exit sv me init n k

  sys_fork : (forkret me : ℕ) → Kernel Rest → ℕ × Kernel Rest
  sys_fork forkret me k = let (pid, k') = fork sv forkret me k in (sext64 pid, k')

  -- One round of the loop of `wait`.
  sys_wait : (addr me : ℕ) → Kernel Rest → Result (Scan sv)
  sys_wait addr me k = wait_round sv me addr k

  sys_sbrk : (n me : ℕ) → Kernel Rest → ℕ × Kernel Rest
  unfolding growproc
  sys_sbrk n me k = elim (get_elem? k.table me) [
    | none ↦ (failure, k)
    | some p ↦
        let (result, k') = growproc sv n me k in (if slt32 result 0 then failure else p.sz, k')
  ]
