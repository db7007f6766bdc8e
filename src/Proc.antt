-- ===== src/Proc.antt =====
-- proc.h and the process table of proc.c: `struct proc`, `struct context`, the part of
-- `struct trapframe` that the kernel reads, and the table as a list indexed by slot.
pub mod Slots
pub mod Scheduler
pub mod Services
pub mod Signal
pub mod Life
pub mod Memory
mod Tests
use pplottery.Prelude.{ℕ, zero, suc, Bool, true, false, Option, none, some, List, [], ◌∷◌, ◌==◌}

-- `enum procstate`
pub data ProcState : Type 0 where
  unused used sleeping runnable running zombie : ProcState

-- A wait channel: the address of an object, here kept apart by kind.
pub data Chan : Type 0 where
  no_chan : Chan
  of_proc : ℕ → Chan
  of_object : ℕ → Chan

-- `struct context`, with the registers s0 to s11 in one list.
pub record Context : Type 0 where
  pub ra : ℕ
  pub sp : ℕ
  pub saved : List ℕ

-- The registers that a trap saves and the kernel reads or sets; the others in one list.
pub record Trapframe : Type 0 where
  pub epc : ℕ
  pub sp : ℕ
  pub a0 : ℕ
  pub others : List ℕ

-- `struct proc`. Pointers are numbers with 0 for null, `parent` is a slot of the table, and the
-- `int` fields are 32-bit patterns. The lock is the subject of Spinlock.
pub record Proc : Type 0 where
  pub state : ProcState
  pub chan : Chan
  pub killed : ℕ
  pub xstate : ℕ
  pub pid : ℕ
  pub tickets : ℕ
  pub parent : Option ℕ
  pub kstack : ℕ
  pub sz : ℕ
  pub pagetable : ℕ
  pub trapframe : ℕ
  pub regs : Trapframe
  pub context : Context
  pub ofile : List ℕ
  pub cwd : ℕ
  pub name : List ℕ

abbrev pub Table : Type 0
Table = List Proc

-- `p->state == RUNNABLE` and the like.
abbrev pub is_runnable : ProcState → Bool
is_runnable runnable = true
is_runnable _ = false

abbrev pub is_sleeping : ProcState → Bool
is_sleeping sleeping = true
is_sleeping _ = false

abbrev pub is_unused : ProcState → Bool
is_unused unused = true
is_unused _ = false

abbrev pub is_running : ProcState → Bool
is_running running = true
is_running _ = false

abbrev pub is_zombie : ProcState → Bool
is_zombie zombie = true
is_zombie _ = false

-- `p->chan == chan`
abbrev pub same_chan : Chan → Chan → Bool
same_chan no_chan no_chan = true
same_chan (of_proc i) (of_proc j) = i == j
same_chan (of_object a) (of_object b) = a == b
same_chan _ _ = false

-- `p == q` of two pointers to slots, null included.
abbrev pub same_slot : Option ℕ → Option ℕ → Bool
same_slot none none = true
same_slot (some i) (some j) = i == j
same_slot _ _ = false

-- `proc[i]` is changed by `f`.
abbrev pub modify : ℕ → (Proc → Proc) → Table → Table
modify i f [] = []
modify zero f (p ∷ ps) = f p ∷ ps
modify (suc i) f (p ∷ ps) = p ∷ modify i f ps

-- Slot `i` exists and its state is RUNNABLE.
abbrev pub runnable_at : ℕ → Table → Bool
runnable_at i [] = false
runnable_at zero (p ∷ ps) = is_runnable p.state
runnable_at (suc i) (p ∷ ps) = runnable_at i ps
