-- ===== src/Proc/Services.antt =====
-- What proc.c calls of the other parts of the kernel, over a state `Rest` that it does not look
-- into: kalloc.c and vm.c for memory, file.c and fs.c for open files. A pointer that is 0 is null.
use pplottery.Prelude.{ℕ, Bool, List}
use pplottery.Proc.{Chan}

pub record Services : Type 1 where
  pub Rest : Type 0
  pub kalloc : Rest → ℕ × Rest
  pub kfree : ℕ → Rest → Rest
  -- `proc_pagetable`, of the page of the trapframe
  pub proc_pagetable : ℕ → Rest → ℕ × Rest
  -- `proc_freepagetable(pagetable, sz)`
  pub proc_freepagetable : ℕ → ℕ → Rest → Rest
  -- `uvmcopy(old, new, sz)`: whether it succeeds
  pub uvmcopy : ℕ → ℕ → ℕ → Rest → Bool × Rest
  -- `uvmalloc(pagetable, oldsz, newsz, PTE_W)`: the new size, or 0; and `uvmdealloc`
  pub uvmalloc : ℕ → ℕ → ℕ → Rest → ℕ × Rest
  pub uvmdealloc : ℕ → ℕ → ℕ → Rest → ℕ × Rest
  -- `copyout(pagetable, addr, &xstate, sizeof(xstate))`: whether it succeeds
  pub copyout : ℕ → ℕ → ℕ → Rest → Bool × Rest
  -- None of the services panics. `fileclose`, and `begin_op(); iput(ip); end_op()`, also give the
  -- channels that they call wakeup for, as pipeclose and end_op do.
  pub filedup : ℕ → Rest → Rest
  pub fileclose : ℕ → Rest → List Chan × Rest
  pub idup : ℕ → Rest → Rest
  pub iput : ℕ → Rest → List Chan × Rest
