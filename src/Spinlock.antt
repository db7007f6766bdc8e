-- ===== src/Spinlock.antt =====
-- spinlock.c: `push_off` and `pop_off` of one CPU, and one spinlock that several CPUs take. Each
-- step below is one atomic access of the lock, with what the CPU does by itself around it.
pub mod Interrupts
pub mod Exclusion
mod Tests
use pplottery.Prelude.{
  ℕ, ◌+◌, ◌-◌, Bool, true, false, ◌&&◌, Option, none, some, ◌==◌, ltb, if◌then◌else◌, Result, ok,
  panic, ◌≡◌,
}

-- `struct cpu` as far as locks go, and the CPU's interrupt enable bit (`intr_get`).
pub record Cpu : Type 0 where
  pub noff : ℕ
  pub intena : Bool
  pub intr : Bool

pub push_off : Cpu → Cpu
push_off c = record c {
  intr = false;
  intena = if c.noff == 0 then c.intr else c.intena;
  noff = c.noff + 1;
}

pub pop_off : Cpu → Result Cpu
pop_off c =
    if c.intr
    then panic
    else if ltb c.noff 1
    then panic
    else let n = c.noff - 1 in
      ok (record c { noff = n; intr = if n == 0 && c.intena then true else c.intr })

-- `struct spinlock`: `cpu` is the number of the CPU that holds the lock, or none.
pub record Lock : Type 0 where
  pub locked : Bool
  pub cpu : Option ℕ

abbrev pub initlock : Lock
initlock = record { locked = false; cpu = none }

abbrev pub is_cpu : ℕ → Option ℕ → Bool
is_cpu me none = false
is_cpu me (some i) = i == me

-- `holding(lk)` on CPU `me`
pub holding : ℕ → Lock → Bool
holding me lk = lk.locked && is_cpu me lk.cpu

-- Where a CPU stands: outside, in the loop of `acquire`, past it, between the two calls, and in
-- `release` before the lock is given up.
pub data Pc : Type 0 where
  outside spinning won inside leaving : Pc

-- The lock and the CPUs.
pub record Sys : Type 0 where
  pub lock : Lock
  pub pc : ℕ → Pc
  pub cpu : ℕ → Cpu

abbrev pub put {ℓ} : {A : Type ℓ} → (ℕ → A) → ℕ → A → ℕ → A
put f i a j = if i == j then a else f j

module _ (i : ℕ) (s : Sys) where
  -- `push_off(); if(holding(lk)) panic("acquire");`
  pub acquire_start : Result Sys
  unfolding push_off holding
  acquire_start =
      if holding i s.lock
      then panic
      else ok (record s { pc = put s.pc i spinning; cpu = put s.cpu i (push_off (s.cpu i)) })

  -- One `__sync_lock_test_and_set(&lk->locked, 1)`
  pub acquire_swap : Sys
  acquire_swap = record s {
    lock = record (s.lock) { locked = true };
    pc = if s.lock.locked then s.pc else put s.pc i won;
  }

  -- `lk->cpu = mycpu();`
  pub acquire_record : Sys
  acquire_record = record s { lock = record (s.lock) { cpu = some i }; pc = put s.pc i inside }

  -- `if(!holding(lk)) panic("release"); lk->cpu = 0;`
  pub release_start : Result Sys
  unfolding holding
  release_start =
      if holding i s.lock
      then ok (record s { lock = record (s.lock) { cpu = none }; pc = put s.pc i leaving })
      else panic

  -- `__sync_lock_release(&lk->locked); pop_off();`
  pub release_store : Result Sys
  unfolding pop_off
  release_store = elim (pop_off (s.cpu i)) [
    | ok c ↦ ok (record {
      lock = record (s.lock) { locked = false };
      pc = put s.pc i outside;
      cpu = put s.cpu i c;
    })
    | panic ↦ panic
  ]

-- A step of CPU `i`; a CPU that is outside calls `acquire`, one that is inside calls `release`.
pub data Step (s : Sys) : Sys → Type 0 where
  enter : (i : ℕ) (s' : Sys) → s.pc i ≡ outside → acquire_start i s ≡ ok s' → Step s s'
  swap : (i : ℕ) → s.pc i ≡ spinning → Step s (acquire_swap i s)
  note : (i : ℕ) → s.pc i ≡ won → Step s (acquire_record i s)
  leave : (i : ℕ) (s' : Sys) → s.pc i ≡ inside → release_start i s ≡ ok s' → Step s s'
  free : (i : ℕ) (s' : Sys) → s.pc i ≡ leaving → release_store i s ≡ ok s' → Step s s'

pub data Reach (s : Sys) : Sys → Type 0 where
  here : Reach s s
  next : {t u : Sys} → Reach s t → Step t u → Reach s u
