-- ===== src/Spinlock/Tests.antt =====
-- The theorems on spinlocks at a run of two CPUs.
use pplottery.Prelude.{ℕ, ◌≡◌, ◌≢◌, refl, true, false, panic}
use pplottery.Spinlock.{
  Cpu, push_off, initlock, holding, outside, spinning, inside, put, leaving, Sys, acquire_start,
  acquire_swap, acquire_record, release_start, release_store, enter, swap, note, Reach, here, next,
}
use pplottery.Spinlock.Exclusion.{is_inside, Reach-exclusion, Reach-no_panic}

abbrev idle : Cpu
idle = record { noff = 0; intena = false; intr = true }

abbrev start : Sys
start = record { lock = initlock; pc = λ i. outside; cpu = λ i. idle }

abbrev entered : Sys
entered = record start { pc = put start.pc 0 spinning; cpu = put start.cpu 0 (push_off idle) }

-- CPU 0 has gone all the way into its critical section.
abbrev busy : Sys
busy = acquire_record 0 (acquire_swap 0 entered)

start-busy : Reach start busy
unfolding acquire_start acquire_swap holding
start-busy = next (next (next here (enter 0 entered refl refl)) (swap 0 refl)) (note 0 refl)

Reach-exclusion_example : (◌≡◌ {A = ℕ} 0 0) × (busy.lock.locked ≡ true)
unfolding acquire_record acquire_swap
Reach-exclusion_example = Reach-exclusion (refl, λ i. refl) start-busy 0 0 refl refl

Reach-no_panic_example :
    (busy.pc 0 ≡ outside → acquire_start 0 busy ≢ panic)
    × (busy.pc 0 ≡ inside → release_start 0 busy ≢ panic)
    × (busy.pc 0 ≡ leaving → release_store 0 busy ≢ panic)
    × (holding 0 busy.lock ≡ is_inside (busy.pc 0))
Reach-no_panic_example = Reach-no_panic (refl, λ i. refl) start-busy 0
