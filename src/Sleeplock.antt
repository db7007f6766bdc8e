-- ===== src/Sleeplock.antt =====
-- sleeplock.c: a lock that its waiters sleep for. Each step is what happens under `lk->lk`, from its
-- acquisition, or from a wakeup, to its release or to the next sleep.
use pplottery.Prelude.{
  ℕ, ◌≡◌, ◌≢◌, Bool, true, false, ◌&&◌, Option, none, some, ◌==◌, if◌then◌else◌, arith,
}

-- `struct sleeplock` without its spinlock and its name.
pub record Sleeplock : Type 0 where
  pub locked : Bool
  pub pid : ℕ

unfoldable pub initsleeplock : Sleeplock
initsleeplock = record { locked = false; pid = 0 }

-- One round of the loop of `acquiresleep` by process `me`: none if it goes to sleep on the lock.
acquiresleep : ℕ → Sleeplock → Option Sleeplock
acquiresleep me lk = if lk.locked then none else some (record { locked = true; pid = me })

-- `releasesleep`; it wakes all who sleep on the lock.
unfoldable pub releasesleep : Sleeplock → Sleeplock
releasesleep lk = record { locked = false; pid = 0 }

unfoldable pub holdingsleep : ℕ → Sleeplock → Bool
holdingsleep me lk = lk.locked && (lk.pid == me)

-- A process that gets the lock holds it, and no other process does; while it is held everybody
-- else sleeps, until `releasesleep`, after which whoever runs first gets it.
acquiresleep-holdingsleep :
    (me : ℕ) (lk lk' : Sleeplock)
    → acquiresleep me lk ≡ some lk'
    → (lk.locked ≡ false)
      × (holdingsleep me lk' ≡ true)
      × ((other : ℕ) → other ≢ me → holdingsleep other lk' ≡ false)
      × ((other : ℕ) → acquiresleep other lk' ≡ none)
      × ((other : ℕ)
          → acquiresleep other (releasesleep lk') ≡ some (record { locked = true; pid = other }))
unfolding acquiresleep releasesleep holdingsleep
acquiresleep-holdingsleep me lk lk' e = (
  ground arith,
  ground arith,
  (λ other ne. ground arith),
  (λ other. ground arith),
  (λ other. ground arith),
)
