-- ===== src/Log/Tests.antt =====
-- The theorems on the log at a transaction of two blocks.
use pplottery.Prelude.{
  ℕ, zero, suc, ◌==◌, if◌then◌else◌, ◌+◌, ◌≡◌, ◌<◌, refl, true, false, none, some, List, [], ◌∷◌,
  ok, panic, arith,
}
use pplottery.Log.{Disk, Store, Log, contains, commit, recover, log_write}
use pplottery.Log.Phases.{All}
use pplottery.Log.Crash.{Committed, Agrees, commit-Atomic, recover-idempotent}
use pplottery.Log.Space.{Reserved, Distinct, log_write-Reserved}
use pplottery.Log.Full.{three_begin, write_each, begin_op-log_write-panic}

abbrev log : Log
log = record { start = 2; size = 30; outstanding = 0; committing = true; lh = 45 ∷ 46 ∷ [] }

abbrev disk_store : Store ℕ
disk_store = record {
  disk = record { head = []; block = λ b. b };
  dirty = λ b. if b == 45 then some 1 else if b == 46 then some 2 else none;
  pins = λ b. 1;
  past = [];
}

commit-Atomic_example :
    Committed 2 30
      (45 ∷ 46 ∷ [])
      disk_store
      refl
      (omega arith)
      (refl, (refl, tt))
      (commit log disk_store)
commit-Atomic_example = commit-Atomic log disk_store refl (omega arith) (refl, (refl, tt)) refl

-- The machine has stopped with the two blocks in the log.
abbrev crashed : Disk ℕ
crashed = record { head = 45 ∷ 46 ∷ []; block = λ b. if b == 3 then 1 else if b == 4 then 2 else b }

recover-idempotent_example :
    All
      (λ d'. Agrees 2 30 (recover 2 crashed).disk.block (recover 2 d').disk)
      (recover 2 crashed).past
recover-idempotent_example =
    recover-idempotent 2 30 (λ b. if b == 45 then 1 else 2) crashed (omega arith) (refl, (refl, tt))
      (refl, (refl, tt))

-- An operation has begun and written two blocks.
abbrev begun : Log
begun = record { start = 2; size = 31; outstanding = 1; committing = false; lh = 45 ∷ 46 ∷ [] }

begun-Reserved : Reserved begun 8
begun-Reserved = record { each = omega arith; room = omega arith; few = omega arith }

log_write-Reserved_example :
    (lg' : Log) × (st' : Store ℕ) × (log_write 47 begun disk_store ≡ ok (lg', st'))
    × Reserved lg' 7
    × (contains lg'.lh 47 ≡ true)
    × Distinct lg'.lh
log_write-Reserved_example =
    log_write-Reserved 47 begun disk_store 7 begun-Reserved (omega arith) (refl, (refl, tt))

abbrev count_from : ℕ → ℕ → List ℕ
count_from zero b = []
count_from (suc n) b = b ∷ count_from n (b + 1)

-- The log that mkfs makes, with nothing under way.
abbrev idle_log : Log
idle_log = record { start = 2; size = 30; outstanding = 0; committing = false; lh = [] }

count_from-above : (n b c : ℕ) → c < b → contains (count_from n b) c ≡ false
count_from-above zero b c h = refl
count_from-above (suc n) b c h = ground (arith, count_from-above n (b + 1) c (omega arith))

count_from-Distinct : (n b : ℕ) → Distinct (count_from n b)
count_from-Distinct zero b = tt
count_from-Distinct (suc n) b =
    (count_from-above n (b + 1) b (omega arith), count_from-Distinct n (b + 1))

begin_op-log_write-panic_example :
    (lg3 : Log) × (lg' : Log) × (st' : Store ℕ) × (three_begin idle_log ≡ some lg3)
    × Reserved lg3 30
    × (write_each (count_from 29 45) lg3 disk_store ≡ ok (lg', st'))
    × Reserved lg' 1
    × (log_write 90 lg' st' ≡ panic)
begin_op-log_write-panic_example =
    begin_op-log_write-panic (count_from 29 45) 90 idle_log disk_store refl refl refl refl
      (count_from-Distinct 29 45) refl
