-- ===== src/Spinlock/Exclusion.antt =====
-- At most one CPU is between `acquire` and `release`, and neither call panics.
use pplottery.Prelude.{
  ◌==◌, if◌then◌else◌, ◌-◌, ◌&&◌, ℕ, ◌<◌, ◌≡◌, ◌≢◌, refl, sym, ◌∙◌, Bool, true, false, none, ok,
  panic, arith, subst, ok_inj, not_panic,
}
use pplottery.Spinlock.{
  Cpu, initlock, Pc, outside, spinning, won, inside, leaving, Sys, put, holding, is_cpu, push_off,
  pop_off, acquire_start, acquire_swap, acquire_record, release_start, release_store, Step, enter,
  swap, note, leave, free, Reach, here, next,
}

-- The CPU has won the lock and not yet given it up.
abbrev has_lock : Pc → Bool
has_lock outside = false
has_lock spinning = false
has_lock won = true
has_lock inside = true
has_lock leaving = true

abbrev pub is_inside : Pc → Bool
is_inside inside = true
is_inside _ = false

abbrev is_outside : Pc → Bool
is_outside outside = true
is_outside _ = false

-- The lock is taken while a CPU has it, by that CPU alone; `lk->cpu` names a CPU exactly while it
-- is inside; and a CPU that is not outside has interrupts off.
record Inv (s : Sys) : Type 0 where
  pub taken : (i : ℕ) → has_lock (s.pc i) ≡ true → s.lock.locked ≡ true
  pub unique : (i j : ℕ) → has_lock (s.pc i) ≡ true → has_lock (s.pc j) ≡ true → i ≡ j
  pub named : (i : ℕ) → is_inside (s.pc i) ≡ is_cpu i s.lock.cpu
  pub masked :
      (i : ℕ) → is_outside (s.pc i) ≡ false → (0 < (s.cpu i).noff) × ((s.cpu i).intr ≡ false)

abbrev IsStart : Sys → Type 0
IsStart s = (s.lock ≡ initlock) × ((i : ℕ) → s.pc i ≡ outside)

IsStart-Inv : (s : Sys) → IsStart s → Inv s
IsStart-Inv s (fresh, out) = record {
  taken = λ i h. ground (arith, out i);
  unique = λ i j h h'. ground (arith, out i);
  named = λ i. ground (arith, out i);
  masked = λ i h. ground (arith, out i);
}

module _ {s : Sys} (v : Inv s) (i : ℕ) where
  entered : Sys
  entered = record s { pc = put s.pc i spinning; cpu = put s.cpu i (push_off (s.cpu i)) }

  -- A CPU that does not have the lock may call `acquire` without a panic.
  acquire_start-entered : s.pc i ≡ outside → acquire_start i s ≡ ok entered
  unfolding acquire_start entered
  acquire_start-entered at = ground (arith, v.named i)

  entered-Inv : s.pc i ≡ outside → Inv entered
  unfolding entered push_off
  entered-Inv at = record {
    taken = λ j h. ground (arith, v.taken j);
    unique = λ j k h h'. ground (arith, v.unique j k);
    named = λ j. ground (arith, v.named j);
    masked = λ j h. ground (arith, v.masked j);
  }

  swap-Inv : s.pc i ≡ spinning → Inv (acquire_swap i s)
  unfolding acquire_swap
  swap-Inv at = record {
    taken = λ j h. refl;
    unique = λ j k h h'. ground (arith, v.unique j k, v.taken j, v.taken k);
    named = λ j. ground (arith, v.named j);
    masked = λ j h. ground (arith, v.masked j);
  }

  note-Inv : s.pc i ≡ won → Inv (acquire_record i s)
  unfolding acquire_record
  note-Inv at = record {
    taken = λ j h. ground (arith, v.taken j, v.taken i);
    unique = λ j k h h'. ground (arith, v.unique j k, v.unique i j, v.unique i k);
    named = λ j. ground (arith, v.named j, v.unique i j);
    masked = λ j h. ground (arith, v.masked j, v.masked i);
  }

  left : Sys
  left = record s { lock = record (s.lock) { cpu = none }; pc = put s.pc i leaving }

  -- A CPU that is inside may call `release` without a panic.
  release_start-left : s.pc i ≡ inside → release_start i s ≡ ok left
  unfolding release_start left
  release_start-left at = ground (arith, v.named i, v.taken i)

  left-Inv : s.pc i ≡ inside → Inv left
  unfolding left
  left-Inv at = record {
    taken = λ j h. ground (arith, v.taken j);
    unique = λ j k h h'. ground (arith, v.unique j k, v.unique i j, v.unique i k);
    named = λ j. ground (arith, v.named j, v.unique i j);
    masked = λ j h. ground (arith, v.masked j, v.masked i);
  }

  freed : Cpu → Sys
  freed c = record {
    lock = record (s.lock) { locked = false };
    pc = put s.pc i outside;
    cpu = put s.cpu i c;
  }

  freed-Inv : (c : Cpu) → s.pc i ≡ leaving → Inv (freed c)
  unfolding freed
  freed-Inv c at = record {
    taken = λ j h. ground (arith, v.unique i j);
    unique = λ j k h h'. ground (arith, v.unique j k);
    named = λ j. ground (arith, v.named j);
    masked = λ j h. ground (arith, v.masked j);
  }

  -- The end of `release` does not panic: `pop_off` finds interrupts off and a positive depth.
  release_store-freed : s.pc i ≡ leaving → (c : Cpu) × (release_store i s ≡ ok (freed c))
  unfolding release_store freed pop_off
  release_store-freed at =
      let c = s.cpu i in
      let n : ℕ = c.noff - 1 in
      (
        record c { noff = n; intr = if n == 0 && c.intena then true else c.intr },
        ground (arith, v.masked i),
      )

Step-Inv : {s s' : Sys} → Inv s → Step s s' → Inv s'
Step-Inv v (enter i s' at e) =
    subst Inv (ok_inj (sym (acquire_start-entered v i at) ∙ e)) (entered-Inv v i at)
Step-Inv v (swap i at) = swap-Inv v i at
Step-Inv v (note i at) = note-Inv v i at
Step-Inv v (leave i s' at e) =
    subst Inv (ok_inj (sym (release_start-left v i at) ∙ e)) (left-Inv v i at)
Step-Inv v (free i s' at e) =
    let (c, done) = release_store-freed v i at in
    subst Inv (ok_inj (sym done ∙ e)) (freed-Inv v i c at)

Reach-Inv : {s t : Sys} → Inv s → Reach s t → Inv t
Reach-Inv v here = v
Reach-Inv v (next r st) = Step-Inv (Reach-Inv v r) st

-- Mutual exclusion, for any number of CPUs and any order of their steps: from a fresh lock with
-- every CPU outside, at most one CPU has the lock at a time, and while one has it, `locked` is set.
pub Reach-exclusion :
    {s t : Sys}
    → IsStart s
    → Reach s t
    → (i j : ℕ) → has_lock (t.pc i) ≡ true
    → has_lock (t.pc j) ≡ true
    → (i ≡ j) × (t.lock.locked ≡ true)
Reach-exclusion {s} start r i j hi hj =
    let v = Reach-Inv (IsStart-Inv s start) r in (v.unique i j hi hj, v.taken i hi)

-- Nothing panics on the way: `acquire` of a CPU that is outside, `release` of one that is inside,
-- and the `pop_off` at its end. And `holding` is right: it is true on exactly the CPU that is inside.
pub Reach-no_panic :
    {s t : Sys}
    → IsStart s
    → Reach s t
    → (i : ℕ)
    → (t.pc i ≡ outside → acquire_start i t ≢ panic)
      × (t.pc i ≡ inside → release_start i t ≢ panic)
      × (t.pc i ≡ leaving → release_store i t ≢ panic)
      × (holding i t.lock ≡ is_inside (t.pc i))
unfolding holding
Reach-no_panic {s} {t} start r i =
    let v = Reach-Inv (IsStart-Inv s start) r in
    (
      (λ at p. not_panic (sym (acquire_start-entered v i at) ∙ p)),
      (λ at p. not_panic (sym (release_start-left v i at) ∙ p)),
      (λ at p. not_panic (sym (release_store-freed v i at).1 ∙ p)),
      ground (arith, v.named i, v.taken i),
    )
