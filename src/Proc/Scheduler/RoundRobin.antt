-- ===== src/Proc/Scheduler/RoundRobin.antt =====
-- Round robin: every process that is runnable when the round starts, and that nobody else stops,
-- gets its turn.
use pplottery.Prelude.{
  ℕ, zero, suc, ◌+◌, ◌≤◌, ◌<◌, ◌≡◌, ◌≢◌, refl, ap, ◌∙◌, none, some, List, [], ◌∷◌, arith, ◌==◌,
  ◌||◌, Bool, Option-cases, inl, inr, true, false, get_elem?, length, ℕ_discrete,
}
use pplottery.Proc.{Proc, Table, is_runnable, runnable_at, modify}
use pplottery.Proc.Scheduler.{Sched, rr_from, dispatch, set_running, scheduler_round}

abbrev pub has : ℕ → List ℕ → Bool
has j [] = false
has j (i ∷ is) = (i == j) || has j is

-- While slot `i` has the CPU, no process elsewhere stops being runnable.
pub record KeepsOthers (run : ℕ → Table → Table) : Type 0 where
  pub others :
      (i j : ℕ) (t : Table) → i ≢ j → runnable_at j t ≡ true → runnable_at j (run i t) ≡ true

pub runnable_at-modify :
    (i j : ℕ) (f : Proc → Proc) (t : Table) → i ≢ j → runnable_at j (modify i f t) ≡ runnable_at j t
runnable_at-modify i j f [] ne = refl
runnable_at-modify zero zero f (p ∷ ps) ne = absurd (ne refl)
runnable_at-modify zero (suc j) f (p ∷ ps) ne = refl
runnable_at-modify (suc i) zero f (p ∷ ps) ne = refl
runnable_at-modify (suc i) (suc j) f (p ∷ ps) ne = runnable_at-modify i j f ps (λ e. ne (ap suc e))

runnable_at-get_elem? :
    (i : ℕ) (t : Table) (p : Proc) → get_elem? t i ≡ some p → runnable_at i t ≡ is_runnable p.state
runnable_at-get_elem? i [] p h = cc
runnable_at-get_elem? zero (q ∷ ps) p h = ground arith
runnable_at-get_elem? (suc i) (q ∷ ps) p h = runnable_at-get_elem? i ps p h

runnable_at-none : (i j : ℕ) (t : Table) → get_elem? t i ≡ none → i ≤ j → runnable_at j t ≡ false
runnable_at-none i j [] h le = refl
runnable_at-none zero j (q ∷ ps) h le = cc
runnable_at-none (suc i) zero (q ∷ ps) h le = absurd (omega arith)
runnable_at-none (suc i) (suc j) (q ∷ ps) h le = runnable_at-none i j ps h (omega arith)

runnable_at-lt-length : (j : ℕ) (t : Table) → runnable_at j t ≡ true → j < length t
runnable_at-lt-length j [] h = cc
runnable_at-lt-length zero (p ∷ ps) h = omega arith
runnable_at-lt-length (suc j) (p ∷ ps) h = omega (arith, runnable_at-lt-length j ps h)

module _ (run : ℕ → Table → Table) (keeps : KeepsOthers run) where
  runnable_at-dispatch :
      (i j : ℕ) (s : Sched)
      → i ≢ j
      → runnable_at j s.table ≡ true
      → runnable_at j (dispatch run i s).table ≡ true
  runnable_at-dispatch i j s ne h =
      keeps.others i j (modify i set_running s.table) ne
        (runnable_at-modify i j set_running s.table ne ∙ h)

  rr_from-has :
      (n i j : ℕ) (s : Sched)
      → i ≤ j
      → j < i + n
      → runnable_at j s.table ≡ true
      → has j (rr_from run n i s).0 ≡ true
  unfolding rr_from
  rr_from-has zero i j s le lt h = absurd (omega arith)
  rr_from-has (suc n) i j s le lt h = elim (Option-cases (get_elem? s.table i)) [
    | inl out ↦ ground (arith, runnable_at-none i j s.table out le)
    | inr (p, got) ↦ elim (ℕ_discrete i j) [
      | yes here ↦ ground (arith, runnable_at-get_elem? i s.table p got)
      | no ne ↦ ground (
        arith,
        rr_from-has n (i + 1) j s (omega arith) (omega arith) h,
        rr_from-has n (i + 1) j (dispatch run i s) (omega arith) (omega arith)
            (runnable_at-dispatch i j s ne h),
      )
    ]
  ]

  -- Under round robin (any mode but 1), a process that is runnable when the round starts is run in
  -- that round, provided that while another slot has the CPU no third process stops being runnable.
  pub scheduler_round-no_starvation :
      (mode j : ℕ) (s : Sched)
      → mode ≢ 1
      → runnable_at j s.table ≡ true
      → has j (scheduler_round run mode (λ t. t) s).0 ≡ true
  unfolding scheduler_round
  scheduler_round-no_starvation mode j s ne h = ground (
    arith,
    rr_from-has (length s.table) 0 j s (omega arith)
        (omega (arith, runnable_at-lt-length j s.table h)) h,
  )
