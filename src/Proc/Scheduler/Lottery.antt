-- ===== src/Proc/Scheduler/Lottery.antt =====
-- The lottery of `scheduler`: who wins, and how often.
use pplottery.Prelude.{
  ℕ, zero, suc, ◌+◌, ◌-◌, ◌^◌, ◌≤◌, ◌<◌, ◌≡◌, refl, Option, none, some, [], ◌∷◌, arith, ltb, ◌==◌,
  min, Option-cases, if◌then◌else◌, slt32, add32, Bool, Bool-cases, inl, inr, true, false,
}
use native.Mathlib.Nat.{sub-zero}
use pplottery.Proc.{Table, is_runnable, runnable_at}
use pplottery.Random.{random, random_bounds}
use pplottery.Proc.Scheduler.{Sched, count_tickets, pick, lottery_round}
use pplottery.Proc.Scheduler.Share.{
  share, total_share, share_at, share_before, share-le-total, count_tickets-total, winner,
  pick-winner,
}

abbrev is_slot : Option ℕ → ℕ → Bool
is_slot none i = false
is_slot (some j) i = j == i

-- In how many of the `n` draws `0, …, n - 1` the second pass ends at slot `i`.
abbrev pub wins : ℕ → Table → ℕ → ℕ
wins zero t i = 0
wins (suc n) t i = (if is_slot (pick n 0 0 t) i then 1 else 0) + wins n t i

-- A pass that starts at slot `k` names no slot before it.
is_slot_below : (t : Table) (w k i : ℕ) → i < k → is_slot (winner w k t) i ≡ false
is_slot_below [] w k i h = refl
is_slot_below (p ∷ ps) w k i h = ground (arith, is_slot_below ps (w - share p) (k + 1) i)

abbrev holds_ticket : ℕ → ℕ → Table → Bool
holds_ticket w i t =
    if ltb w (share_before i t) then false else ltb w (share_before i t + share_at i t)

-- `winner` ends at slot `k + i` on the tickets that this slot holds.
is_slot-winner :
    (t : Table) (w k i j : ℕ) → k + i ≡ j → is_slot (winner w k t) j ≡ holds_ticket w i t
is_slot-winner [] w k i j e = ground arith
is_slot-winner (p ∷ ps) w k zero j e = ground (arith, is_slot_below ps (w - share p) (k + 1) j)
is_slot-winner (p ∷ ps) w k (suc i) j e =
    ground (arith, is_slot-winner ps (w - share p) (k + 1) i j)

-- A draw below the number of tickets ends at slot `i` exactly if slot `i` holds that ticket.
pick-holds_ticket :
    (t : Table) (w i : ℕ)
    → total_share t < 2 ^ 31
    → w < total_share t
    → is_slot (pick w 0 0 t) i ≡ holds_ticket w i t
pick-holds_ticket t w i h lt =
    rw (pick-winner t w 0 0 (omega arith) (omega arith) (omega arith), sub-zero)
      (is_slot-winner t w 0 i i (omega arith))

wins-below :
    (n : ℕ) (t : Table) (i : ℕ)
    → total_share t < 2 ^ 31
    → n ≤ total_share t
    → wins n t i ≡ min (n - share_before i t) (share_at i t)
wins-below zero t i h le = omega arith
wins-below (suc n) t i h le =
    rw (pick-holds_ticket t n i h (omega arith)) (ground (arith, wins-below n t i h))

-- The lottery is fair. If the runnable processes hold fewer than 2 ^ 31 tickets in all, then of
-- the draws `0, …, total - 1`, where `total` is what the first pass counts, exactly as many end
-- at slot `i` as its process holds tickets: none if it is not runnable.
pub lottery_fair :
    (t : Table) (i : ℕ) → total_share t < 2 ^ 31 → wins (count_tickets t 0) t i ≡ share_at i t
lottery_fair t i h =
    rw (count_tickets-total t 0 (omega arith))
      (omega (arith, wins-below (0 + total_share t) t i h (omega arith), share-le-total i t))

pick-runnable_at :
    (t : Table) (w sum k j : ℕ)
    → pick w sum k t ≡ some j
    → (i : ℕ) × (k + i ≡ j) × (runnable_at i t ≡ true)
unfolding pick
pick-runnable_at [] w sum k j e = cc
pick-runnable_at (p ∷ ps) w sum k j e = elim (Bool-cases (is_runnable p.state)) [
  | inl r ↦ elim (Bool-cases (slt32 w (add32 sum p.tickets))) [
    | inl hit ↦ (0, ground arith, ground arith)
    | inr miss ↦
        let (i, at, run) = pick-runnable_at ps w (add32 sum p.tickets) (k + 1) j (ground arith) in
        (suc i, omega arith, run)
  ]
  | inr r ↦
      let (i, at, run) = pick-runnable_at ps w sum (k + 1) j (ground arith) in
      (suc i, omega arith, run)
]

-- Whatever the other CPUs do to the table between the two passes, the slot that the lottery runs
-- holds a runnable process in the table that the second pass reads.
lottery_round-runnable_at :
    (run : ℕ → Table → Table) (between : Table → Table) (s : Sched) (j : ℕ)
    → (lottery_round run between s).0 ≡ some j
    → runnable_at j (between s.table) ≡ true
unfolding lottery_round
lottery_round-runnable_at run between s j e = elim (Bool-cases (count_tickets s.table 0 == 0)) [
  | inl idle ↦ ground arith
  | inr busy ↦
      elim (Option-cases (pick (random (count_tickets s.table 0) s.seed).0 0 0 (between s.table))) [
        | inl out ↦ ground arith
        | inr (i, got) ↦
            let (k, at, found) = pick-runnable_at (between s.table) _ 0 0 i got in ground arith
      ]
]

winner_exists : (t : Table) (w i : ℕ) → w < total_share t → (j : ℕ) × (winner w i t ≡ some j)
winner_exists [] w i h = absurd (omega arith)
winner_exists (p ∷ ps) w i h = elim (Bool-cases (ltb w (share p))) [
  | inl hit ↦ (i, ground arith)
  | inr miss ↦
      let (j, e) = winner_exists ps (w - share p) (i + 1) (ground arith) in (j, ground arith)
]

pick_total :
    (t : Table) (w : ℕ)
    → total_share t < 2 ^ 31
    → w < total_share t
    → (j : ℕ) × (pick w 0 0 t ≡ some j)
pick_total t w h lt =
    rw (pick-winner t w 0 0 (omega arith) (omega arith) (omega arith), sub-zero)
      (winner_exists t w 0 lt)

-- With no other CPU between the passes, a lottery with between 1 and 2 ^ 31 - 1 tickets always runs
-- a process, and one with no ticket runs none and leaves the state, the seed included, as it is.
lottery_round_total :
    (run : ℕ → Table → Table) (s : Sched)
    → total_share s.table < 2 ^ 31
    → (0 < total_share s.table → (j : ℕ) × ((lottery_round run (λ t. t) s).0 ≡ some j))
      × (total_share s.table ≡ 0 → lottery_round run (λ t. t) s ≡ (none, s))
unfolding lottery_round
lottery_round_total run s h = (busy, idle)
  where
    counted : count_tickets s.table 0 ≡ 0 + total_share s.table
    counted = count_tickets-total s.table 0 (omega arith)

    busy : 0 < total_share s.table → (j : ℕ) × ((lottery_round run (λ t. t) s).0 ≡ some j)
    busy pos =
        let (j, e) = pick_total s.table (random (count_tickets s.table 0) s.seed).0 h (
          omega (
            arith,
            counted,
            (random_bounds (count_tickets s.table 0) s.seed (omega (arith, counted))).0,
          )) in
        (j, ground arith)

    idle : total_share s.table ≡ 0 → lottery_round run (λ t. t) s ≡ (none, s)
    idle e = ground (arith, counted)
