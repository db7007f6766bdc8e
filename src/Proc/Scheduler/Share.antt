-- ===== src/Proc/Scheduler/Share.antt =====
-- What each process is due of a lottery, in plain arithmetic, and the passes of `scheduler`
-- against it.
use pplottery.Prelude.{
  ℕ, zero, suc, ◌+◌, ◌-◌, ◌%◌, ◌^◌, ◌≤◌, ◌<◌, ◌≡◌, refl, Option, none, some, [], ◌∷◌, arith, ltb,
  slt32-ltb, if◌then◌else◌, Bool-cases, inl, inr,
}
use pplottery.Proc.{Proc, Table, is_runnable}
use pplottery.Proc.Scheduler.{count_tickets, pick}

-- The tickets that a process holds in the lottery.
abbrev pub share : Proc → ℕ
share p = if is_runnable p.state then p.tickets else 0

abbrev pub total_share : Table → ℕ
total_share [] = 0
total_share (p ∷ ps) = share p + total_share ps

-- The share of slot `i`, and of the slots before it.
abbrev pub share_at : ℕ → Table → ℕ
share_at i [] = 0
share_at zero (p ∷ ps) = share p
share_at (suc i) (p ∷ ps) = share_at i ps

abbrev pub share_before : ℕ → Table → ℕ
share_before i [] = 0
share_before zero (p ∷ ps) = 0
share_before (suc i) (p ∷ ps) = share p + share_before i ps

pub share-le-total : (i : ℕ) (t : Table) → share_before i t + share_at i t ≤ total_share t
share-le-total i [] = omega arith
share-le-total zero (p ∷ ps) = omega arith
share-le-total (suc i) (p ∷ ps) = omega (arith, share-le-total i ps)

pub count_tickets-total :
    (t : Table) (sum : ℕ) → sum + total_share t < 2 ^ 31 → count_tickets t sum ≡ sum + total_share t
unfolding count_tickets
count_tickets-total [] sum h = omega arith
count_tickets-total (p ∷ ps) sum h = elim (Bool-cases (is_runnable p.state)) [
  | inl e ↦ ground (arith, count_tickets-total ps ((sum + p.tickets) % 2 ^ 32))
  | inr e ↦ ground (arith, count_tickets-total ps sum)
]

-- The slot that holds the ticket numbered `w`, tickets being numbered along the table.
abbrev pub winner : ℕ → ℕ → Table → Option ℕ
winner w i [] = none
winner w i (p ∷ ps) = if ltb w (share p) then some i else winner (w - share p) (i + 1) ps

pub pick-winner :
    (t : Table) (w sum i : ℕ)
    → sum + total_share t < 2 ^ 31
    → sum ≤ w
    → w < 2 ^ 31
    → pick w sum i t ≡ winner (w - sum) i t
unfolding pick
pick-winner [] w sum i h le lt = refl
pick-winner (p ∷ ps) w sum i h le lt = elim (Bool-cases (is_runnable p.state)) [
  | inl e ↦
      ground (arith, slt32-ltb w (sum + p.tickets), pick-winner ps w (sum + p.tickets) (i + 1))
  | inr e ↦ ground (arith, pick-winner ps w sum (i + 1))
]
