-- ===== src/Sysproc/Tickets.antt =====
-- The tickets that the system calls let a process hold.
use pplottery.Prelude.{
  ℕ, zero, suc, ◌^◌, ◌<◌, ◌≤◌, ◌≡◌, ◌⊎◌, ◌↔◌, ap, refl, false, [], ◌∷◌, slt32, arith, Bool-cases,
  inl, inr,
}
use pplottery.Proc.{Table, is_unused, modify}
use pplottery.Proc.Signal.{settickets}
use pplottery.Sysproc.{failure, sys_settickets}

-- Every process holds a positive `int` of tickets.
abbrev pub HasTickets : Table → Type 0
HasTickets [] = Unit {0}
HasTickets (p ∷ ps) =
    (is_unused p.state ≡ false → (0 < p.tickets) × (p.tickets < 2 ^ 31)) × HasTickets ps

modify-HasTickets :
    (me n : ℕ) (t : Table)
    → 0 < n
    → n < 2 ^ 31
    → HasTickets t
    → HasTickets (modify me (λ p. record p { tickets = n }) t)
modify-HasTickets me n [] pos fits h = tt
modify-HasTickets zero n (p ∷ ps) pos fits h = ((λ u. (pos, fits)), h.1)
modify-HasTickets (suc me) n (p ∷ ps) pos fits h = (h.0, modify-HasTickets me n ps pos fits h.1)

-- Whatever 32-bit pattern a program passes to `settickets`, every process still holds a positive
-- number of tickets afterwards; and the call fails, with nothing changed, exactly on the `int`s
-- below 1.
sys_settickets-HasTickets :
    (n me : ℕ) (t : Table)
    → n < 2 ^ 32
    → HasTickets t
    → HasTickets (sys_settickets n me t).1
      × (((n ≡ 0) ⊎ (2 ^ 31 ≤ n)) ↔ (sys_settickets n me t ≡ (failure, t)))
unfolding sys_settickets settickets
sys_settickets-HasTickets n me t word h = elim (Bool-cases (slt32 n 1)) [
  | inl low ↦ rw low (h, ((λ x. refl), (λ e. ground arith)))
  | inr up ↦ rw up (
    modify-HasTickets me n t (ground arith) (ground arith) h,
    ((λ x. ground arith), (λ e. (let low : 0 ≡ failure = ap (λ r. r.0) e in ground arith))),
  )
]
