-- ===== src/Spinlock/Interrupts.antt =====
-- `push_off` and `pop_off` match like brackets.
use pplottery.Prelude.{
  ℕ, zero, suc, ◌+◌, ◌<◌, ◌≡◌, refl, false, Result, ok, ◌>>=◌, arith, dec_lt, ◌∙◌, ◌&&◌, ◌==◌,
  if◌then◌else◌, ◌-◌,
}
use pplottery.Spinlock.{Cpu, push_off, pop_off}

abbrev pub push_times : ℕ → Cpu → Cpu
push_times zero c = c
push_times (suc n) c = push_off (push_times n c)

abbrev pub pop_times : ℕ → Cpu → Result Cpu
pop_times zero c = ok c
pop_times (suc n) c = pop_off c >>= pop_times n

-- With a lock held, interrupts are off.
abbrev IsMasked : Cpu → Type 0
IsMasked c = 0 < c.noff → c.intr ≡ false

push_times_lem :
    (n : ℕ) (c : Cpu)
    → ((push_times n c).noff ≡ c.noff + n)
      × (0 < n → (push_times n c).intr ≡ false)
      × (0 < n → (push_times n c).intena ≡ (if c.noff == 0 then c.intr else c.intena))
unfolding push_off
push_times_lem zero c = (omega arith, (λ h. absurd (omega arith)), (λ h. absurd (omega arith)))
push_times_lem (suc n) c = elim (dec_lt 0 n) [
  | yes pos ↦
      let (e, off, en) = push_times_lem n c in
      (omega arith, (λ h. refl), (λ h. ground (arith, en pos)))
  | no none_yet ↦ let e : n ≡ 0 = omega arith in rw e (omega arith, (λ h. refl), (λ h. refl))
]

abbrev popped : Cpu → Cpu
popped d = record d { noff = d.noff - 1; intr = (d.noff - 1 == 0) && d.intena }

pop_off-popped : (d : Cpu) → d.intr ≡ false → 0 < d.noff → pop_off d ≡ ok (popped d)
unfolding pop_off
pop_off-popped d off pos = ground arith

-- `n` calls of `pop_off` on a CPU at depth `base + n`.
pop_times_lem :
    (n base : ℕ) (d : Cpu)
    → d.noff ≡ base + n
    → d.intr ≡ false
    → (c' : Cpu) × (pop_times n d ≡ ok c')
      × (c'.noff ≡ base)
      × (0 < n → c'.intr ≡ ((base == 0) && d.intena))
pop_times_lem zero base d depth off = (d, refl, omega arith, (λ h. absurd (omega arith)))
pop_times_lem (suc n) base d depth off = elim (dec_lt 0 n) [
  | yes more ↦
      let (c', run, at, en) = pop_times_lem n base (popped d) (omega arith) (ground arith) in
      (c', rw (pop_off-popped d off (omega arith)) run, at, (λ h. en more))
  | no last ↦
      let e : n ≡ 0 = omega arith in
      (popped d, rw (e, pop_off-popped d off (omega arith)), omega arith, (λ h. ground arith))
]

-- `n` calls of `push_off` followed by `n` of `pop_off` do not panic, and leave the depth and the
-- interrupt enable bit as they were; between the two, interrupts are off if `n` is not 0.
pop_times-push_times :
    (n : ℕ) (c : Cpu)
    → IsMasked c
    → (c' : Cpu) × (pop_times n (push_times n c) ≡ ok c')
      × (c'.noff ≡ c.noff)
      × (c'.intr ≡ c.intr)
      × (0 < n → (push_times n c).intr ≡ false)
pop_times-push_times zero c m = (c, refl, refl, refl, (λ h. absurd (omega arith)))
pop_times-push_times (suc n) c m =
    let (depth, off, en) = push_times_lem (suc n) c in
    let (c', run, at, intr) =
      pop_times_lem (suc n) c.noff (push_times (suc n) c) depth (off (omega arith)) in
    (c', run, at, intr (omega arith) ∙ restored (en (omega arith)), off)
  where
    restored :
        (push_times (suc n) c).intena ≡ (if c.noff == 0 then c.intr else c.intena)
        → ((c.noff == 0) && (push_times (suc n) c).intena) ≡ c.intr
    restored e = ground (arith, m)
