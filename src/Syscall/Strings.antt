-- ===== src/Syscall/Strings.antt =====
-- syscall.c: what `fetchstr` leaves in its buffer.
use pplottery.Prelude.{
  ℕ, zero, suc, ◌+◌, ◌%◌, ◌^◌, ◌<◌, ◌≤◌, ◌≡◌, ◌≢◌, ◌⊎◌, inl, inr, refl, true, false, ◌||◌, some,
  ◌==◌, leb, ltb, if◌then◌else◌, ok, minus_one, slt32, arith, Bool-cases,
}
use pplottery.Str.{Memory}
use pplottery.Vm.{Vm, maxva}
use pplottery.Vm.Copy.{copyin}
use pplottery.Vm.Copy.Strings.{with_mem, Within, HasNul, copyinstr-Copied, copyin-Frame}
use pplottery.Syscall.{strlen_at, fetchstr, fetchaddr}

-- A string of length `n` at `p`.
abbrev pub IsString : (p n : ℕ) → Memory → Type 0
IsString p n m = (m (p + n) ≡ 0) × ((i : ℕ) → i < n → m (p + i) ≢ 0)

strlen_at-IsString :
    (fuel p : ℕ) (m : Memory)
    → HasNul p fuel m
    → (n : ℕ) × (strlen_at fuel p m ≡ some n) × (n < fuel) × IsString p n m
unfolding strlen_at
strlen_at-IsString zero p m (e, above, below, nul) = absurd (omega (arith, above, below))
strlen_at-IsString (suc fuel) p m (e, above, below, nul) = elim (Bool-cases (m p == 0)) [
  | inl here ↦
      let at : p + 0 ≡ p = omega arith in
      (
        0,
        rw here refl,
        omega arith,
        (rw at (ground (arith, here)), λ i lt. absurd (omega (arith, lt))),
      )
  | inr other ↦
      let after : p + 1 ≤ e = ground (arith, above, nul, other) in
      let (n, len, lt, (nul', before)) =
        strlen_at-IsString fuel (p + 1) m (e, after, omega (arith, below), nul) in
      let at : p + 1 + n ≡ p + suc n = omega arith in
      (suc n, rw (other, len) refl, omega (arith, lt), (rw at at nul', first before other))
]
  where
    first :
        {n : ℕ}
        → ((i : ℕ) → i < n → m (p + 1 + i) ≢ 0)
        → (m p == 0) ≡ false
        → (i : ℕ) → i < suc n
        → m (p + i) ≢ 0
    first before other zero lt = let at : p + 0 ≡ p = omega arith in rw at (ground (arith, other))
    first before other (suc i) lt =
        let at : p + suc i ≡ p + 1 + i = omega arith in rw at (before i (omega (arith, lt)))

-- What a fetch of a string comes to: it fails, or the buffer holds a string of the length returned,
-- which ends before `max` bytes; nothing else of the memory, the page tables and the list of free
-- pages changes.
abbrev pub Fetched : (buf max : ℕ) → Vm → ℕ → Vm → Type 0
Fetched buf max s r t =
    (t ≡ with_mem t.kmem.mem s)
    × Within buf max s.kmem.mem t.kmem.mem
    × ((r ≡ minus_one) ⊎ ((r < max) × IsString buf r t.kmem.mem))

-- `fetchstr` of any address, from any page table, ends without a panic. Either it fails, or the
-- buffer holds a string with its NUL within `max` bytes, of the length that is returned. In both
-- cases it writes only to those `max` bytes of the memory; the page tables and the free pages stay
-- as they are.
pub fetchstr-Fetched :
    (table addr buf max : ℕ) (s : Vm)
    → (r : ℕ) × (t : Vm) × (fetchstr table addr buf max s ≡ ok (r, t)) × Fetched buf max s r t
unfolding fetchstr
fetchstr-Fetched table addr buf max s =
    let (r, t, run, (same, wrote, end)) = copyinstr-Copied table buf addr max s in
    elim end [
      | inl failed ↦
          let negative : slt32 r 0 ≡ true = rw failed refl in
          (minus_one, t, rw (fetchstr, run, negative) refl, (same, wrote, inl refl))
      | inr (done, nul) ↦
          let fine : slt32 r 0 ≡ false = rw done refl in
          let (n, len, lt, is) = strlen_at-IsString max buf t.kmem.mem nul in
          (n, t, rw (fetchstr, run, fine, len) refl, (same, wrote, inr (lt, is)))
    ]

-- In a process of at most `MAXVA` bytes, `fetchaddr` refuses the words that are not whole in them,
-- also where the end of the word wraps to a small address; without copying anything. A word that it
-- does not refuse it copies, and it fails only if that fails.
pub fetchaddr-bounds :
    (table sz addr ip : ℕ) (s : Vm)
    → addr < 2 ^ 64
    → sz ≤ maxva
    → (sz < addr + 8 → fetchaddr table sz addr ip s ≡ ok (minus_one, s))
      × (addr + 8 ≤ sz
          → (r : ℕ) × (t : Vm) × (copyin table ip addr 8 s ≡ ok (r, t))
            × (fetchaddr table sz addr ip s ≡ ok (if r == 0 then 0 else minus_one, t)))
unfolding fetchaddr
fetchaddr-bounds table sz addr ip s small small_sz = (
  (λ out.
      let refused : (leb sz addr || ltb sz ((addr + 8) % 2 ^ 64)) ≡ true = ground arith in
      rw (fetchaddr, refused) refl),
  (λ inside.
      let accepted : (leb sz addr || ltb sz ((addr + 8) % 2 ^ 64)) ≡ false = ground arith in
      let (r, t, run, same) = copyin-Frame table ip addr 8 s in
      (r, t, run, rw (fetchaddr, accepted, run) refl)),
)

pub fetchaddr-Frame :
    (table sz addr ip : ℕ) (s : Vm)
    → (r : ℕ) × (t : Vm) × (fetchaddr table sz addr ip s ≡ ok (r, t)) × (t ≡ with_mem t.kmem.mem s)
unfolding fetchaddr
fetchaddr-Frame table sz addr ip s =
    elim (Bool-cases (leb sz addr || ltb sz ((addr + 8) % 2 ^ 64))) [
      | inl refused ↦ (minus_one, s, rw (fetchaddr, refused) refl, refl)
      | inr accepted ↦
          let (r, t, run, same) = copyin-Frame table ip addr 8 s in
          (if r == 0 then 0 else minus_one, t, rw (fetchaddr, accepted, run) refl, same)
    ]
