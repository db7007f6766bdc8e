-- ===== src/Random.antt =====
-- random.c: the linear congruential generator that draws the winning ticket.
use pplottery.Prelude.{ℕ, ◌+◌, ◌-◌, ◌*◌, ◌%◌, ◌^◌, ◌<◌, ◌≡◌, arith}

-- The update of the 32-bit `seed`.
unfoldable pub next_seed : ℕ → ℕ
next_seed seed = (seed * 1664525 + 1013904223) % 2 ^ 32

-- `random(max)`: the value drawn and the new seed. `%` by 0 is left undefined by C; the
-- scheduler never calls it so.
unfoldable pub random : ℕ → ℕ → ℕ × ℕ
random max seed = let s = next_seed seed in (s % max, s)

-- The seed before.
abbrev pub prev_seed : ℕ → ℕ
prev_seed seed = ((seed + 2 ^ 32 - 1013904223) * 4276115653) % 2 ^ 32

-- A draw below a positive bound stays below it, and the new seed is a 32-bit word.
pub random_bounds :
    (max seed : ℕ) → 0 < max → ((random max seed).0 < max) × ((random max seed).1 < 2 ^ 32)
unfolding random next_seed
random_bounds max seed h = (omega arith, omega arith)

-- The generator's step is a permutation of the 32-bit seeds: it has an inverse on both sides.
next_seed-prev_seed :
    (s : ℕ) → s < 2 ^ 32 → (next_seed (prev_seed s) ≡ s) × (prev_seed (next_seed s) ≡ s)
unfolding next_seed
next_seed-prev_seed s h = (omega arith, omega arith)
