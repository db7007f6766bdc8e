-- ===== src/Str/Move.antt =====
-- `memmove` and `memset` of string.c against what they promise, overlap included.
use pplottery.Prelude.{
  ℕ, zero, suc, ◌+◌, ◌-◌, ◌%◌, ◌≤◌, ◌≡◌, ◌⊎◌, ◌&&◌, arith, ltb, leb, if◌then◌else◌,
}
use pplottery.Str.{Memory, store, memset, memset_from, move_up, move_down, memmove}

-- The block of `n` bytes at `src`, copied to `dst`, all of it read before any of it is written.
abbrev pub copied : (dst src n : ℕ) → Memory → Memory
copied dst src n m a = if leb dst a && ltb a (dst + n) then m (a - dst + src) else m a

pub move_up-copied :
    (n d s : ℕ) (m : Memory) (a : ℕ) → (d ≤ s) ⊎ (s + n ≤ d) → move_up n d s m a ≡ copied d s n m a
unfolding move_up
move_up-copied zero d s m a apart = ground arith
move_up-copied (suc n) d s m a apart =
    ground (arith, move_up-copied n (d + 1) (s + 1) (store d (m s) m) a)

pub move_down-copied :
    (n d s : ℕ) (m : Memory) (a : ℕ) → s ≤ d → move_down n (d + n) (s + n) m a ≡ copied d s n m a
unfolding move_down
move_down-copied zero d s m a lt = ground arith
move_down-copied (suc n) d s m a lt =
    let at_d : d + suc n - 1 ≡ d + n = omega arith in
    let at_s : s + suc n - 1 ≡ s + n = omega arith in
    rw (at_d, at_s) (ground (arith, move_down-copied n d s (store (d + n) (m (s + n)) m) a lt))

-- `memmove` copies the block as it was before the call, however the two blocks overlap, and leaves
-- every other byte alone.
pub memmove-copied :
    (dst src n : ℕ) (m : Memory) (a : ℕ) → memmove dst src n m a ≡ copied dst src n m a
unfolding memmove
memmove-copied dst src n m a =
    ground (arith, move_up-copied n dst src m a, move_down-copied n dst src m a)

memset_from-filled :
    (k i dst c : ℕ) (m : Memory) (a : ℕ)
    → memset_from k i dst c m a ≡ (if leb (dst + i) a && ltb a (dst + i + k) then c % 256 else m a)
unfolding memset_from
memset_from-filled zero i dst c m a = ground arith
memset_from-filled (suc k) i dst c m a =
    ground (arith, memset_from-filled k (i + 1) dst c (store (dst + i) (c % 256) m) a)

-- `memset` puts the low byte of `c` in each of the `n` bytes from `dst` on, and in no other.
memset-filled :
    (dst c n : ℕ) (m : Memory) (a : ℕ)
    → memset dst c n m a ≡ (if leb dst a && ltb a (dst + n) then c % 256 else m a)
unfolding memset
memset-filled dst c n m a = ground (arith, memset_from-filled n 0 dst c m a)
