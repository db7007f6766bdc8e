-- ===== src/Printf.antt =====
-- printf.c: how `printint` writes a number. `xx` is a 64-bit pattern; the bytes are those that
-- `putc` is called with, in order.
pub mod Number
mod Tests
use pplottery.Prelude.{
  ℕ, zero, suc, ◌+◌, ◌-◌, ◌/◌, ◌%◌, ◌^◌, Bool, ◌&&◌, Option, none, some, List, [], ◌∷◌, ◌==◌, leb,
  ltb, if◌then◌else◌,
}

-- `digits[d]`
abbrev pub digit : ℕ → ℕ
digit d = if ltb d 10 then b'0' + d else b'A' + (d - 10)

-- The loop that fills `buf`, on fuel; the list is `buf` from its last entry to its first.
pub fill_buf : (fuel base x : ℕ) → List ℕ → Option (List ℕ)
fill_buf zero base x buf = none
fill_buf (suc fuel) base x buf =
    let rest = fill_buf fuel base (x / base) (digit (x % base) ∷ buf) in
    if x / base == 0 then some (digit (x % base) ∷ buf) else rest

-- `neg`, and `x`, which is a `uint`.
abbrev pub is_negative : ℕ → Bool → Bool
is_negative xx sgn = sgn && leb (2 ^ 63) xx

abbrev pub magnitude : ℕ → Bool → ℕ
magnitude xx sgn = if is_negative xx sgn then (2 ^ 64 - xx) % 2 ^ 32 else xx % 2 ^ 32

-- 32 rounds are enough for a 32-bit number in any base from 2 on.
pub printint : (xx base : ℕ) (sgn : Bool) → Option (List ℕ)
unfolding fill_buf
printint xx base sgn = elim (fill_buf 32 base (magnitude xx sgn) []) [
  | none ↦ none
  | some out ↦ some (if is_negative xx sgn then b'-' ∷ out else out)
]
