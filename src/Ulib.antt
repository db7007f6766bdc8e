-- ===== src/Ulib.antt =====
-- ulib.c: the string functions of the user programs. Those that are string.c's over again are
-- passed on from there; `memmove` and `strcmp` differ. `none` is a read past the end of a buffer.
pub mod Text
mod Tests
use pplottery.Prelude.{
  ℕ, ◌+◌, ◌-◌, ◌*◌, ◌%◌, ◌^◌, Bool, not, ◌&&◌, Option, none, some, List, [], ◌∷◌, ◌==◌, leb, ltb,
  if◌then◌else◌, sub32,
}
use pplottery.Str.{Memory, move_up, move_down}

-- `memmove`; a negative count copies nothing, as 0 does.
pub memmove : (dst src n : ℕ) → Memory → Memory
unfolding move_up move_down
memmove dst src n m = if ltb dst src then move_up n dst src m else move_down n (dst + n) (src + n) m

pub memcpy : (dst src n : ℕ) → Memory → Memory
unfolding memmove
memcpy dst src n m = memmove dst src n m

-- The destination after the call; the bytes behind the copied NUL are as before.
pub strcpy : List ℕ → List ℕ → Option (List ℕ)
strcpy [] t = none
strcpy (c ∷ s) [] = none
strcpy (c ∷ s) (a ∷ t) =
    let rest = strcpy s t in
    if a == 0 then some (0 ∷ s) else elim rest [ none ↦ none | some s' ↦ some (a ∷ s') ]

pub strcmp : List ℕ → List ℕ → Option ℕ
strcmp [] q = none
strcmp (a ∷ p) [] = none
strcmp (a ∷ p) (b ∷ q) =
    let rest = strcmp p q in if not (a == 0) && (a == b) then rest else some (sub32 a b)

-- What `strchr` points at: the rest of the string from the first `c` on, or null.
data Found : Type 0 where
  null : Found
  at : List ℕ → Found

strchr : List ℕ → ℕ → Option Found
strchr [] c = none
strchr (a ∷ s) c =
    let rest = strchr s c in
    if a == 0 then some null else if a == c then some (at (a ∷ s)) else rest

-- `'0' <= c && c <= '9'`
abbrev pub is_digit : ℕ → Bool
is_digit c = leb b'0' c && leb c b'9'

-- The loop of `atoi`, over the bytes before the NUL. C leaves a sum beyond the `int`s undefined;
-- here it wraps.
unfoldable pub atoi_from : ℕ → List ℕ → ℕ
atoi_from n [] = n
atoi_from n (c ∷ s) =
    let rest = atoi_from ((n * 10 + (c - b'0')) % 2 ^ 32) s in if is_digit c then rest else n

unfoldable pub atoi : List ℕ → ℕ
unfolding atoi_from
atoi s = atoi_from 0 s
