-- ===== src/Str.antt =====
-- string.c. Buffers that the caller keeps apart are lists of bytes; `memmove` and `memset`, whose
-- buffers may overlap, work on a flat memory.
pub mod Move
pub mod Copy
pub mod Compare
use pplottery.Prelude.{
  ℕ, zero, suc, ◌+◌, ◌-◌, ◌%◌, ◌&&◌, Option, none, some, List, [], ◌∷◌, ltb, ◌==◌, if◌then◌else◌,
  sub32, set,
}

abbrev pub Memory : Type 0
Memory = ℕ → ℕ

-- `*a = v`
abbrev pub store : ℕ → ℕ → Memory → Memory
store a v m b = if b == a then v else m b

-- `for(i = 0; i < n; i++) cdst[i] = c`, from index `i` on with `k` rounds left.
memset_from : (k i dst c : ℕ) → Memory → Memory
memset_from zero i dst c m = m
memset_from (suc k) i dst c m = memset_from k (i + 1) dst c (store (dst + i) (c % 256) m)

pub memset : (dst c n : ℕ) → Memory → Memory
unfolding memset_from
memset dst c n m = memset_from n 0 dst c m

-- `while(n-- > 0) *--d = *--s`
unfoldable pub move_down : (n d s : ℕ) → Memory → Memory
move_down zero d s m = m
move_down (suc n) d s m = move_down n (d - 1) (s - 1) (store (d - 1) (m (s - 1)) m)

-- `while(n-- > 0) *d++ = *s++`
unfoldable pub move_up : (n d s : ℕ) → Memory → Memory
move_up zero d s m = m
move_up (suc n) d s m = move_up n (d + 1) (s + 1) (store d (m s) m)

pub memmove : (dst src n : ℕ) → Memory → Memory
memmove dst src n m =
    if n == 0
    then m
    else if ltb src dst && ltb dst (src + n)
    then move_down n (dst + n) (src + n) m
    else move_up n dst src m

-- `memcpy` is `memmove`.
pub memcpy : (dst src n : ℕ) → Memory → Memory
unfolding memmove
memcpy = memmove

-- The `int` that the first `n` bytes of two buffers compare to; `none` is a read past an end.
pub memcmp : List ℕ → List ℕ → ℕ → Option ℕ
memcmp s1 s2 zero = some 0
memcmp [] s2 (suc n) = none
memcmp (a ∷ s1) [] (suc n) = none
memcmp (a ∷ s1) (b ∷ s2) (suc n) =
    let rest = memcmp s1 s2 n in if a == b then rest else some (sub32 a b)

pub strncmp : List ℕ → List ℕ → ℕ → Option ℕ
strncmp p q zero = some 0
strncmp [] q (suc n) = none
strncmp (a ∷ p) [] (suc n) = none
strncmp (a ∷ p) (b ∷ q) (suc n) =
    let rest = strncmp p q n in
    if a == 0 then some (sub32 a b) else if a == b then rest else some (sub32 a b)

-- `while(n-- > 0) *s++ = 0`
fill_zero : ℕ → List ℕ → List ℕ
fill_zero zero s = s
fill_zero (suc n) [] = []
fill_zero (suc n) (c ∷ s) = 0 ∷ fill_zero n s

-- The destination after the call. A write past its end, or a read past the end of `t`, stops it.
pub strncpy : List ℕ → List ℕ → ℕ → List ℕ
strncpy s t zero = s
strncpy [] t (suc n) = []
strncpy (c ∷ s) [] (suc n) = c ∷ s
strncpy (c ∷ s) (a ∷ t) (suc n) =
    let rest = strncpy s t n in if a == 0 then 0 ∷ fill_zero n s else a ∷ rest

-- The loop of `safestrcpy` and the `*s = 0` behind it, with `n` as `--n` leaves it.
safestrcpy_loop : List ℕ → List ℕ → ℕ → List ℕ
safestrcpy_loop s t zero = set s 0 0
safestrcpy_loop [] t (suc n) = []
safestrcpy_loop (c ∷ s) [] (suc n) = c ∷ s
safestrcpy_loop (c ∷ s) (a ∷ t) (suc n) =
    let rest = safestrcpy_loop s t n in if a == 0 then 0 ∷ set s 0 0 else a ∷ rest

unfoldable pub safestrcpy : List ℕ → List ℕ → ℕ → List ℕ
unfolding safestrcpy_loop
safestrcpy s t zero = s
safestrcpy s t (suc n) = safestrcpy_loop s t n

-- `none`: the buffer holds no NUL.
pub strlen : List ℕ → Option ℕ
strlen [] = none
strlen (c ∷ s) =
    let rest = strlen s in
    if c == 0 then some 0 else elim rest [ none ↦ none | some n ↦ some (suc n) ]
