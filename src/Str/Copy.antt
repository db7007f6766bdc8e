-- ===== src/Str/Copy.antt =====
-- `safestrcpy`, `strncpy` and `strlen` of string.c in terms of the C string that a buffer holds.
use pplottery.Prelude.{
  ℕ, zero, suc, ◌-◌, ◌≤◌, ◌<◌, ◌≡◌, refl, ap, Bool, true, false, none, some, List, [], ◌∷◌, arith,
  ◌==◌, if◌then◌else◌, length, take, drop, set, length-set, Bool-cases, inl, inr,
}
use pplottery.Str.{strlen, strncpy, fill_zero, safestrcpy, safestrcpy_loop}

-- The bytes before the first NUL.
abbrev pub cstring : List ℕ → List ℕ
cstring [] = []
cstring (c ∷ s) = if c == 0 then [] else c ∷ cstring s

-- There is a NUL in the buffer.
abbrev pub has_nul : List ℕ → Bool
has_nul [] = false
has_nul (c ∷ s) = if c == 0 then true else has_nul s

-- `strlen` finds the length of the C string, and runs off the end exactly where there is no NUL.
strlen-cstring : (s : List ℕ) → strlen s ≡ (if has_nul s then some (length (cstring s)) else none)
unfolding strlen
strlen-cstring [] = refl
strlen-cstring (c ∷ s) = elim (Bool-cases (c == 0)) [
  | inl e ↦ rw e
  | inr e ↦ rw (e, strlen-cstring s) (ground arith)
]

drop-set : (n v : ℕ) (s : List ℕ) → drop (suc n) (set s 0 v) ≡ drop (suc n) s
drop-set n v [] = refl
drop-set n v (c ∷ s) = refl

safestrcpy_loop-cstring :
    (s t : List ℕ) (n : ℕ)
    → n < length s
    → has_nul t ≡ true
    → (cstring (safestrcpy_loop s t n) ≡ take n (cstring t))
      × (has_nul (safestrcpy_loop s t n) ≡ true)
      × (length (safestrcpy_loop s t n) ≡ length s)
      × (drop (suc n) (safestrcpy_loop s t n) ≡ drop (suc n) s)
unfolding safestrcpy_loop
safestrcpy_loop-cstring [] t n lt h = absurd (omega arith)
safestrcpy_loop-cstring (c ∷ s) t zero lt h = (refl, refl, refl, refl)
safestrcpy_loop-cstring (c ∷ s) [] (suc n) lt h = cc
safestrcpy_loop-cstring (c ∷ s) (a ∷ t) (suc n) lt h = elim (Bool-cases (a == 0)) [
  | inl e ↦ rw e (refl, refl, ap suc (length-set s 0 0), drop-set n 0 s)
  | inr e ↦ ground (arith, safestrcpy_loop-cstring s t n)
]

-- `safestrcpy` into a buffer of at least `n > 0` bytes, from a source that holds a NUL: the first
-- `n` bytes then hold the source's string cut to `n - 1` bytes, and a NUL behind it. The buffer
-- keeps its length and its bytes from `n` on.
safestrcpy-cstring :
    (s t : List ℕ) (n : ℕ)
    → 0 < n
    → n ≤ length s
    → has_nul t ≡ true
    → (cstring (safestrcpy s t n) ≡ take (n - 1) (cstring t))
      × (has_nul (safestrcpy s t n) ≡ true)
      × (length (safestrcpy s t n) ≡ length s)
      × (drop n (safestrcpy s t n) ≡ drop n s)
unfolding safestrcpy
safestrcpy-cstring s t zero pos le h = absurd (omega arith)
safestrcpy-cstring s t (suc n) pos le h =
    let e : suc n - 1 ≡ n = omega arith in rw e (safestrcpy_loop-cstring s t n (omega arith) h)

-- The first `n` bytes of `l`, followed by NULs without end.
abbrev padded : ℕ → List ℕ → List ℕ
padded zero l = []
padded (suc n) [] = 0 ∷ padded n []
padded (suc n) (a ∷ l) = a ∷ padded n l

take-fill_zero :
    (n : ℕ) (s : List ℕ)
    → n ≤ length s
    → (take n (fill_zero n s) ≡ padded n []) × (drop n (fill_zero n s) ≡ drop n s)
unfolding fill_zero
take-fill_zero zero s le = (refl, refl)
take-fill_zero (suc n) [] le = absurd (omega arith)
take-fill_zero (suc n) (c ∷ s) le = ground (arith, take-fill_zero n s)

-- `strncpy` into a buffer of at least `n` bytes, from a source that holds a NUL: the first `n`
-- bytes are the source's string, cut to `n` bytes or filled up with NULs; the bytes from `n` on
-- are as before.
strncpy-padded :
    (s t : List ℕ) (n : ℕ)
    → n ≤ length s
    → has_nul t ≡ true
    → (take n (strncpy s t n) ≡ padded n (cstring t)) × (drop n (strncpy s t n) ≡ drop n s)
unfolding strncpy
strncpy-padded s t zero le h = (refl, refl)
strncpy-padded [] t (suc n) le h = absurd (omega arith)
strncpy-padded (c ∷ s) [] (suc n) le h = cc
strncpy-padded (c ∷ s) (a ∷ t) (suc n) le h =
    ground (arith, take-fill_zero n s, strncpy-padded s t n)
