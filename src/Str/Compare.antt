-- ===== src/Str/Compare.antt =====
-- `strncmp` and `memcmp` of string.c decide equality.
use pplottery.Prelude.{
  ℕ, zero, suc, ◌≤◌, ◌<◌, ◌≡◌, ◌↔◌, refl, true, some, List, [], ◌∷◌, arith, ◌==◌, length, take,
  Bool-cases, inl, inr,
}
use pplottery.Str.{strncmp, memcmp}
use pplottery.Str.Copy.{cstring, has_nul}

-- Every byte of the buffer is below 256.
abbrev pub AreBytes : List ℕ → Type 0
AreBytes [] = Unit {0}
AreBytes (a ∷ s) = (a < 256) × AreBytes s

-- `memcmp` of `n` bytes that both buffers have is 0 exactly if these bytes agree.
memcmp_iff :
    (s t : List ℕ) (n : ℕ)
    → AreBytes s
    → AreBytes t
    → n ≤ length s
    → n ≤ length t
    → (memcmp s t n ≡ some 0) ↔ (take n s ≡ take n t)
unfolding memcmp
memcmp_iff s t zero bs bt ls lt = ((λ _. refl), (λ _. refl))
memcmp_iff [] t (suc n) bs bt ls lt = absurd (omega arith)
memcmp_iff (a ∷ s) [] (suc n) bs bt ls lt = absurd (omega arith)
memcmp_iff (a ∷ s) (b ∷ t) (suc n) bs bt ls lt =
    let ih = memcmp_iff s t n bs.1 bt.1 (omega arith) (omega arith) in
    ((λ h. ground (arith, ih)), (λ h. ground (arith, ih)))

-- `strncmp` of two buffers that hold a NUL is 0 exactly if their strings agree in the first `n`
-- bytes, a string being followed by nothing.
strncmp_iff :
    (s t : List ℕ) (n : ℕ)
    → AreBytes s
    → AreBytes t
    → has_nul s ≡ true
    → has_nul t ≡ true
    → (strncmp s t n ≡ some 0) ↔ (take n (cstring s) ≡ take n (cstring t))
unfolding strncmp
strncmp_iff s t zero bs bt ls lt = ((λ _. refl), (λ _. refl))
strncmp_iff [] t (suc n) bs bt ls lt = cc
strncmp_iff (a ∷ s) [] (suc n) bs bt ls lt = cc
strncmp_iff (a ∷ s) (b ∷ t) (suc n) bs bt ls lt = elim (Bool-cases (a == 0)) [
  | inl e ↦ ((λ h. ground arith), (λ h. ground arith))
  | inr e ↦ elim (Bool-cases (b == 0)) [
    | inl f ↦ ((λ h. ground arith), (λ h. ground arith))
    | inr f ↦
        let ih = strncmp_iff s t n bs.1 bt.1 (ground arith) (ground arith) in
        ((λ h. ground (arith, ih)), (λ h. ground (arith, ih)))
  ]
]
