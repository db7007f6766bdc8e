-- ===== src/Fs/Bitmap/Bits.antt =====
-- Facts on the bits of the bytes of the free map, by evaluation at every byte.
use pplottery.Prelude.{
  ℕ, zero, suc, ◌-◌, ◌^◌, ◌<◌, ◌≡◌, inl, inr, refl, Bool, true, false, not, ◌==◌, ==_iff, ltb,
  if◌then◌else◌, arith, Bool-cases,
}
use Prim.Native.Nat.{bit_and, bit_or}

-- `test` holds of the numbers under `bound`.
upto : (test : ℕ → Bool) → (bound : ℕ) → Bool
upto test zero = true
upto test (suc bound) = let others = upto test bound in if test bound then others else false

upto_lem : (test : ℕ → Bool) (bound c : ℕ) → c < bound → upto test bound ≡ true → test c ≡ true
unfolding upto
upto_lem test zero c lt all = absurd (omega arith)
upto_lem test (suc bound) c lt all = elim (Bool-cases (test bound)) [
  | inr fails ↦ let bad : false ≡ true = rw fails at all in cc
  | inl now ↦ elim (Bool-cases (c == bound)) [
    | inl last ↦ let at : c ≡ bound = (==_iff c bound).0 last in rw at now
    | inr other ↦ upto_lem test bound c (ground arith) (rw now at all)
  ]
]

-- Bit `j` of byte `m` is clear.
abbrev clear_at : (m j : ℕ) → Bool
clear_at m j = bit_and m (2 ^ j) == 0

-- After a write of bit `k` in byte `m` that leaves `after`: a byte, and bit `j` is clear as `want` says.
abbrev good : (after : ℕ → ℕ → ℕ) (at_k : Bool) (m k j : ℕ) → Bool
good after at_k m k j =
    if ltb (after m k) 256
    then (if clear_at (after m k) j
        then (if k == j then at_k else clear_at m j)
        else not (if k == j then at_k else clear_at m j))
    else false

good_lem :
    (after : ℕ → ℕ → ℕ) (at_k : Bool) (m k j : ℕ)
    → good after at_k m k j ≡ true
    → (after m k < 256) × (clear_at (after m k) j ≡ (if k == j then at_k else clear_at m j))
good_lem after at_k m k j h = (ground arith, ground arith)

abbrev on_all : (after : ℕ → ℕ → ℕ) → Bool → Bool
on_all after at_k = upto (λ m. upto (λ k. upto (good after at_k m k) 8) 8) 256

on_all_lem :
    (after : ℕ → ℕ → ℕ) (at_k : Bool) (m k j : ℕ)
    → on_all after at_k ≡ true
    → m < 256
    → k < 8
    → j < 8
    → (after m k < 256) × (clear_at (after m k) j ≡ (if k == j then at_k else clear_at m j))
on_all_lem after at_k m k j h byte bit other =
    let at_m = upto_lem (λ m'. upto (λ k'. upto (good after at_k m' k') 8) 8) 256 m byte h in
    let at_bit = upto_lem (λ k'. upto (good after at_k m k') 8) 8 k bit at_m in
    good_lem after at_k m k j (upto_lem (good after at_k m k) 8 j other at_bit)

abbrev with_bit : (m k : ℕ) → ℕ
with_bit m k = bit_or m (2 ^ k)

abbrev without_bit : (m k : ℕ) → ℕ
without_bit m k = bit_and m (255 - 2 ^ k)

with_bit_all : on_all with_bit false ≡ true
unfolding upto
with_bit_all = refl

without_bit_all : on_all without_bit true ≡ true
unfolding upto
without_bit_all = refl

pub set_bit :
    (m k j : ℕ)
    → m < 256
    → k < 8
    → j < 8
    → (with_bit m k < 256) × (clear_at (with_bit m k) j ≡ (if k == j then false else clear_at m j))
set_bit m k j = on_all_lem with_bit false m k j with_bit_all

pub clear_bit :
    (m k j : ℕ)
    → m < 256
    → k < 8
    → j < 8
    → (without_bit m k < 256)
      × (clear_at (without_bit m k) j ≡ (if k == j then true else clear_at m j))
clear_bit m k j = on_all_lem without_bit true m k j without_bit_all
