-- ===== src/Ulib/Text.antt =====
-- The string functions of ulib.c against the C strings that the buffers hold, and string.c's.
use pplottery.Prelude.{ℕ, ◌≡◌, ◌↔◌, true, some, List, [], ◌∷◌, ◌==◌, arith, Bool-cases, inl, inr}
use pplottery.Str.{Memory}
use pplottery.Str.Move.{move_up-copied, move_down-copied, memmove-copied}
use pplottery.Str.Copy.{cstring, has_nul}
use pplottery.Str.Compare.{AreBytes}
use pplottery.Str
use pplottery.Ulib.{memmove, strcmp}

-- The `memmove` of the user library, which chooses its direction by another test, leaves the
-- same memory as the kernel's, overlap included.
memmove-same :
    (dst src n : ℕ) (m : Memory) (a : ℕ) → memmove dst src n m a ≡ Str.memmove dst src n m a
unfolding memmove
memmove-same dst src n m a = ground (
  arith,
  memmove-copied dst src n m a,
  move_up-copied n dst src m a,
  move_down-copied n dst src m a,
)

-- `strcmp` of two buffers that hold a NUL is 0 exactly if their strings are equal.
strcmp_iff :
    (s t : List ℕ)
    → AreBytes s
    → AreBytes t
    → has_nul s ≡ true
    → has_nul t ≡ true
    → (strcmp s t ≡ some 0) ↔ (cstring s ≡ cstring t)
unfolding strcmp
strcmp_iff [] t bs bt hs ht = cc
strcmp_iff (a ∷ s) [] bs bt hs ht = cc
strcmp_iff (a ∷ s) (b ∷ t) bs bt hs ht = elim (Bool-cases (a == 0)) [
  | inl e ↦ ((λ h. ground arith), (λ h. ground arith))
  | inr e ↦ elim (Bool-cases (b == 0)) [
    | inl f ↦ ((λ h. ground arith), (λ h. ground arith))
    | inr f ↦
        let ih = strcmp_iff s t bs.1 bt.1 (ground arith) (ground arith) in
        ((λ h. ground (arith, ih)), (λ h. ground (arith, ih)))
  ]
]
