-- ===== src/Printf/Tests.antt =====
-- The theorem on printf.c at a concrete number.
use pplottery.Prelude.{◌≡◌, false, some, List, ℕ, arith}
use pplottery.Ulib.{atoi}
use pplottery.Printf.{printint}
use pplottery.Printf.Number.{atoi-printint}

atoi-printint_example : (out : List ℕ) × (printint 4096 10 false ≡ some out) × (atoi out ≡ 4096)
atoi-printint_example = atoi-printint 4096 (omega arith)
