-- ===== src/Sysfile/Runs.antt =====
-- sysfile.c: a postcondition of a step as a family on results, with a rule for each way to go on.
use pplottery.Prelude.{true, false, Bool, Option, none, some, if◌then◌else◌, Result, ok, panic}
use pplottery.Sysfile.{Sys, M, ◌>>=◌, ◌>>◌, ret}

-- A result that is a panic, or has the property.
pub data Ends {A : Type 0} (Q : A → Sys → Type 0) : Result (A × Sys) → Type 0 where
  panics : Ends Q panic
  ends : {a : A} {s : Sys} → Q a s → Ends Q (ok (a, s))

-- From a state with `P`, the step ends with `Q`.
abbrev pub Runs : {A : Type 0} → (Sys → Type 0) → M A → (A → Sys → Type 0) → Type 0
Runs P m Q = (s : Sys) → P s → Ends Q (m s)

pub followed :
    {A B : Type 0} {Q : A → Sys → Type 0} {R : B → Sys → Type 0} (r : Result (A × Sys))
    (f : A → M B)
    → Ends Q r
    → ((a : A) → Runs (Q a) (f a) R)
    → Ends R (elim r [ panic ↦ panic | ok (a, s) ↦ f a s ])
followed panic f panics second = panics
followed (ok (a, s)) f (ends q) second = second a s q

module _ {A B : Type 0} {P : Sys → Type 0} {R : B → Sys → Type 0} where
  pub bind :
      {Q : A → Sys → Type 0} {m : M A} {f : A → M B}
      → Runs P m Q
      → ((a : A) → Runs (Q a) (f a) R)
      → Runs P (m >>= f) R
  unfolding ◌>>=◌
  bind {Q} {m} {f} first second s p = followed (m s) f (first s p) second

  pub next :
      {Q : Sys → Type 0} {m : M A} {n : M B} → Runs P m (λ a. Q) → Runs Q n R → Runs P (m >> n) R
  unfolding ◌>>◌
  next {Q} {m} {n} first second s p = followed (m s) (λ a. n) (first s p) (λ a. second)

pub weakened :
    {A : Type 0} {Q R : A → Sys → Type 0} (r : Result (A × Sys))
    → Ends Q r
    → ((a : A) (s : Sys) → Q a s → R a s)
    → Ends R r
weakened panic panics weaker = panics
weakened (ok (a, s)) (ends q) weaker = ends (weaker a s q)

module _ {A : Type 0} {P : Sys → Type 0} {Q : A → Sys → Type 0} where
  pub weaken :
      {R : A → Sys → Type 0} {m : M A}
      → Runs P m Q
      → ((a : A) (s : Sys) → Q a s → R a s)
      → Runs P m R
  weaken {m = m} step weaker s p = weakened (m s) (step s p) weaker

  pub by_test : (b : Bool) {m n : M A} → Runs P m Q → Runs P n Q → Runs P (if b then m else n) Q
  by_test true first second = first
  by_test false first second = second

-- The two ways on from an optional value, of which the state before may depend.
pub by_option :
    {A B : Type 0} {Q : A → Sys → Type 0} {m : M A} {f : B → M A} (P : Option B → Sys → Type 0)
    (o : Option B)
    → Runs (P none) m Q
    → ((b : B) → Runs (P (some b)) (f b) Q)
    → Runs (P o) (elim o as (λ _. M A) [ none ↦ m | some b ↦ f b ]) Q
by_option P none absent present = absent
by_option P (some b) absent present = present b

pub stuck : {A : Type 0} (P : Sys → Type 0) (Q : A → Sys → Type 0) → Runs P (λ s. panic) Q
stuck P Q s p = panics

pub done : {A : Type 0} {Q : A → Sys → Type 0} (a : A) → Runs (Q a) (ret a) Q
done a s q = ends q
