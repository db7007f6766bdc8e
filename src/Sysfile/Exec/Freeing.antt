-- ===== src/Sysfile/Exec/Freeing.antt =====
-- sysfile.c: the loop of sys_exec that frees the pages of the arguments.
use pplottery.Prelude.{
  ℕ, ◌≡◌, refl, inl, inr, ap, ◌∙◌, false, ◌||◌, List, [], ◌∷◌, ◌++◌, ◌==◌, ok, arith, Bool-cases,
}
use pplottery.Kalloc.{put, pushed}
use pplottery.Kalloc.FreeList.{IsFree, Pages, contains, put_self, kfree-pushed, kfree-IsFree}
use pplottery.Vm.{Vm}
use pplottery.Sysfile.Exec.{free_args}

pub contains-append :
    (xs ys : List ℕ) (p : ℕ) → contains (xs ++ ys) p ≡ (contains xs p || contains ys p)
contains-append [] ys p = refl
contains-append (x ∷ xs) ys p = elim (Bool-cases (x == p)) [
  | inl here ↦ rw here refl
  | inr other ↦ rw other (contains-append xs ys p)
]

-- A page may stand anywhere in a list of distinct pages.
Pages-move :
    (kend p : ℕ) (ps ys : List ℕ) → Pages kend (p ∷ (ps ++ ys)) → Pages kend (ps ++ (p ∷ ys))
Pages-move kend p [] ys h = h
Pages-move kend p (q ∷ ps) ys (good, fresh, (good_q, fresh_q, more)) = (
  good_q,
  contains-append ps (p ∷ ys) q ∙ ground (arith, contains-append ps ys q, fresh, fresh_q),
  Pages-move kend p ps ys (good, ground (arith, fresh), more),
)

-- The free list `ys` once the pages are freed one by one.
abbrev pub returned : List ℕ → List ℕ → List ℕ
returned [] ys = ys
returned (p ∷ ps) ys = returned ps (p ∷ ys)

pub contains-returned :
    (ps ys : List ℕ) (p : ℕ) → contains (returned ps ys) p ≡ (contains ps p || contains ys p)
contains-returned [] ys p = refl
contains-returned (q ∷ ps) ys p = contains-returned ps (q ∷ ys) p ∙ ground arith

pub free_args-IsFree :
    (kend : ℕ) (argv ys : List ℕ) (s : Vm)
    → IsFree kend s.kmem ys
    → Pages kend (argv ++ ys)
    → (t : Vm) × (free_args kend argv s ≡ ok (tt, t)) × IsFree kend t.kmem (returned argv ys)
unfolding free_args
free_args-IsFree kend [] ys s free pages = (s, refl, free)
free_args-IsFree kend (p ∷ ps) ys s free (good, fresh, more) =
    let out : contains ys p ≡ false = ground (arith, contains-append ps ys p, fresh) in
    let (k, freed, free') = (kfree-IsFree kend p s.kmem ys free out).1 good in
    let t : Vm = record s { kmem = k } in
    let (u, run, free'') =
      free_args-IsFree kend ps (p ∷ ys) t free' (Pages-move kend p ps ys (good, fresh, more)) in
    (u, rw (free_args, freed) run, free'')

-- The free list from the page `head` on is the pages `xs` and then goes on at `tail`.
abbrev pub Leads : (next : ℕ → ℕ) (head : ℕ) → List ℕ → (tail : ℕ) → Type 0
Leads next head [] tail = head ≡ tail
Leads next head (x ∷ xs) tail = (head ≡ x) × Leads next (next x) xs tail

Leads-put :
    (next : ℕ → ℕ) (head a v tail : ℕ) (xs : List ℕ)
    → contains xs a ≡ false
    → Leads next head xs tail
    → Leads (put next a v) head xs tail
Leads-put next head a v tail [] out leads = leads
Leads-put next head a v tail (x ∷ xs) out (here, rest) =
    let same : put next a v x ≡ next x = ground (arith, out) in
    (
      here,
      rw (ap (λ h. Leads (put next a v) h xs tail) same)
          (Leads-put next (next x) a v tail xs (ground (arith, out)) rest),
    )

-- Good pages that are all different are freed whatever the free list is.
pub free_args-Leads :
    (kend tail : ℕ) (argv ys : List ℕ) (s : Vm)
    → Leads s.kmem.next s.kmem.freelist ys tail
    → Pages kend (argv ++ ys)
    → (t : Vm) × (free_args kend argv s ≡ ok (tt, t))
      × Leads t.kmem.next t.kmem.freelist (returned argv ys) tail
unfolding free_args
free_args-Leads kend tail [] ys s leads pages = (s, refl, leads)
free_args-Leads kend tail (p ∷ ps) ys s leads (good, fresh, more) =
    let out : contains ys p ≡ false = ground (arith, contains-append ps ys p, fresh) in
    let t : Vm = record s { kmem = pushed p s.kmem } in
    let first : Leads t.kmem.next t.kmem.freelist (p ∷ ys) tail = (
      refl,
      rw (put_self s.kmem.next p s.kmem.freelist)
          (Leads-put s.kmem.next s.kmem.freelist p s.kmem.freelist tail ys out leads),
    ) in
    let (u, run, last) =
      free_args-Leads kend tail ps (p ∷ ys) t first (Pages-move kend p ps ys (good, fresh, more)) in
    (u, rw (free_args, kfree-pushed kend p s.kmem good) run, last)

pub Pages-front : (kend : ℕ) (ps ys : List ℕ) → Pages kend (ps ++ ys) → Pages kend (ps ++ [])
Pages-front kend [] ys pages = tt
Pages-front kend (p ∷ ps) ys (good, fresh, more) = (
  good,
  contains-append ps [] p ∙ ground (arith, contains-append ps ys p, fresh),
  Pages-front kend ps ys more,
)
