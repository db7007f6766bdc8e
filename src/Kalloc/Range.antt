-- ===== src/Kalloc/Range.antt =====
-- `freerange` and `kinit`: the pages that they put into the list.
use pplottery.Prelude.{
  ℕ, zero, suc, ◌+◌, ◌-◌, ◌*◌, ◌/◌, ◌%◌, ◌<◌, ◌≤◌, ◌≡◌, refl, false, some, List, [], ◌∷◌, arith,
  Bool-cases, inl, inr, leb, ok,
}
use pplottery.Str.{Memory}
use pplottery.Kalloc.{Kmem, pgsize, phystop, pgroundup, freerange_from, freerange, kinit}
use pplottery.Kalloc.FreeList.{contains, IsFree, kfree-IsFree}

-- The pages from `p` on that end by `pa_end`, the last one in front.
abbrev pub pages_onto : (n p : ℕ) → List ℕ → List ℕ
pages_onto zero p xs = xs
pages_onto (suc n) p xs = pages_onto n (p + pgsize) (p ∷ xs)

abbrev AllBelow : ℕ → List ℕ → Type 0
AllBelow p [] = Unit {0}
AllBelow p (x ∷ xs) = (x < p) × AllBelow p xs

AllBelow-contains : (p : ℕ) (xs : List ℕ) → AllBelow p xs → contains xs p ≡ false
AllBelow-contains p [] h = refl
AllBelow-contains p (x ∷ xs) h = ground (arith, AllBelow-contains p xs h.1)

AllBelow-mono : (p q : ℕ) (xs : List ℕ) → p ≤ q → AllBelow p xs → AllBelow q xs
AllBelow-mono p q [] le h = tt
AllBelow-mono p q (x ∷ xs) le h = (omega arith, AllBelow-mono p q xs le h.1)

freerange_from-IsFree :
    (fuel kend p pa_end : ℕ) (k : Kmem) (xs : List ℕ)
    → pa_end + pgsize < p + fuel * pgsize
    → p ≤ pa_end + pgsize
    → kend ≤ p
    → p % pgsize ≡ 0
    → pa_end ≤ phystop
    → AllBelow p xs
    → IsFree kend k xs
    → (k' : Kmem) × (freerange_from fuel kend p pa_end k ≡ some (ok k'))
      × IsFree kend k' (pages_onto ((pa_end - p) / pgsize) p xs)
unfolding freerange_from
freerange_from-IsFree zero kend p pa_end k xs enough near above aligned top below v =
    absurd (omega arith)
freerange_from-IsFree (suc fuel) kend p pa_end k xs enough near above aligned top below v =
    elim (Bool-cases (leb (p + pgsize) pa_end)) [
      | inl fits ↦
          let (k1, freed, v1) =
            (kfree-IsFree kend p k xs v (AllBelow-contains p xs below)).1 (ground arith) in
          let (k2, ran, v2) =
            freerange_from-IsFree fuel kend (p + pgsize) pa_end k1 (p ∷ xs) (omega arith)
              (ground arith) (omega arith) (omega arith) top
              (omega arith, AllBelow-mono p (p + pgsize) xs (omega arith) below) v1 in
          let count : (pa_end - p) / pgsize ≡ suc ((pa_end - (p + pgsize)) / pgsize) =
            ground arith in
          (k2, rw (fits, freed, freerange_from) ran, rw count v2)
      | inr out ↦ let count : (pa_end - p) / pgsize ≡ 0 = ground arith in (k, rw out, rw count v)
    ]

-- `kinit` on a machine with the kernel below the end of memory frees every whole page from there
-- up to the end of memory, each once, and ends.
pub kinit-IsFree :
    (fuel kend : ℕ) (m : Memory)
    → phystop + pgsize < fuel * pgsize
    → 0 < kend
    → kend ≤ phystop
    → (k : Kmem) × (kinit fuel kend m ≡ some (ok k))
      × IsFree kend k (pages_onto ((phystop - pgroundup kend) / pgsize) (pgroundup kend) [])
unfolding kinit freerange
kinit-IsFree fuel kend m enough pos below =
    freerange_from-IsFree fuel kend (pgroundup kend) phystop _ [] (omega arith) (omega arith)
      (omega arith) (omega arith) (omega arith) tt (record { chain = refl; pages = tt })
