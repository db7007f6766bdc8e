-- ===== src/Kalloc/Tests.antt =====
-- The theorems on the page allocator with two free pages.
use pplottery.Prelude.{ℕ, ◌==◌, if◌then◌else◌, ◌-◌, ◌/◌, ◌≡◌, refl, some, List, [], ◌∷◌, ok, arith}
use pplottery.Kalloc.{Kmem, kinit, pgroundup, pgsize, phystop}
use pplottery.Kalloc.FreeList.{IsFree}
use pplottery.Kalloc.Range.{pages_onto, kinit-IsFree}

abbrev free_pages : Kmem
free_pages = record {
  freelist = 0x87ff_f000;
  next = λ a. if a == 0x87ff_f000 then 0x87ff_e000 else 0;
  mem = λ a. 0;
}

abbrev two_pages : List ℕ
two_pages = 0x87ff_f000 ∷ 0x87ff_e000 ∷ []

free_pages-IsFree : IsFree 0x8002_1000 free_pages two_pages
free_pages-IsFree = record { chain = (refl, (refl, refl)); pages = (refl, refl, (refl, refl, tt)) }

kinit-IsFree_example :
    (k : Kmem) × (kinit 600_000 0x87ff_d123 (λ a. 0) ≡ some (ok k))
    × IsFree 0x87ff_d123 k
        (pages_onto ((phystop - pgroundup 0x87ff_d123) / pgsize) (pgroundup 0x87ff_d123) [])
kinit-IsFree_example =
    kinit-IsFree 600_000 0x87ff_d123 (λ a. 0) (omega arith) (omega arith) (omega arith)
