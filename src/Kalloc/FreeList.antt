-- ===== src/Kalloc/FreeList.antt =====
-- The free list as a list of distinct, aligned pages: `kfree` pushes, `kalloc` pops.
use pplottery.Prelude.{
  ℕ, ◌%◌, ◌<◌, ◌≤◌, ◌≡◌, refl, Bool, true, false, List, [], ◌∷◌, ◌==◌, if◌then◌else◌, arith, ok,
  panic,
}
use pplottery.Kalloc.{Kmem, put, pgsize, phystop, is_bad_page, kfree, kalloc, pushed}

-- The `next` pointers lead from `p` through exactly the pages `xs`.
abbrev Chain : (ℕ → ℕ) → ℕ → List ℕ → Type 0
Chain next p [] = p ≡ 0
Chain next p (x ∷ xs) = (p ≡ x) × Chain next (next x) xs

abbrev pub contains : List ℕ → ℕ → Bool
contains [] a = false
contains (x ∷ xs) a = if x == a then true else contains xs a

-- Distinct pages that `kfree` accepts. The kernel does not begin at address 0.
abbrev pub Pages : (kend : ℕ) → List ℕ → Type 0
Pages kend [] = Unit {0}
Pages kend (x ∷ xs) = (is_bad_page kend x ≡ false) × (contains xs x ≡ false) × Pages kend xs

pub record IsFree (kend : ℕ) (k : Kmem) (xs : List ℕ) : Type 0 where
  pub chain : Chain k.next k.freelist xs
  pub pages : Pages kend xs

Chain-put :
    (next : ℕ → ℕ) (p a v : ℕ) (xs : List ℕ)
    → contains xs a ≡ false
    → Chain next p xs
    → Chain (put next a v) p xs
Chain-put next p a v [] out h = h
Chain-put next p a v (x ∷ xs) out h =
    let same : put next a v x ≡ next x = ground arith in
    (h.0, rw same (Chain-put next (next x) a v xs (ground arith) h.1))

pub put_self : (next : ℕ → ℕ) (a v : ℕ) → put next a v a ≡ v
put_self next a v = ground arith

-- What `kfree` does to an acceptable page does not depend on the free list.
pub kfree-pushed :
    (kend pa : ℕ) (k : Kmem) → is_bad_page kend pa ≡ false → kfree kend pa k ≡ ok (pushed pa k)
unfolding kfree
kfree-pushed kend pa k good = rw good refl

-- `kfree` of an acceptable page that is not in the list puts it in front; a page that is not aligned, lies
-- below the end of the kernel or beyond the memory, is a panic.
pub kfree-IsFree :
    (kend pa : ℕ) (k : Kmem) (xs : List ℕ)
    → IsFree kend k xs
    → contains xs pa ≡ false
    → (is_bad_page kend pa ≡ true → kfree kend pa k ≡ panic)
      × (is_bad_page kend pa ≡ false
          → (k' : Kmem) × (kfree kend pa k ≡ ok k') × IsFree kend k' (pa ∷ xs))
unfolding kfree
kfree-IsFree kend pa k xs v out = (
  (λ bad. ground arith),
  (λ good. (
    pushed pa k,
    rw good,
    record {
      chain = (
        refl,
        rw (put_self k.next pa k.freelist)
            (Chain-put k.next k.freelist pa k.freelist xs out v.chain),
      );
      pages = (good, out, v.pages);
    },
  )),
)

-- What `kalloc` does to an allocator with the free pages `xs`.
abbrev pub Popped : (kend : ℕ) → Kmem → List ℕ → Type 0
Popped kend k [] = kalloc k ≡ (0, k)
Popped kend k (x ∷ rest) =
    ((kalloc k).0 ≡ x)
    × (0 < x)
    × (x % pgsize ≡ 0)
    × (kend ≤ x)
    × (x < phystop)
    × IsFree kend (kalloc k).1 rest
    × (contains rest x ≡ false)

-- `kalloc` hands out the page in front, which is then no longer in the list, is aligned and lies
-- between the end of the kernel and the end of memory; it returns 0 exactly if the list is empty.
pub kalloc-Popped :
    (kend : ℕ) (k : Kmem) (xs : List ℕ) → 0 < kend → IsFree kend k xs → Popped kend k xs
unfolding kalloc
kalloc-Popped kend k [] pos v = rw (v.chain, kalloc)
kalloc-Popped kend k (x ∷ rest) pos v =
    let (good, fresh, more) = v.pages in
    let above : kend ≤ x = ground arith in
    let some_page : (k.freelist == 0) ≡ false = ground (arith, v.chain.0) in
    rw (some_page, kalloc)
      (
        v.chain.0,
        omega arith,
        ground arith,
        above,
        ground arith,
        record { chain = rw v.chain.0 v.chain.1; pages = more },
        fresh,
      )
