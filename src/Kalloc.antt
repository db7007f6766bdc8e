-- ===== src/Kalloc.antt =====
-- kalloc.c: the allocator of physical pages. `next` is the `struct run` that a free page holds in
-- its first bytes, kept apart from `mem`, the bytes of the pages. `kend` is the address `end`.
pub mod FreeList
pub mod Range
mod Tests
use pplottery.Prelude.{
  ℕ, zero, suc, ◌+◌, ◌-◌, ◌*◌, ◌/◌, ◌%◌, Bool, ◌||◌, not, Option, none, some, ◌==◌, leb, ltb,
  if◌then◌else◌, Result, ok, panic,
}
use pplottery.Str.{Memory, memset}

abbrev pub pgsize : ℕ
pgsize = 4096

-- KERNBASE + 128 MB
abbrev pub phystop : ℕ
phystop = 0x8800_0000

-- `PGROUNDUP`
abbrev pub pgroundup : ℕ → ℕ
pgroundup sz = (sz + pgsize - 1) / pgsize * pgsize

-- `kmem`; the list pointer is 0 where the list ends.
pub record Kmem : Type 0 where
  pub freelist : ℕ
  pub next : ℕ → ℕ
  pub mem : Memory

abbrev pub put : (ℕ → ℕ) → ℕ → ℕ → ℕ → ℕ
put f a v b = if b == a then v else f b

-- The test of `kfree` before it panics.
abbrev pub is_bad_page : (kend pa : ℕ) → Bool
is_bad_page kend pa = not (pa % pgsize == 0) || (ltb pa kend || leb phystop pa)

-- `memset(pa, 1, PGSIZE)`, and the page in front of the list.
abbrev pub pushed : ℕ → Kmem → Kmem
pushed pa k = record k {
  mem = memset pa 1 pgsize k.mem;
  next = put k.next pa k.freelist;
  freelist = pa;
}

pub kfree : (kend pa : ℕ) → Kmem → Result Kmem
kfree kend pa k = if is_bad_page kend pa then panic else ok (pushed pa k)

-- The page, or 0, and the allocator after the call.
pub kalloc : Kmem → ℕ × Kmem
kalloc k =
    let r = k.freelist in
    if r == 0 then (0, k) else (r, record k { freelist = k.next r; mem = memset r 5 pgsize k.mem })

-- `for(; p + PGSIZE <= (char*)pa_end; p += PGSIZE) kfree(p);`, on fuel.
pub freerange_from : (fuel kend p pa_end : ℕ) → Kmem → Option (Result Kmem)
unfolding kfree
freerange_from zero kend p pa_end k = none
freerange_from (suc fuel) kend p pa_end k =
    if leb (p + pgsize) pa_end
    then elim (kfree kend p k) [
      | panic ↦ some panic
      | ok k' ↦ freerange_from fuel kend (p + pgsize) pa_end k'
    ]
    else some (ok k)

pub freerange : (fuel kend pa_start pa_end : ℕ) → Kmem → Option (Result Kmem)
freerange fuel kend pa_start pa_end k = freerange_from fuel kend (pgroundup pa_start) pa_end k

-- `kinit`, on the allocator as it is in the zeroed data of the kernel.
pub kinit : (fuel kend : ℕ) → Memory → Option (Result Kmem)
unfolding freerange
kinit fuel kend m =
    freerange fuel kend kend phystop (record { freelist = 0; next = λ a. 0; mem = m })
