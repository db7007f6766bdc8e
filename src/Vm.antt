-- ===== src/Vm.antt =====
-- vm.c: page tables of three levels. A page that is a page table is read as its 512 entries, in
-- `ptes`; the other pages are the memory of the page allocator of Kalloc, which hands out both kinds.
-- Addresses and entries are 64-bit words. `kend` is the address `end`, for `kfree`.
pub mod User
pub mod Copy
pub mod Kernel
pub mod View
mod Tests
use pplottery.Prelude.{
  ℕ, zero, suc, ◌+◌, ◌-◌, ◌*◌, ◌/◌, ◌%◌, ◌^◌, Bool, true, false, not, ◌&&◌, ◌||◌, Option, none,
  some, ◌==◌, leb, if◌then◌else◌, Result, ok, panic, minus_one,
}
use pplottery.Kalloc.{Kmem, pgsize, kalloc, kfree}

pub record Vm : Type 0 where
  pub kmem : Kmem
  pub ptes : ℕ → ℕ → ℕ

-- A step on the memory: a panic, or a value and the state after it.
abbrev pub M : Type 0 → Type 0
M A = Vm → Result (A × Vm)

infixl 5 ◌>>=◌ ◌>>◌
abbrev pub ◌>>=◌ : {A B : Type 0} → M A → (A → M B) → M B
◌>>=◌ m f s = elim (m s) [ panic ↦ panic | ok (a, s') ↦ f a s' ]

abbrev pub ◌>>◌ : {A B : Type 0} → M A → M B → M B
◌>>◌ m n s = elim (m s) [ panic ↦ panic | ok (a, s') ↦ n s' ]

-- `MAXVA`
abbrev pub maxva : ℕ
maxva = 2 ^ 38

abbrev pub pte_v : ℕ
pte_v = 1

abbrev pub pte_r : ℕ
pte_r = 2

abbrev pub pte_w : ℕ
pte_w = 4

abbrev pub pte_x : ℕ
pte_x = 8

abbrev pub pte_u : ℕ
pte_u = 16

-- `pte & bit`, of one bit.
abbrev pub is_set : (bit pte : ℕ) → Bool
is_set bit pte = pte / bit % 2 == 1

abbrev pub pa2pte : ℕ → ℕ
pa2pte pa = pa / 4096 * 1024 % 2 ^ 64

abbrev pub pte2pa : ℕ → ℕ
pte2pa pte = pte / 1024 * 4096 % 2 ^ 64

abbrev pub pte_flags : ℕ → ℕ
pte_flags pte = pte % 1024

abbrev pub px : (level va : ℕ) → ℕ
px level va = va / 2 ^ (12 + 9 * level) % 512

-- `PA2PTE(pa) | perm | PTE_V`; `perm` is below 1024, so that no bit of it meets one of the address.
abbrev pub leaf : (pa perm : ℕ) → ℕ
leaf pa perm = pa2pte pa + (if is_set pte_v perm then perm else perm + pte_v)

-- `pagetable[i] = pte`
abbrev pub set_pte : (table i pte : ℕ) → Vm → Vm
set_pte table i pte s = record s {
  ptes = (λ p j. if (p == table) && (j == i) then pte else s.ptes p j);
}

-- `memset(pagetable, 0, PGSIZE)`
abbrev pub clear_table : ℕ → Vm → Vm
clear_table table s = record s { ptes = (λ p j. if p == table then 0 else s.ptes p j) }

-- `kalloc` and `kfree`, on the memory.
abbrev pub take_page : Vm → ℕ × Vm
take_page s = let (p, k) = kalloc s.kmem in (p, record s { kmem = k })

abbrev pub give_page : (kend pa : ℕ) → M (Unit {0})
give_page kend pa s = elim (kfree kend pa s.kmem) [
  | panic ↦ panic
  | ok k ↦ ok (tt, record s { kmem = k })
]

-- A round of the loop of `walk`: the next page table, or null.
pub descend : (alloc : Bool) (table i : ℕ) → Vm → Option ℕ × Vm
descend alloc table i s =
    let pte = s.ptes table i in
    let (page, t) = take_page s in
    if is_set pte_v pte
    then (some (pte2pa pte), s)
    else if not alloc || (page == 0)
    then (none, if alloc then t else s)
    else (some page, set_pte table i (pa2pte page + pte_v) (clear_table page t))

-- The loop of `walk` from a level on: a page table and the index in it, or null.
pub walk_from : (level : ℕ) (alloc : Bool) (table va : ℕ) → Vm → Option (ℕ × ℕ) × Vm
unfolding descend
walk_from zero alloc table va s = (some (table, px 0 va), s)
walk_from (suc level) alloc table va s =
    let (child, t) = descend alloc table (px (suc level) va) s in
    elim child [ none ↦ (none, t) | some next ↦ walk_from level alloc next va t ]

pub walk : (alloc : Bool) (table va : ℕ) → M (Option (ℕ × ℕ))
unfolding walk_from
walk alloc table va s = if leb maxva va then panic else ok (walk_from 2 alloc table va s)

-- The address of the page, or 0.
pub walkaddr : (table va : ℕ) → M ℕ
unfolding walk
walkaddr table va s =
    let look : Result (ℕ × Vm) = elim (walk false table va s) [
      | panic ↦ panic
      | ok (none, t) ↦ ok (0, t)
      | ok (some (p, i), t) ↦
          let pte = t.ptes p i in
          if not (is_set pte_v pte)
          then ok (0, t)
          else if not (is_set pte_u pte)
          then ok (0, t)
          else ok (pte2pa pte, t)
    ] in
    if leb maxva va then ok (0, s) else look

-- The loop of `mappages`, with `n` pages to go. A run past the last virtual address panics in `walk`.
pub map_from : (n table a pa perm : ℕ) → M ℕ
unfolding walk
map_from zero table a pa perm s = ok (0, s)
map_from (suc n) table a pa perm s =
    let next = map_from n table (a + pgsize) (pa + pgsize) perm in
    elim (walk true table a s) [
      | panic ↦ panic
      | ok (none, t) ↦ ok (minus_one, t)
      | ok (some (p, i), t) ↦
          let more = next (set_pte p i (leaf pa perm) t) in
          if is_set pte_v (t.ptes p i) then panic else more
    ]

pub mappages : (table va size pa perm : ℕ) → M ℕ
unfolding map_from
mappages table va size pa perm s =
    let run = map_from (size / pgsize) table va pa perm s in
    if not (va % pgsize == 0)
    then panic
    else if not (size % pgsize == 0)
    then panic
    else if size == 0
    then panic
    else run

-- The loop of `uvmunmap`, with `n` pages to go.
pub unmap_from : (n kend table a : ℕ) (do_free : Bool) → M (Unit {0})
unfolding walk
unmap_from zero kend table a do_free s = ok (tt, s)
unmap_from (suc n) kend table a do_free s =
    let next = unmap_from n kend table (a + pgsize) do_free in
    elim (walk false table a s) [
      | panic ↦ panic
      | ok (none, t) ↦ panic
      | ok (some (p, i), t) ↦
          let pte = t.ptes p i in
          let freed : Result (Unit {0} × Vm) = elim (give_page kend (pte2pa pte) t) [
            | panic ↦ panic
            | ok (x, u) ↦ next (set_pte p i 0 u)
          ] in
          let kept = next (set_pte p i 0 t) in
          if not (is_set pte_v pte)
          then panic
          else if pte_flags pte == pte_v
          then panic
          else if do_free
          then freed
          else kept
    ]

-- `a` runs to `va + npages*PGSIZE`, which wraps at 64 bits.
pub uvmunmap : (kend table va npages : ℕ) (do_free : Bool) → M (Unit {0})
unfolding unmap_from
uvmunmap kend table va npages do_free s =
    let end = (va + npages * pgsize) % 2 ^ 64 in
    let run = unmap_from ((end - va) / pgsize) kend table va do_free s in
    if not (va % pgsize == 0) then panic else run
