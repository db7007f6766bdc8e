-- ===== src/Vm/User.antt =====
-- vm.c: the memory of a process, from `uvmcreate` to `uvmclear`. Null and the error are 0.
use pplottery.Prelude.{
  ℕ, zero, suc, ◌+◌, ◌-◌, ◌*◌, ◌/◌, ◌%◌, ◌^◌, Bool, true, false, not, ◌&&◌, ◌||◌, none, some, ◌==◌,
  ltb, leb, if◌then◌else◌, Result, ok, panic, minus_one, sext64,
}
use pplottery.Kalloc.{pgsize}
use pplottery.Str.{memset, memmove}
use pplottery.Vm.{
  Vm, M, ◌>>◌, pte_v, pte_r, pte_w, pte_x, pte_u, is_set, pte2pa, pte_flags, set_pte, clear_table,
  take_page, give_page, walk, mappages, uvmunmap,
}

-- `PGROUNDUP` of a 64-bit number.
abbrev pub pgroundup64 : ℕ → ℕ
pgroundup64 sz = (sz + pgsize - 1) % 2 ^ 64 / pgsize * pgsize

-- `memset(mem, c, PGSIZE)` and `memmove(dst, src, n)` on the memory.
abbrev pub set_page : (mem c : ℕ) → Vm → Vm
set_page mem c s = record s { kmem = record (s.kmem) { mem = memset mem c pgsize s.kmem.mem } }

abbrev pub move_bytes : (dst src n : ℕ) → Vm → Vm
move_bytes dst src n s = record s { kmem = record (s.kmem) { mem = memmove dst src n s.kmem.mem } }

pub uvmcreate : M ℕ
uvmcreate s =
    let (table, t) = take_page s in
    if table == 0 then ok (0, t) else ok (table, clear_table table t)

pub uvmfirst : (table src sz : ℕ) → M (Unit {0})
uvmfirst table src sz s =
    let (mem, t) = take_page s in
    let run : Result (Unit {0} × Vm) =
      elim (mappages table 0 pgsize mem (pte_w + pte_r + pte_x + pte_u) (set_page mem 0 t)) [
        | panic ↦ panic
        | ok (r, u) ↦ ok (tt, move_bytes mem src sz u)
      ] in
    if leb pgsize sz then panic else run

-- `npages` is an `int`.
pub uvmdealloc : (kend table oldsz newsz : ℕ) → M ℕ
uvmdealloc kend table oldsz newsz s =
    let npages = sext64 ((pgroundup64 oldsz - pgroundup64 newsz) / pgsize % 2 ^ 32) in
    let run : Result (ℕ × Vm) = elim (uvmunmap kend table (pgroundup64 newsz) npages true s) [
      | panic ↦ panic
      | ok (x, t) ↦ ok (newsz, t)
    ] in
    if leb oldsz newsz
    then ok (oldsz, s)
    else if ltb (pgroundup64 newsz) (pgroundup64 oldsz)
    then run
    else ok (newsz, s)

-- The loop of `uvmalloc`, with `n` pages to go; `oldsz` is rounded up.
pub uvmalloc_from : (n kend table a oldsz newsz xperm : ℕ) → M ℕ
unfolding uvmdealloc
uvmalloc_from zero kend table a oldsz newsz xperm s = ok (newsz, s)
uvmalloc_from (suc n) kend table a oldsz newsz xperm s =
    let (mem, t) = take_page s in
    let next = uvmalloc_from n kend table (a + pgsize) oldsz newsz xperm in
    let undo : M ℕ = (do uvmdealloc kend table a oldsz; (λ u. ok (0, u))) in
    let step : Result (ℕ × Vm) =
      elim (mappages table a pgsize mem (pte_r + pte_u + xperm) (set_page mem 0 t)) [
        | panic ↦ panic
        | ok (r, u) ↦
            let fail = (give_page kend mem >> undo) u in
            let more = next u in if r == 0 then more else fail
      ] in
    if mem == 0 then undo t else step

pub uvmalloc : (kend table oldsz newsz xperm : ℕ) → M ℕ
unfolding uvmalloc_from
uvmalloc kend table oldsz newsz xperm s =
    let old = pgroundup64 oldsz in
    let run =
      uvmalloc_from ((newsz - old + pgsize - 1) / pgsize) kend table old old newsz xperm s in
    if ltb newsz oldsz then ok (oldsz, s) else run

-- No flag makes this valid entry a leaf.
abbrev pub is_pointer : ℕ → Bool
is_pointer pte = not (is_set pte_r pte || (is_set pte_w pte || is_set pte_x pte))

-- The loop of `freewalk`, with `n` entries to go.
pub free_entries : (free_child : ℕ → M (Unit {0})) (n i table : ℕ) → M (Unit {0})
free_entries free_child zero i table s = ok (tt, s)
free_entries free_child (suc n) i table s =
    let pte = s.ptes table i in
    let next = free_entries free_child n (i + 1) table in
    let child : Result (Unit {0} × Vm) = elim (free_child (pte2pa pte) s) [
      | panic ↦ panic
      | ok (x, t) ↦ next (set_pte table i 0 t)
    ] in
    let skip = next s in
    if is_set pte_v pte && is_pointer pte then child else if is_set pte_v pte then panic else skip

-- `freewalk`, on fuel: the levels of page tables from this one on.
pub freewalk : (fuel kend table : ℕ) → M (Unit {0})
unfolding free_entries
freewalk zero kend table s = panic
freewalk (suc fuel) kend table s =
    (do free_entries (freewalk fuel kend) 512 0 table; give_page kend table) s

pub uvmfree : (kend table sz : ℕ) → M (Unit {0})
unfolding freewalk
uvmfree kend table sz s =
    let tables = freewalk 3 kend table in
    let all = (uvmunmap kend table 0 (pgroundup64 sz / pgsize) true >> tables) s in
    let none_mapped = tables s in if sz == 0 then none_mapped else all

-- The loop of `uvmcopy`, with `n` pages to go: 0, or -1.
pub uvmcopy_from : (n kend old new i : ℕ) → M ℕ
uvmcopy_from zero kend old new i s = ok (0, s)
uvmcopy_from (suc n) kend old new i s =
    let next = uvmcopy_from n kend old new (i + pgsize) in
    let err : M ℕ = (do uvmunmap kend new 0 (i / pgsize) true; (λ u. ok (minus_one, u))) in
    let copy : ℕ → M ℕ = (λ pte t.
      let (mem, u) = take_page t in
      let moved = move_bytes mem (pte2pa pte) pgsize u in
      let step : Result (ℕ × Vm) = elim (mappages new i pgsize mem (pte_flags pte) moved) [
        | panic ↦ panic
        | ok (r, v) ↦
            let fail = (give_page kend mem >> err) v in
            let more = next v in if r == 0 then more else fail
      ] in
      if mem == 0 then err u else step) in
    elim (walk false old i s) [
      | panic ↦ panic
      | ok (none, t) ↦ panic
      | ok (some (p, j), t) ↦
          let run = copy (t.ptes p j) t in if is_set pte_v (t.ptes p j) then run else panic
    ]

pub uvmcopy : (kend old new sz : ℕ) → M ℕ
unfolding uvmcopy_from
uvmcopy kend old new sz s = uvmcopy_from ((sz + pgsize - 1) / pgsize) kend old new 0 s

-- `*pte &= ~PTE_U`
pub uvmclear : (table va : ℕ) → M (Unit {0})
uvmclear table va s = elim (walk false table va s) [
  | panic ↦ panic
  | ok (none, t) ↦ panic
  | ok (some (p, i), t) ↦
      let pte = t.ptes p i in ok (tt, set_pte p i (if is_set pte_u pte then pte - pte_u else pte) t)
]
