-- ===== src/Vm/Copy.antt =====
-- vm.c: copies between the kernel and the memory of a process, from `copyout` on. The other
-- addresses are those of the kernel, which maps the memory to itself. The results are 0 and -1.
pub mod Strings
use pplottery.Prelude.{
  ℕ, zero, suc, ◌+◌, ◌-◌, ◌*◌, ◌/◌, Bool, true, false, not, ◌||◌, none, some, ◌==◌, leb, min,
  if◌then◌else◌, Result, ok, panic, minus_one,
}
use pplottery.Kalloc.{pgsize}
use pplottery.Str.{Memory, store}
use pplottery.Vm.{Vm, M, maxva, pte_v, pte_w, pte_u, is_set, pte2pa, walk, walkaddr}
use pplottery.Vm.User.{move_bytes}

-- `PGROUNDDOWN`
abbrev pub pgrounddown : ℕ → ℕ
pgrounddown a = a / pgsize * pgsize

-- `n = PGSIZE - (dstva - va0)`, cut to `len`.
abbrev pub part : (va len : ℕ) → ℕ
part va len = min (pgsize - (va - pgrounddown va)) len

-- The loop of `copyout`, on fuel.
pub copyout_from : (fuel table dstva src len : ℕ) → M ℕ
copyout_from zero table dstva src len s = ok (0, s)
copyout_from (suc fuel) table dstva src len s =
    let va0 = pgrounddown dstva in
    let n = part dstva len in
    let next = copyout_from fuel table (va0 + pgsize) (src + n) (len - n) in
    let step : Result (ℕ × Vm) = elim (walk false table va0 s) [
      | panic ↦ panic
      | ok (none, t) ↦ ok (minus_one, t)
      | ok (some (p, i), t) ↦
          let pte = t.ptes p i in
          let more = next (move_bytes (pte2pa pte + (dstva - va0)) src n t) in
          if not (is_set pte_v pte) || (not (is_set pte_u pte) || not (is_set pte_w pte))
          then ok (minus_one, t)
          else more
    ] in
    if len == 0 then ok (0, s) else if leb maxva va0 then ok (minus_one, s) else step

-- Each round moves a byte at least.
pub copyout : (table dstva src len : ℕ) → M ℕ
unfolding copyout_from
copyout table dstva src len s = copyout_from len table dstva src len s

-- The loop of `copyin`, on fuel.
pub copyin_from : (fuel table dst srcva len : ℕ) → M ℕ
copyin_from zero table dst srcva len s = ok (0, s)
copyin_from (suc fuel) table dst srcva len s =
    let va0 = pgrounddown srcva in
    let n = part srcva len in
    let next = copyin_from fuel table (dst + n) (va0 + pgsize) (len - n) in
    let step : Result (ℕ × Vm) = elim (walkaddr table va0 s) [
      | panic ↦ panic
      | ok (pa0, t) ↦
          let more = next (move_bytes dst (pa0 + (srcva - va0)) n t) in
          if pa0 == 0 then ok (minus_one, t) else more
    ] in
    if len == 0 then ok (0, s) else step

pub copyin : (table dst srcva len : ℕ) → M ℕ
unfolding copyin_from
copyin table dst srcva len s = copyin_from len table dst srcva len s

-- The inner loop of `copyinstr`: whether it met a NUL, and `max`, `dst` and the memory after it.
pub copy_chars : (n p dst max : ℕ) → Memory → Bool × ℕ × ℕ × Memory
copy_chars zero p dst max m = (false, max, dst, m)
copy_chars (suc n) p dst max m =
    let more = copy_chars n (p + 1) (dst + 1) (max - 1) (store dst (m p) m) in
    if m p == 0 then (true, max, dst, store dst 0 m) else more

-- The outer loop, on fuel.
pub copyinstr_from : (fuel table dst srcva max : ℕ) → M ℕ
unfolding copy_chars
copyinstr_from zero table dst srcva max s = ok (minus_one, s)
copyinstr_from (suc fuel) table dst srcva max s =
    let va0 = pgrounddown srcva in
    let next = copyinstr_from fuel table in
    let step : Result (ℕ × Vm) = elim (walkaddr table va0 s) [
      | panic ↦ panic
      | ok (pa0, t) ↦
          let (got_null, max', dst', m) =
            copy_chars (part srcva max) (pa0 + (srcva - va0)) dst max t.kmem.mem in
          let u = record t { kmem = record (t.kmem) { mem = m } } in
          let more = next dst' (va0 + pgsize) max' u in
          if pa0 == 0 then ok (minus_one, t) else if got_null then ok (0, u) else more
    ] in
    if max == 0 then ok (minus_one, s) else step

pub copyinstr : (table dst srcva max : ℕ) → M ℕ
unfolding copyinstr_from
copyinstr table dst srcva max s = copyinstr_from max table dst srcva max s
