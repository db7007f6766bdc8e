-- ===== src/Syscall/Tests.antt =====
-- The theorems on the arguments of system calls at a process with one page, which holds a pointer to
-- a string.
use pplottery.Prelude.{
  ℕ, ◌+◌, ◌<◌, ◌≤◌, ◌≡◌, List, ◌==◌, if◌then◌else◌, ok, arith, minus_one, ◌%◌, ◌^◌, ◌-◌, ◌≢◌,
}
use pplottery.Vm.{Vm, M, take_page, pa2pte, leaf}
use pplottery.Vm.Copy.{copyin}
use pplottery.Syscall.Numbers.{called, outcome, syscall-number}
use pplottery.Syscall.{Name, number, syscall, fetchaddr, fetchstr}
use pplottery.Syscall.Strings.{Fetched, fetchstr-Fetched, fetchaddr-bounds}

abbrev a_page : ℕ
a_page = 0x8000_8000

abbrev small_machine : Vm
small_machine = record {
  kmem = record {
    freelist = a_page;
    next = (λ p. 0);
    mem = (λ b. if b == 16392 then 64 else if b == 16448 then b'a' else 0);
  };
  ptes = (λ p i.
      if i == 0
      then (if p == 4096
          then pa2pte 8192 + 1
          else if p == 8192
          then pa2pte 12288 + 1
          else leaf 16384 31)
      else 0);
}

fetchstr-Fetched_example :
    (r : ℕ) × (t : Vm) × (fetchstr 4096 64 20480 128 small_machine ≡ ok (r, t))
    × Fetched 20480 128 small_machine r t
fetchstr-Fetched_example = fetchstr-Fetched 4096 64 20480 128 small_machine

fetchaddr-bounds_example :
    (4096 < 8 + 8 → fetchaddr 4096 4096 8 20480 small_machine ≡ ok (minus_one, small_machine))
    × (8 + 8 ≤ 4096
        → (r : ℕ) × (t : Vm) × (copyin 4096 20480 8 8 small_machine ≡ ok (r, t))
          × (fetchaddr 4096 4096 8 20480 small_machine ≡ ok (if r == 0 then 0 else minus_one, t)))
fetchaddr-bounds_example =
    fetchaddr-bounds 4096 4096 8 20480 small_machine (omega arith) (omega arith)

syscall-number_example :
    ((name : Name)
      → 23 % 2 ^ 32 ≡ number name
      → syscall (λ d t. ok (7, t)) 23 small_machine
        ≡ outcome (λ d t. ok (7, t)) (called name) small_machine)
    × (((name : Name) → 23 % 2 ^ 32 ≢ number name)
        → syscall (λ d t. ok (7, t)) 23 small_machine ≡ ok (2 ^ 64 - 1, small_machine))
syscall-number_example = syscall-number (λ d t. ok (7, t)) 23 small_machine

-- An `exec` that takes a page and fails without one.
abbrev paged_exec : List ℕ → List ℕ → M ℕ
paged_exec path argv s = let (page, t) = take_page s in ok ((if page == 0 then minus_one else 1), t)
