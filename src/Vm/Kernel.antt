-- ===== src/Vm/Kernel.antt =====
-- vm.c and proc.c: the page table of the kernel, and those of processes around their memory. `etext`
-- and `trampoline` are addresses that the linker sets.
use pplottery.Prelude.{ℕ, zero, suc, ◌+◌, ◌-◌, ◌*◌, false, ◌==◌, if◌then◌else◌, ok, panic, slt32}
use pplottery.Kalloc.{pgsize, phystop}
use pplottery.Vm.{
  M, ◌>>=◌, ◌>>◌, maxva, pte_r, pte_w, pte_x, clear_table, take_page, mappages, uvmunmap,
}
use pplottery.Vm.User.{uvmcreate, uvmfree}

abbrev pub uart0 : ℕ
uart0 = 0x1000_0000

abbrev pub virtio0 : ℕ
virtio0 = 0x1000_1000

abbrev pub plic : ℕ
plic = 0x0c00_0000

abbrev pub kernbase : ℕ
kernbase = 0x8000_0000

-- `TRAMPOLINE`, `TRAPFRAME`, `KSTACK`
abbrev pub trampoline_va : ℕ
trampoline_va = maxva - pgsize

abbrev pub trapframe_va : ℕ
trapframe_va = trampoline_va - pgsize

abbrev pub kstack : ℕ → ℕ
kstack p = trampoline_va - (p + 1) * 2 * pgsize

abbrev pub nproc : ℕ
nproc = 64

pub kvmmap : (table va pa sz perm : ℕ) → M (Unit {0})
kvmmap table va pa sz perm s = elim (mappages table va sz pa perm s) [
  | panic ↦ panic
  | ok (r, t) ↦ if r == 0 then ok (tt, t) else panic
]

-- `proc_mapstacks`, from process `p` on with `n` to go.
pub mapstacks_from : (n p table : ℕ) → M (Unit {0})
unfolding kvmmap
mapstacks_from zero p table s = ok (tt, s)
mapstacks_from (suc n) p table s =
    let (pa, t) = take_page s in
    let next = mapstacks_from n (p + 1) table in
    let run = (kvmmap table (kstack p) pa pgsize (pte_r + pte_w) >> next) t in
    if pa == 0 then panic else run

pub proc_mapstacks : (table : ℕ) → M (Unit {0})
unfolding mapstacks_from
proc_mapstacks table s = mapstacks_from nproc 0 table s

pub kvmmake : (etext trampoline : ℕ) → M ℕ
unfolding kvmmap proc_mapstacks
kvmmake etext trampoline s =
    let (table, t) = take_page s in
    (do
      kvmmap table uart0 uart0 pgsize (pte_r + pte_w)
      kvmmap table virtio0 virtio0 pgsize (pte_r + pte_w)
      kvmmap table plic plic 0x400_0000 (pte_r + pte_w)
      kvmmap table kernbase kernbase (etext - kernbase) (pte_r + pte_x)
      kvmmap table etext etext (phystop - etext) (pte_r + pte_w)
      kvmmap table trampoline_va trampoline pgsize (pte_r + pte_x)
      proc_mapstacks table
      (λ u. ok (table, u)))
      (clear_table table t)

-- The page table of a process with the trapframe at `trapframe`, or 0.
pub proc_pagetable : (kend trampoline trapframe : ℕ) → M ℕ
proc_pagetable kend trampoline trapframe s = elim (uvmcreate s) [
  | panic ↦ panic
  | ok (table, t) ↦
      let none_left : M ℕ = (do uvmfree kend table 0; (λ u. ok (0, u))) in
      let undo : M ℕ = (do uvmunmap kend table trampoline_va 1 false; none_left) in
      let second : M ℕ = (do
        r ← mappages table trapframe_va pgsize trapframe (pte_r + pte_w)
        (λ u. let fail = undo u in if slt32 r 0 then fail else ok (table, u))) in
      let run =
        (do
          r ← mappages table trampoline_va pgsize trampoline (pte_r + pte_x)
          (λ u. let fail = none_left u in let more = second u in if slt32 r 0 then fail else more))
          t in
      if table == 0 then ok (0, t) else run
]

pub proc_freepagetable : (kend table sz : ℕ) → M (Unit {0})
proc_freepagetable kend table sz = do
  uvmunmap kend table trampoline_va 1 false
  uvmunmap kend table trapframe_va 1 false
  uvmfree kend table sz
