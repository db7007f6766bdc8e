-- ===== src/Sysfile/Exec.antt =====
-- sysfile.c: sys_exec, on the memory of Vm. `exec` of exec.c is an argument; `ip` is the address of
-- `uarg`, a local variable of the kernel.
mod Freeing
pub mod Pages
use pplottery.Prelude.{
  ℕ, zero, suc, ◌+◌, ◌*◌, ◌%◌, ◌^◌, Bool, true, false, Option, none, some, List, [], ◌∷◌, ◌++◌,
  ◌==◌, if◌then◌else◌, Result, ok, panic, slt32, sext64,
}
use pplottery.Kalloc.{pgsize}
use pplottery.Str.{Memory}
use pplottery.Sysproc.{failure}
use pplottery.Syscall.{fetchaddr, fetchstr}
use pplottery.Vm.{Vm, M, take_page, give_page}

abbrev pub maxarg : ℕ
maxarg = 32

-- The `uint64` in the `n` bytes at `p`.
pub load_bytes : (n p : ℕ) → Memory → ℕ
load_bytes zero p m = 0
load_bytes (suc n) p m = m p + 256 * load_bytes n (p + 1) m

-- The loop of sys_exec with `n` places of `argv` to go, those before it filled with `argv`: whether
-- it came to the null, and the pages that it has allocated.
pub fetch_args : (n table sz ip uargv : ℕ) (argv : List ℕ) → M (Bool × List ℕ)
unfolding load_bytes
fetch_args zero table sz ip uargv argv s = ok ((false, argv), s)
fetch_args (suc n) table sz ip uargv argv s =
    let next : List ℕ → M (Bool × List ℕ) = fetch_args n table sz ip ((uargv + 8) % 2 ^ 64) in
    elim (fetchaddr table sz uargv ip s) [
      | panic ↦ panic
      | ok (r, t) ↦
          let uarg = load_bytes 8 ip t.kmem.mem in
          let (page, u) = take_page t in
          let filled = argv ++ (page ∷ []) in
          let fetched : Result ((Bool × List ℕ) × Vm) = elim (fetchstr table uarg page pgsize u) [
            | panic ↦ panic
            | ok (r', v) ↦
                let more = next filled v in if slt32 r' 0 then ok ((false, filled), v) else more
          ] in
          if slt32 r 0
          then ok ((false, argv), t)
          else if uarg == 0
          then ok ((true, argv), t)
          else if page == 0
          then ok ((false, argv), u)
          else fetched
    ]

-- `for(i = 0; i < NELEM(argv) && argv[i] != 0; i++) kfree(argv[i]);`
pub free_args : (kend : ℕ) → List ℕ → M (Unit {0})
free_args kend [] s = ok (tt, s)
free_args kend (p ∷ ps) s =
    let next = free_args kend ps in elim (give_page kend p s) [ panic ↦ panic | ok (x, t) ↦ next t ]

-- `exec` returns an `int`.
pub sys_exec :
    (kend table sz ip : ℕ) (exec : List ℕ → List ℕ → M ℕ) (path : Option (List ℕ)) (uargv : ℕ) → M ℕ
unfolding fetch_args free_args
sys_exec kend table sz ip exec none uargv s = ok (failure, s)
sys_exec kend table sz ip exec (some path) uargv s =
    elim (fetch_args maxarg table sz ip uargv [] s) [
      | panic ↦ panic
      | ok ((false, argv), t) ↦ elim (free_args kend argv t) [
        | panic ↦ panic
        | ok (x, u) ↦ ok (failure, u)
      ]
      | ok ((true, argv), t) ↦ elim (exec path argv t) [
        | panic ↦ panic
        | ok (r, u) ↦ elim (free_args kend argv u) [ panic ↦ panic | ok (x, v) ↦ ok (sext64 r, v) ]
      ]
    ]
