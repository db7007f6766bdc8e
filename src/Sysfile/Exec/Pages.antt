-- ===== src/Sysfile/Exec/Pages.antt =====
-- sysfile.c: the pages that sys_exec takes for the arguments.
use pplottery.Prelude.{
  ℕ, ◌+◌, ◌%◌, ◌^◌, ◌<◌, ◌≡◌, Bool, true, false, none, some, Option, List, [], ◌∷◌, ◌++◌, ◌==◌,
  if◌then◌else◌, Result, ok, panic, slt32, sext64,
}
use pplottery.Kalloc.{pgsize}
use pplottery.Kalloc.FreeList.{IsFree, contains}
use pplottery.Sysproc.{failure}
use pplottery.Syscall.{fetchstr}
use pplottery.Vm.{Vm, M, take_page}
use pplottery.Sysfile.Exec.{fetch_args, maxarg}
use pplottery.Sysfile.Exec.Freeing.{returned, Leads}

-- A run of the loop ends with pages that it has taken off the front of the free list, in order.
abbrev Takes : (kend : ℕ) (all : List ℕ) → Result ((Bool × List ℕ) × Vm) → Type 0
Takes kend all r =
    (b : Bool) × (argv : List ℕ) × (ys : List ℕ) × (t : Vm) × (r ≡ ok ((b, argv), t))
    × IsFree kend t.kmem ys
    × (argv ++ ys ≡ all)

module _ (kend : ℕ) (pos : 0 < kend) (table sz ip : ℕ) where
  -- The end of a round, from `kalloc` on.
  abbrev round_end : (n uargv uarg : ℕ) (argv : List ℕ) → M (Bool × List ℕ)
  round_end n uargv uarg argv t =
      let (page, u) = take_page t in
      let filled = argv ++ (page ∷ []) in
      let fetched : Result ((Bool × List ℕ) × Vm) = elim (fetchstr table uarg page pgsize u) [
        | panic ↦ panic
        | ok (r', v) ↦
            let more = fetch_args n table sz ip ((uargv + 8) % 2 ^ 64) filled v in
            if slt32 r' 0 then ok ((false, filled), v) else more
      ] in
      if page == 0 then ok ((false, argv), u) else fetched

-- What sys_exec comes to, from the free pages `xs`. It fails before `exec`, without a path or because
-- `fetch_args` fails, with the same free pages. Or `fetch_args` has taken pages off the front of the
-- free list: then a panic of `exec` is one of sys_exec, and otherwise it returns what `exec`
-- returns, and the free list begins with these pages, followed by what `exec` has left of it.
pub data Freed (kend table sz ip : ℕ) (exec : List ℕ → List ℕ → M ℕ) (path : Option (List ℕ))
    (uargv : ℕ) (xs : List ℕ) (s : Vm) : Result (ℕ × Vm) → Type 0 where
  no_path : path ≡ none → Freed kend table sz ip exec path uargv xs s (ok (failure, s))
  fetch_fails :
      {t u : Vm} (argv zs : List ℕ)
      → fetch_args maxarg table sz ip uargv [] s ≡ ok ((false, argv), t)
      → IsFree kend u.kmem zs
      → ((p : ℕ) → contains zs p ≡ contains xs p)
      → Freed kend table sz ip exec path uargv xs s (ok (failure, u))
  exec_panics :
      {p argv ys : List ℕ} {t : Vm}
      → path ≡ some p
      → fetch_args maxarg table sz ip uargv [] s ≡ ok ((true, argv), t)
      → IsFree kend t.kmem ys
      → argv ++ ys ≡ xs
      → exec p argv t ≡ panic
      → Freed kend table sz ip exec path uargv xs s panic
  execs :
      {p argv ys : List ℕ} {t u v : Vm} {r : ℕ}
      → path ≡ some p
      → fetch_args maxarg table sz ip uargv [] s ≡ ok ((true, argv), t)
      → IsFree kend t.kmem ys
      → argv ++ ys ≡ xs
      → exec p argv t ≡ ok (r, u)
      → Leads v.kmem.next v.kmem.freelist (returned argv []) u.kmem.freelist
      → Freed kend table sz ip exec path uargv xs s (ok (sext64 r, v))
