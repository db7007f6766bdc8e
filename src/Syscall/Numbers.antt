-- ===== src/Syscall/Numbers.antt =====
-- syscall.c: the table of functions against the numbers of syscall.h.
use pplottery.Prelude.{
  ℕ, zero, suc, ◌+◌, ◌-◌, ◌%◌, ◌^◌, ◌<◌, ◌≡◌, ◌≢◌, refl, sym, ap, ◌∙◌, inl, inr, Bool, true, false,
  ◌&&◌, Option, none, some, List, [], ◌∷◌, ◌==◌, ltb, Result, ok, arith, get_or, slt32, Bool-cases,
  Option-cases, some_inj,
}
use pplottery.Syscall.{
  call_fork, call_exit, call_wait, call_pipe, call_read, call_kill, call_exec, call_fstat,
  call_chdir, call_dup, call_getpid, call_sbrk, call_sleep, call_uptime, call_open, call_write,
  call_mknod, call_unlink, call_link, call_mkdir, call_close, call_settickets, call_setsched, Call,
  Name, of_call, thread, jointhread, number, syscalls, syscall,
}

-- Each place from `i` on that is not left out holds the function of its number.
abbrev numbered : ℕ → List (Option Call) → Bool
numbered i [] = true
numbered i (none ∷ l) = numbered (i + 1) l
numbered i (some c ∷ l) = (number (of_call c) == i) && numbered (i + 1) l

numbered-number :
    (i k : ℕ) (l : List (Option Call)) (c : Call)
    → numbered i l ≡ true
    → get_or l k none ≡ some c
    → number (of_call c) ≡ i + k
numbered-number i k [] c all e = cc
numbered-number i zero (none ∷ l) c all e = cc
numbered-number i zero (some d ∷ l) c all e =
    ap (λ x. number (of_call x)) (sym (some_inj e)) ∙ ground (arith, all)
numbered-number i (suc k) (none ∷ l) c all e = omega (arith, numbered-number (i + 1) k l c all e)
numbered-number i (suc k) (some d ∷ l) c all e =
    omega (arith, numbered-number (i + 1) k l c (ground (arith, all)) e)

syscalls-numbered : numbered 0 syscalls ≡ true
unfolding number
syscalls-numbered = refl

listed :
    (c : Call)
    → (get_or syscalls (number (of_call c)) none ≡ some c)
      × (0 < number (of_call c))
      × (number (of_call c) < 24)
unfolding number
listed call_fork = (refl, omega arith, omega arith)
listed call_exit = (refl, omega arith, omega arith)
listed call_wait = (refl, omega arith, omega arith)
listed call_pipe = (refl, omega arith, omega arith)
listed call_read = (refl, omega arith, omega arith)
listed call_kill = (refl, omega arith, omega arith)
listed call_exec = (refl, omega arith, omega arith)
listed call_fstat = (refl, omega arith, omega arith)
listed call_chdir = (refl, omega arith, omega arith)
listed call_dup = (refl, omega arith, omega arith)
listed call_getpid = (refl, omega arith, omega arith)
listed call_sbrk = (refl, omega arith, omega arith)
listed call_sleep = (refl, omega arith, omega arith)
listed call_uptime = (refl, omega arith, omega arith)
listed call_open = (refl, omega arith, omega arith)
listed call_write = (refl, omega arith, omega arith)
listed call_mknod = (refl, omega arith, omega arith)
listed call_unlink = (refl, omega arith, omega arith)
listed call_link = (refl, omega arith, omega arith)
listed call_mkdir = (refl, omega arith, omega arith)
listed call_close = (refl, omega arith, omega arith)
listed call_settickets = (refl, omega arith, omega arith)
listed call_setsched = (refl, omega arith, omega arith)

-- The call of each name of syscall.h: that of the function of that name, but SYS_thread has the number
-- of SYS_setsched, and SYS_jointhread has no function.
abbrev pub called : Name → Option Call
called (of_call c) = some c
called thread = some call_setsched
called jointhread = none

numbered_call :
    (c : Call) (a7 : ℕ)
    → a7 % 2 ^ 32 ≡ number (of_call c)
    → (get_or syscalls (a7 % 2 ^ 32) none ≡ some c)
      × ((slt32 0 (a7 % 2 ^ 32) && ltb (a7 % 2 ^ 32) 24) ≡ true)
numbered_call c a7 e =
    let (here, above, below) = listed c in (rw e here, ground (arith, e, above, below))

-- What `syscall` comes to: it runs the function, or runs none, and then it gives -1 and nothing
-- changes.
abbrev pub outcome :
    {S : Type 0} (run : Call → S → Result (ℕ × S)) → Option Call → S → Result (ℕ × S)
outcome run none s = ok (2 ^ 64 - 1, s)
outcome run (some c) s = run c s

syscall-call :
    {S : Type 0} (run : Call → S → Result (ℕ × S)) (c : Call) (a7 : ℕ) (s : S)
    → a7 % 2 ^ 32 ≡ number (of_call c)
    → syscall run a7 s ≡ run c s
unfolding syscall
syscall-call run c a7 s e =
    let (found, in_range) = numbered_call c a7 e in rw (syscall, in_range, found) refl

syscall-name :
    {S : Type 0} (run : Call → S → Result (ℕ × S)) (name : Name) (a7 : ℕ) (s : S)
    → a7 % 2 ^ 32 ≡ number name
    → syscall run a7 s ≡ outcome run (called name) s
unfolding syscall number
syscall-name run (of_call c) a7 s e = syscall-call run c a7 s e
syscall-name run thread a7 s e = syscall-call run call_setsched a7 s e
syscall-name run jointhread a7 s e =
    let out : (slt32 0 (a7 % 2 ^ 32) && ltb (a7 % 2 ^ 32) 24) ≡ false = ground (arith, e) in
    rw (syscall, out) refl

-- `syscall` with the number that syscall.h gives to a name runs the function of that name, except for
-- two names: SYS_thread has the same number as SYS_setsched, and runs sys_setsched; SYS_jointhread
-- has no function. With the number of SYS_jointhread or one that syscall.h does not give, also one
-- that is negative as an `int`, none is run: the result is -1 and nothing changes. Only the low
-- 32 bits of the register count.
pub syscall-number :
    {S : Type 0} (run : Call → S → Result (ℕ × S)) (a7 : ℕ) (s : S)
    → ((name : Name) → a7 % 2 ^ 32 ≡ number name → syscall run a7 s ≡ outcome run (called name) s)
      × (((name : Name) → a7 % 2 ^ 32 ≢ number name) → syscall run a7 s ≡ ok (2 ^ 64 - 1, s))
unfolding syscall
syscall-number run a7 s = (
  (λ name e. syscall-name run name a7 s e),
  (λ no. elim (Bool-cases (slt32 0 (a7 % 2 ^ 32) && ltb (a7 % 2 ^ 32) 24)) [
    | inr out ↦ rw (syscall, out) refl
    | inl in_range ↦ elim (Option-cases (get_or syscalls (a7 % 2 ^ 32) none)) [
      | inl empty ↦ rw (syscall, in_range, empty) refl
      | inr (c, found) ↦ absurd (
          no (of_call c)
            (omega (arith, numbered-number 0 (a7 % 2 ^ 32) syscalls c syscalls-numbered found)))
    ]
  ]),
)
