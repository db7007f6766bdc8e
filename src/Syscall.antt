-- ===== src/Syscall.antt =====
-- syscall.c: the arguments of system calls, on the memory of Vm. `table` and `sz` are the page table
-- and the size of the process; a buffer is its address in the kernel.
pub mod Strings
pub mod Numbers
mod Tests
use pplottery.Prelude.{
  ◌∷◌, [], ℕ, zero, suc, ◌+◌, ◌-◌, ◌%◌, ◌^◌, ◌&&◌, ◌||◌, Option, none, some, List, ◌==◌, leb, ltb,
  if◌then◌else◌, Result, ok, panic, get_elem?, get_or, minus_one, slt32,
}
use pplottery.Str.{Memory}
use pplottery.Vm.{Vm, M}
use pplottery.Vm.Copy.{copyin, copyinstr}

pub fetchaddr : (table sz addr ip : ℕ) → M ℕ
fetchaddr table sz addr ip s =
    let copied : Result (ℕ × Vm) = elim (copyin table ip addr 8 s) [
      | panic ↦ panic
      | ok (r, t) ↦ ok (if r == 0 then 0 else minus_one, t)
    ] in
    if leb sz addr || ltb sz ((addr + 8) % 2 ^ 64) then ok (minus_one, s) else copied

-- `strlen` of the string at `p`, on fuel.
pub strlen_at : (fuel p : ℕ) → Memory → Option ℕ
strlen_at zero p m = none
strlen_at (suc fuel) p m =
    let rest : Option ℕ = elim (strlen_at fuel (p + 1) m) [ none ↦ none | some n ↦ some (suc n) ] in
    if m p == 0 then some 0 else rest

-- A string that `copyinstr` has copied ends before `max` bytes.
pub fetchstr : (table addr buf max : ℕ) → M ℕ
unfolding strlen_at
fetchstr table addr buf max s = elim (copyinstr table buf addr max s) [
  | panic ↦ panic
  | ok (r, t) ↦
      let len : Result (ℕ × Vm) = elim (strlen_at max buf t.kmem.mem) [
        | none ↦ panic
        | some n ↦ ok (n, t)
      ] in
      if slt32 r 0 then ok (minus_one, t) else len
]

-- `trapframe` is the registers from `a0` to `a5`.
pub argraw : (n : ℕ) (trapframe : List ℕ) → Result ℕ
argraw n trapframe = elim (get_elem? trapframe n) [ none ↦ panic | some a ↦ ok a ]

pub argint : (n : ℕ) (trapframe : List ℕ) → Result ℕ
unfolding argraw
argint n trapframe = elim (argraw n trapframe) [ panic ↦ panic | ok a ↦ ok (a % 2 ^ 32) ]

pub argaddr : (n : ℕ) (trapframe : List ℕ) → Result ℕ
unfolding argraw
argaddr n trapframe = argraw n trapframe

pub argstr : (n : ℕ) (trapframe : List ℕ) (table buf max : ℕ) → M ℕ
unfolding argaddr fetchstr
argstr n trapframe table buf max s = elim (argaddr n trapframe) [
  | panic ↦ panic
  | ok addr ↦ fetchstr table addr buf max s
]

-- The functions of the table.
pub data Call : Type 0 where
  call_fork call_exit call_wait call_pipe call_read call_kill call_exec call_fstat call_chdir
        call_dup call_getpid call_sbrk call_sleep call_uptime call_open call_write call_mknod
        call_unlink call_link call_mkdir call_close call_settickets call_setsched :
      Call

-- The names of syscall.h: SYS_fork and so on, each of a function of the table, and SYS_thread and
-- SYS_jointhread, which are of none.
pub data Name : Type 0 where
  of_call : Call → Name
  thread jointhread : Name

-- The numbers of syscall.h. SYS_setsched has the number of SYS_thread.
pub number : Name → ℕ
number (of_call call_fork) = 1
number (of_call call_exit) = 2
number (of_call call_wait) = 3
number (of_call call_pipe) = 4
number (of_call call_read) = 5
number (of_call call_kill) = 6
number (of_call call_exec) = 7
number (of_call call_fstat) = 8
number (of_call call_chdir) = 9
number (of_call call_dup) = 10
number (of_call call_getpid) = 11
number (of_call call_sbrk) = 12
number (of_call call_sleep) = 13
number (of_call call_uptime) = 14
number (of_call call_open) = 15
number (of_call call_write) = 16
number (of_call call_mknod) = 17
number (of_call call_unlink) = 18
number (of_call call_link) = 19
number (of_call call_mkdir) = 20
number (of_call call_close) = 21
number (of_call call_settickets) = 22
number thread = 23
number jointhread = 24
number (of_call call_setsched) = 23

-- `syscalls`, of which the first place is left out.
abbrev pub syscalls : List (Option Call)
syscalls =
    none
    ∷ some call_fork
    ∷ some call_exit
    ∷ some call_wait
    ∷ some call_pipe
    ∷ some call_read
    ∷ some call_kill
    ∷ some call_exec
    ∷ some call_fstat
    ∷ some call_chdir
    ∷ some call_dup
    ∷ some call_getpid
    ∷ some call_sbrk
    ∷ some call_sleep
    ∷ some call_uptime
    ∷ some call_open
    ∷ some call_write
    ∷ some call_mknod
    ∷ some call_unlink
    ∷ some call_link
    ∷ some call_mkdir
    ∷ some call_close
    ∷ some call_settickets
    ∷ some call_setsched
    ∷ []

-- `syscall`: the value for `a0`, from the number in `a7`, which becomes an `int`; `run` calls a
-- function.
pub syscall : {S : Type 0} (run : Call → S → Result (ℕ × S)) (a7 : ℕ) → S → Result (ℕ × S)
syscall {S} run a7 s =
    let num = a7 % 2 ^ 32 in
    let unknown : Result (ℕ × S) = ok (2 ^ 64 - 1, s) in
    let called : Result (ℕ × S) = elim (get_or syscalls num none) [
      | none ↦ unknown
      | some call ↦ run call s
    ] in
    if slt32 0 num && ltb num 24 then called else unknown
