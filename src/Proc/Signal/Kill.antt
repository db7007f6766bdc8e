-- ===== src/Proc/Signal/Kill.antt =====
-- `kill`: which process it marks.
use pplottery.Prelude.{
  ℕ, suc, ◌≡◌, refl, Option, none, some, [], ◌∷◌, ◌==◌, if◌then◌else◌, arith, minus_one,
}
use mathlib.Core.Option
use pplottery.Proc.{Proc, Table, runnable, is_sleeping, modify}
use pplottery.Proc.Signal.{kill}

-- The first slot that holds the pid.
abbrev pub find_pid : ℕ → Table → Option ℕ
find_pid pid [] = none
find_pid pid (p ∷ ps) = if p.pid == pid then some 0 else Option.map suc (find_pid pid ps)

-- A killed process: marked, and out of its sleep.
abbrev victim : Proc → Proc
victim p = record p { killed = 1; state = if is_sleeping p.state then runnable else p.state }

abbrev pub kill_result : Option ℕ → Table → ℕ × Table
kill_result none t = (minus_one, t)
kill_result (some i) t = (0, modify i victim t)

-- `kill` marks the process in the first slot that holds the pid, wakes it if it sleeps, and returns
-- 0; where no slot holds the pid it returns -1 and changes nothing.
kill-find_pid : (pid : ℕ) (t : Table) → kill pid t ≡ kill_result (find_pid pid t) t
unfolding kill
kill-find_pid pid [] = refl
kill-find_pid pid (p ∷ ps) = ground (arith, kill-find_pid pid ps)
