-- ===== src/Proc/Signal.antt =====
-- The operations of proc.c that change the state of processes in place: `sleep`, `wakeup`, `kill`,
-- `setkilled`, `killed`, `yield`, `settickets`. Each is what happens under `p->lock`; `me` is the
-- slot of `myproc()`.
pub mod Wakeup
pub mod Kill
use pplottery.Prelude.{
  ℕ, ◌+◌, Bool, not, ◌&&◌, Option, none, some, [], ◌∷◌, ◌==◌, List, get_elem?, if◌then◌else◌,
  minus_one,
}
use pplottery.Proc.{
  Proc, Table, runnable, sleeping, Chan, no_chan, is_sleeping, same_chan, same_slot, modify,
}

-- The test of `wakeup`, and of its `p != myproc()`.
abbrev pub is_woken : Chan → Option ℕ → ℕ → Proc → Bool
is_woken chan me i p = not (same_slot (some i) me) && (is_sleeping p.state && same_chan p.chan chan)

wakeup_from : ℕ → Chan → Option ℕ → Table → Table
wakeup_from i chan me [] = []
wakeup_from i chan me (p ∷ ps) =
    (if is_woken chan me i p then record p { state = runnable } else p)
    ∷ wakeup_from (i + 1) chan me ps

-- `wakeup(chan)`, called by the process in slot `me` or by an interrupt with none.
pub wakeup : Chan → Option ℕ → Table → Table
unfolding wakeup_from
wakeup chan me t = wakeup_from 0 chan me t

-- `wakeup` of each channel.
pub wakeups : List Chan → Option ℕ → Table → Table
unfolding wakeup
wakeups [] me t = t
wakeups (c ∷ cs) me t = wakeups cs me (wakeup c me t)

-- `sleep` up to the switch to the scheduler, and what it does when it runs again.
pub sleep_on : Chan → ℕ → Table → Table
sleep_on chan me t = modify me (λ p. record p { chan = chan; state = sleeping }) t

sleep_done : ℕ → Table → Table
sleep_done me t = modify me (λ p. record p { chan = no_chan }) t

-- `yield` up to the switch.
yield : ℕ → Table → Table
yield me t = modify me (λ p. record p { state = runnable }) t

-- `kill`: its result, and the table.
unfoldable pub kill : ℕ → Table → ℕ × Table
kill pid [] = (minus_one, [])
kill pid (p ∷ ps) =
    let rest = kill pid ps in
    if p.pid == pid
    then (
      0,
      (if is_sleeping p.state
            then record p { killed = 1; state = runnable }
            else record p { killed = 1 })
          ∷ ps,
    )
    else (rest.0, p ∷ rest.1)

setkilled : ℕ → Table → Table
setkilled i t = modify i (λ p. record p { killed = 1 }) t

-- `killed`; `none` for a slot that is not there.
pub killed : ℕ → Table → Option ℕ
killed i t = elim (get_elem? t i) [ none ↦ none | some p ↦ some p.killed ]

unfoldable pub settickets : ℕ → ℕ → Table → Table
settickets n me t = modify me (λ p. record p { tickets = n }) t
