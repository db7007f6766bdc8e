-- ===== src/Proc/Signal/Wakeup.antt =====
-- `wakeup` and `sleep`: exactly the sleepers on the channel wake, and no wakeup is lost.
use pplottery.Prelude.{
  ℕ, zero, suc, ◌+◌, ◌≡◌, ◌≢◌, refl, ap, ◌∙◌, ◌⊎◌, inl, inr, Bool-cases, true, Option, List, some,
  [], ◌∷◌, get_elem?, if◌then◌else◌, arith,
}
use mathlib.Core.Option
use pplottery.Proc.{Proc, Table, runnable, Chan, no_chan, of_proc, of_object, same_chan}
use pplottery.Proc.Slots.{get_elem?-modify}
use pplottery.Proc.Signal.{is_woken, wakeup, wakeups, wakeup_from, sleep_on}

-- What `wakeup` makes of the process in slot `i`.
abbrev pub woken : Chan → Option ℕ → ℕ → Proc → Proc
woken chan me i p = if is_woken chan me i p then record p { state = runnable } else p

get_elem?-wakeup_from :
    (t : Table) (k i j : ℕ) (chan : Chan) (me : Option ℕ)
    → k + i ≡ j
    → get_elem? (wakeup_from k chan me t) i ≡ Option.map (woken chan me j) (get_elem? t i)
unfolding wakeup_from
get_elem?-wakeup_from [] k i j chan me e = refl
get_elem?-wakeup_from (p ∷ ps) k zero j chan me e = let e' : k ≡ j = omega arith in rw e'
get_elem?-wakeup_from (p ∷ ps) k (suc i) j chan me e =
    get_elem?-wakeup_from ps (k + 1) i j chan me (omega arith)

-- `wakeup` sets the state of each process other than the caller that sleeps on the channel to
-- RUNNABLE, and changes nothing else of any slot.
pub get_elem?-wakeup :
    (t : Table) (i : ℕ) (chan : Chan) (me : Option ℕ)
    → get_elem? (wakeup chan me t) i ≡ Option.map (woken chan me i) (get_elem? t i)
unfolding wakeup
get_elem?-wakeup t i chan me = get_elem?-wakeup_from t 0 i i chan me (omega arith)

same_chan_refl : (c : Chan) → same_chan c c ≡ true
same_chan_refl no_chan = refl
same_chan_refl (of_proc i) = ground arith
same_chan_refl (of_object a) = ground arith

-- No wakeup is lost: if a process goes to sleep on a channel and another caller then wakes that
-- channel, the process is RUNNABLE, and still marked with the channel until it runs.
wakeup-sleep_on :
    (t : Table) (i : ℕ) (p : Proc) (chan : Chan) (me : Option ℕ)
    → get_elem? t i ≡ some p
    → me ≢ some i
    → get_elem? (wakeup chan me (sleep_on chan i t)) i
      ≡ some (record p { chan = chan; state = runnable })
unfolding sleep_on
wakeup-sleep_on t i p chan me got other =
    rw (get_elem?-wakeup, get_elem?-modify, got) (ground (arith, same_chan_refl chan))

-- What `wakeups` makes of the process in slot `i`.
abbrev pub stirred : List Chan → Option ℕ → ℕ → Proc → Proc
stirred [] me i p = p
stirred (c ∷ cs) me i p = stirred cs me i (woken c me i p)

pub get_elem?-wakeups :
    (cs : List Chan) (t : Table) (i : ℕ) (me : Option ℕ) {p : Proc}
    → get_elem? t i ≡ some p
    → get_elem? (wakeups cs me t) i ≡ some (stirred cs me i p)
unfolding wakeups
get_elem?-wakeups [] t i me e = e
get_elem?-wakeups (c ∷ cs) t i me e =
    get_elem?-wakeups cs (wakeup c me t) i me (rw (get_elem?-wakeup, e) refl)

-- The caller is not woken.
pub stirred_self : (cs : List Chan) (i : ℕ) (p : Proc) → stirred cs (some i) i p ≡ p
stirred_self [] i p = refl
stirred_self (c ∷ cs) i p =
    let same : woken c (some i) i p ≡ p = ground arith in
    ap (stirred cs (some i) i) same ∙ stirred_self cs i p

-- A process stays as it is or becomes RUNNABLE.
pub stirred-cases :
    (cs : List Chan) (me : Option ℕ) (i : ℕ) (p : Proc)
    → (stirred cs me i p ≡ p) ⊎ (stirred cs me i p ≡ record p { state = runnable })
stirred-cases [] me i p = inl refl
stirred-cases (c ∷ cs) me i p = elim (Bool-cases (is_woken c me i p)) [
  | inr off ↦ rw off (stirred-cases cs me i p)
  | inl on ↦ rw on (elim (stirred-cases cs me i (record p { state = runnable })) [
    | inl same ↦ inr same
    | inr same ↦ inr same
  ])
]
