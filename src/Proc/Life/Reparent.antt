-- ===== src/Proc/Life/Reparent.antt =====
-- `reparent` and `exit`: what becomes of the children.
use pplottery.Prelude.{
  ℕ, zero, suc, ◌+◌, ◌≡◌, ◌≢◌, ◌<◌, ◌≤◌, refl, ap, ◌∙◌, Bool, true, false, Option, none, some, [],
  ◌∷◌, get_elem?, lt-length_of_get_elem?, length, if◌then◌else◌, arith, Bool-cases, Option-cases,
  inl, inr, ℕ_discrete, ◌&&◌, ◌||◌, leb, ltb,
}
use mathlib.Core.Option
use pplottery.Proc.{Proc, Table, same_slot, of_proc, runnable}
use pplottery.Proc.Signal.{is_woken}
use pplottery.Proc.Slots.{get_elem?-modify, get_elem?-modify_ne}
use pplottery.Proc.Signal.Wakeup.{woken, get_elem?-wakeup}
use pplottery.Proc.Life.{reparent, reparent_from, adopt_and_wake}

-- Slot `i` holds a child of `me`; so does one of the `n` slots from slot `i` on.
abbrev pub is_child : ℕ → Option Proc → Bool
is_child me none = false
is_child me (some p) = same_slot p.parent (some me)

abbrev pub any_child : (n i me : ℕ) → Table → Bool
any_child zero i me t = false
any_child (suc n) i me t = is_child me (get_elem? t i) || any_child n (i + 1) me t

abbrev pub adopted : (me init : ℕ) → Option ℕ → Option ℕ
adopted me init q = if same_slot q (some me) then some init else q

-- What the loop makes of slot `j`: a new parent if it holds a child, and a wakeup if `any` child
-- was found and the slot sleeps on the channel of `init`.
abbrev pub after : (any here : Bool) → (me init j : ℕ) → Proc → Proc
after any here me init j p = record p {
  parent = if here then adopted me init p.parent else p.parent;
  state = if any && is_woken (of_proc init) (some me) j p then runnable else p.state;
}

get_elem?-none_above : (t : Table) (i j : ℕ) → get_elem? t i ≡ none → i ≤ j → get_elem? t j ≡ none
get_elem?-none_above [] i j e le = refl
get_elem?-none_above (p ∷ ps) zero j e le = cc
get_elem?-none_above (p ∷ ps) (suc i) zero e le = absurd (omega arith)
get_elem?-none_above (p ∷ ps) (suc i) (suc j) e le = get_elem?-none_above ps i j e (omega arith)

pub any_child-none : (n i me : ℕ) (t : Table) → get_elem? t i ≡ none → any_child n i me t ≡ false
any_child-none zero i me t e = refl
any_child-none (suc n) i me t e =
    rw e (any_child-none n (i + 1) me t (get_elem?-none_above t i (i + 1) e (omega arith)))

get_elem?-adopt_ne :
    (t : Table) (i j me init : ℕ) (p : Proc)
    → i ≢ j
    → get_elem? t j ≡ some p
    → get_elem? (adopt_and_wake i me init t) j ≡ some (woken (of_proc init) (some me) j p)
unfolding adopt_and_wake
get_elem?-adopt_ne t i j me init p ne e = rw (get_elem?-wakeup, get_elem?-modify_ne t i j _ ne, e)

get_elem?-adopt_self :
    (t : Table) (i me init : ℕ) (p : Proc)
    → get_elem? t i ≡ some p
    → get_elem? (adopt_and_wake i me init t) i
      ≡ some (woken (of_proc init) (some me) i (record p { parent = some init }))
unfolding adopt_and_wake
get_elem?-adopt_self t i me init p e = rw (get_elem?-wakeup, get_elem?-modify, e)

get_elem?-adopt_none :
    (t : Table) (i j me init : ℕ)
    → get_elem? t j ≡ none
    → get_elem? (adopt_and_wake i me init t) j ≡ none
unfolding adopt_and_wake
get_elem?-adopt_none t i j me init e = elim (ℕ_discrete i j) [
  | yes same ↦ rw (get_elem?-wakeup, same, get_elem?-modify, e)
  | no ne ↦ rw (get_elem?-wakeup, get_elem?-modify_ne t i j _ ne, e)
]

is_child-adopt :
    (t : Table) (i j me init : ℕ)
    → i ≢ j
    → is_child me (get_elem? (adopt_and_wake i me init t) j) ≡ is_child me (get_elem? t j)
is_child-adopt t i j me init ne = elim (Option-cases (get_elem? t j)) [
  | inl e ↦ rw (get_elem?-adopt_none t i j me init e, e)
  | inr (p, e) ↦ rw (get_elem?-adopt_ne t i j me init p ne e, e) (ground arith)
]

any_child-adopt :
    (n k : ℕ) (t : Table) (i me init : ℕ)
    → i < k
    → any_child n k me (adopt_and_wake i me init t) ≡ any_child n k me t
any_child-adopt zero k t i me init lt = refl
any_child-adopt (suc n) k t i me init lt = rw (
  is_child-adopt t i k me init (omega arith),
  any_child-adopt n (k + 1) t i me init (omega arith),
)

abbrev in_range : (n i j : ℕ) → Bool
in_range n i j = leb i j && ltb j (i + n)

in_range_length :
    (t : Table) (j : ℕ) (p : Proc) → get_elem? t j ≡ some p → in_range (length t) 0 j ≡ true
in_range_length t j p e = ground (arith, lt-length_of_get_elem? t j e)

module _ (me init : ℕ) where
  -- One turn at slot `i`, which holds a child, and then the other slots.
  after_turn :
      (n i j : ℕ) (t : Table) (p : Proc) (any : Bool)
      → get_elem? t i ≡ some p
      → same_slot p.parent (some me) ≡ true
      → Option.map
          (after any (in_range n (i + 1) j) me init j)
          (get_elem? (adopt_and_wake i me init t) j)
        ≡ Option.map (after true (in_range (suc n) i j) me init j) (get_elem? t j)
  after_turn n i j t p any e child = elim (ℕ_discrete i j) [
    | yes same ↦ rw (← same, get_elem?-adopt_self t i me init p e, e) (ground arith)
    | no ne ↦ elim (Option-cases (get_elem? t j)) [
      | inl out ↦ rw (get_elem?-adopt_none t i j me init out, out)
      | inr (q, at) ↦ rw (get_elem?-adopt_ne t i j me init q ne at, at) (ground arith)
    ]
  ]

  -- A turn at a slot that holds no child changes nothing.
  after_skip :
      (n i j : ℕ) (t : Table) (p : Proc) (any : Bool)
      → get_elem? t i ≡ some p
      → same_slot p.parent (some me) ≡ false
      → Option.map (after any (in_range n (i + 1) j) me init j) (get_elem? t j)
        ≡ Option.map (after any (in_range (suc n) i j) me init j) (get_elem? t j)
  after_skip n i j t p any e other = elim (ℕ_discrete i j) [
    | yes same ↦ rw (← same, e) (ground arith)
    | no ne ↦ elim (Option-cases (get_elem? t j)) [
      | inl out ↦ rw out
      | inr (q, at) ↦ rw at (ground arith)
    ]
  ]

  -- The loop stops where the table ends.
  after_end :
      (n i j : ℕ) (t : Table)
      → get_elem? t i ≡ none
      → get_elem? t j ≡ Option.map (after false (in_range n i j) me init j) (get_elem? t j)
  after_end n i j t e = elim (Option-cases (get_elem? t j)) [
    | inl out ↦ rw out
    | inr (q, at) ↦ elim (Bool-cases (in_range n i j)) [
      | inl inside ↦ absurd (ground (arith, get_elem?-none_above t i j e))
      | inr outside ↦ rw (at, outside)
    ]
  ]

  reparent_from-after :
      (n i j : ℕ) (t : Table)
      → get_elem? (reparent_from n i me init t) j
        ≡ Option.map (after (any_child n i me t) (in_range n i j) me init j) (get_elem? t j)
  unfolding reparent_from
  reparent_from-after zero i j t = elim (Option-cases (get_elem? t j)) [
    | inl out ↦ rw out
    | inr (q, at) ↦ rw at (ground arith)
  ]
  reparent_from-after (suc n) i j t = elim (Option-cases (get_elem? t i)) [
    | inl e ↦
        rw
          (
            e,
            reparent_from,
            any_child-none n (i + 1) me t (get_elem?-none_above t i (i + 1) e (omega arith)),
          )
          (after_end (suc n) i j t e)
    | inr (p, e) ↦ elim (Bool-cases (same_slot p.parent (some me))) [
      | inl child ↦
          rw (e, reparent_from, child)
            (reparent_from-after n (i + 1) j (adopt_and_wake i me init t)
              ∙ ap
                  (λ any.
                    Option.map (after any (in_range n (i + 1) j) me init j)
                      (get_elem? (adopt_and_wake i me init t) j))
                  (any_child-adopt n (i + 1) t i me init (omega arith))
              ∙ after_turn n i j t p _ e child)
      | inr other ↦
          rw (e, reparent_from, other)
            (reparent_from-after n (i + 1) j t ∙ after_skip n i j t p _ e other)
    ]
  ]

-- `reparent` gives each child of the caller to `init` and, if there is one, wakes `init` in case
-- it sleeps in `wait`. It changes nothing else.
pub get_elem?-reparent :
    (t : Table) (me init j : ℕ)
    → get_elem? (reparent me init t) j
      ≡ Option.map (after (any_child (length t) 0 me t) true me init j) (get_elem? t j)
unfolding reparent
get_elem?-reparent t me init j = reparent_from-after me init (length t) 0 j t ∙ whole
  where
    whole :
        Option.map
          (after (any_child (length t) 0 me t) (in_range (length t) 0 j) me init j)
          (get_elem? t j)
        ≡ Option.map (after (any_child (length t) 0 me t) true me init j) (get_elem? t j)
    whole = elim (Option-cases (get_elem? t j)) [
      | inl out ↦ rw out
      | inr (q, at) ↦ rw (at, in_range_length t j q at)
    ]
