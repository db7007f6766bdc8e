-- ===== src/Fs/Names/Elements.antt =====
-- `skipelem` against the split of a path at its slashes.
use pplottery.Prelude.{
  ℕ, ◌≤◌, ◌<◌, ◌≡◌, refl, sym, ap, ◌∙◌, false, none, some, List, [], ◌∷◌, ◌++◌, ◌==◌, if◌then◌else◌,
  arith, length, Bool-cases, inl, inr, subst,
}
use mathlib.Core.List.{append_assoc, append-nil}
use pplottery.Fs.Names.{skip_slashes, element, copy_name, skipelem}

-- A piece between slashes, unless it is empty.
abbrev flush : List ℕ → List (List ℕ)
flush [] = []
flush (c ∷ cs) = (c ∷ cs) ∷ []

-- The elements of a path: its pieces between slashes that are not empty. `cur` is the piece so far.
pieces : List ℕ → List ℕ → List (List ℕ)
pieces cur [] = flush cur
pieces cur (c ∷ cs) =
    let rest = pieces (cur ++ (c ∷ [])) cs in
    let cut = flush cur ++ pieces [] cs in if c == b'/' then cut else rest

pub elements : List ℕ → List (List ℕ)
unfolding pieces
elements path = pieces [] path

abbrev pub NoSlash : List ℕ → Type 0
NoSlash [] = Unit {0}
NoSlash (c ∷ cs) = (c == b'/') ≡ false

pieces-skip_slashes : (path : List ℕ) → pieces [] (skip_slashes path) ≡ pieces [] path
unfolding skip_slashes pieces
pieces-skip_slashes [] = refl
pieces-skip_slashes (c ∷ cs) = elim (Bool-cases (c == b'/')) [
  | inl e ↦ rw (e, pieces-skip_slashes cs)
  | inr e ↦ rw e (rw e refl)
]

skip_slashes_lem :
    (path : List ℕ) → NoSlash (skip_slashes path) × (length (skip_slashes path) ≤ length path)
unfolding skip_slashes
skip_slashes_lem [] = (tt, omega arith)
skip_slashes_lem (c ∷ cs) = elim (Bool-cases (c == b'/')) [
  | inl e ↦ let ih = skip_slashes_lem cs in rw e (ih.0, omega (arith, ih.1))
  | inr e ↦ rw e (e, omega arith)
]

pieces-element :
    (cur path : List ℕ)
    → pieces cur path ≡ flush (cur ++ (element path).0) ++ pieces [] (element path).1
unfolding pieces element
pieces-element cur [] = simp (append-nil)
pieces-element cur (c ∷ cs) = elim (Bool-cases (c == b'/')) [
  | inl e ↦ rw (e, append-nil) (rw e refl)
  | inr e ↦ rw (e) (
      pieces-element (cur ++ (c ∷ [])) cs
      ∙ ap (λ l. flush l ++ pieces [] (element cs).1) (append_assoc cur (c ∷ []) (element cs).0))
]

-- What `skipelem` does to a path whose elements are the list.
abbrev pub Takes : List (List ℕ) → List ℕ → List ℕ → Type 0
Takes [] path name = skipelem path name ≡ none
Takes (e ∷ es) path name =
    (rest : List ℕ) × (skipelem path name ≡ some (rest, copy_name e name))
    × (elements rest ≡ es)
    × NoSlash rest
    × (length rest < length path)

element_lem : (path : List ℕ) → length (element path).1 ≤ length path
unfolding element
element_lem [] = omega arith
element_lem (c ∷ cs) = elim (Bool-cases (c == b'/')) [
  | inl e ↦ rw e (omega arith)
  | inr e ↦ rw e (omega (arith, element_lem cs))
]

elements-element :
    (c : ℕ) (cs : List ℕ)
    → (c == b'/') ≡ false
    → elements (c ∷ cs) ≡ (c ∷ (element cs).0) ∷ pieces [] (element cs).1
unfolding elements pieces
elements-element c cs plain = rw plain (pieces-element (c ∷ []) cs)

-- At a path whose first element begins with `c`.
first_element_taken :
    (c : ℕ) (cs path name : List ℕ)
    → skip_slashes path ≡ c ∷ cs
    → (c == b'/') ≡ false
    → Takes (elements (c ∷ cs)) path name
unfolding skipelem element elements
first_element_taken c cs path name e plain =
    let rest = skip_slashes (element cs).1 in
    let no_slash = skip_slashes_lem (element cs).1 in
    let shorter : length (c ∷ cs) ≤ length path =
      omega (arith, ap length e, (skip_slashes_lem path).1) in
    subst (λ l. Takes l path name) (sym (elements-element c cs plain))
      (
        rest,
        rw (skipelem, e, plain) refl,
        pieces-skip_slashes (element cs).1,
        no_slash.0,
        omega (arith, element_lem cs, no_slash.1, shorter),
      )

stripped_taken :
    (path name stripped : List ℕ)
    → skip_slashes path ≡ stripped
    → NoSlash stripped
    → Takes (elements stripped) path name
unfolding skipelem elements pieces
stripped_taken path name [] e h = rw (skipelem, e) refl
stripped_taken path name (c ∷ cs) e h = first_element_taken c cs path name e h

-- `skipelem` walks through the elements of a path: it takes the first one, cut to fit `name`, and
-- leaves the others, in a shorter path that begins with no slash; it returns null exactly if there
-- is no element.
pub skipelem-elements : (path name : List ℕ) → Takes (elements path) path name
unfolding elements
skipelem-elements path name =
    subst (λ l. Takes l path name) (pieces-skip_slashes path)
      (stripped_taken path name (skip_slashes path) refl (skip_slashes_lem path).0)
