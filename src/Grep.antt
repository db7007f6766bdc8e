-- ===== src/Grep.antt =====
-- grep.c: the matcher of regular expressions with ^ . * $.
-- A C string is the list of its bytes before the NUL, so its end is the empty list.
pub mod Match
mod Tests
use pplottery.Prelude.{ℕ, Bool, true, false, ◌&&◌, ◌||◌, List, [], ◌∷◌, ◌==◌, if◌then◌else◌}

-- `.` stands for every character.
abbrev pub one : (c a : ℕ) → Bool
one c a = (c == b'.') || (c == a)

-- The loop of `matchstar`; `here` is `matchhere` of the expression behind the star.
pub matchstar : (here : List ℕ → Bool) (c : ℕ) → List ℕ → Bool
matchstar here c [] = here []
matchstar here c (a ∷ text) =
    let rest = matchstar here c text in
    if here (a ∷ text) then true else if one c a then rest else false

pub matchhere : List ℕ → List ℕ → Bool
unfolding matchstar
matchhere [] text = true
matchhere (c ∷ []) [] = c == b'$'
matchhere (c ∷ []) (a ∷ text) = if c == b'$' then false else one c a
matchhere (c ∷ d ∷ re) text =
    let starred = matchstar (matchhere re) c text in
    let plain : Bool = elim text [ [] ↦ false | a ∷ rest ↦ one c a && matchhere (d ∷ re) rest ] in
    if d == b'*' then starred else plain

-- The loop of `match`, over the text and its tails, the empty one included.
pub match_from : List ℕ → List ℕ → Bool
unfolding matchhere
match_from re [] = matchhere re []
match_from re (a ∷ text) =
    let rest = match_from re text in if matchhere re (a ∷ text) then true else rest

pub match : List ℕ → List ℕ → Bool
unfolding match_from
match [] text = match_from [] text
match (c ∷ re) text = if c == b'^' then matchhere re text else match_from (c ∷ re) text
