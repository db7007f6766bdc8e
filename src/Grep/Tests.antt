-- ===== src/Grep/Tests.antt =====
-- The theorem on the matcher at concrete expressions and texts.
use pplottery.Prelude.{ℕ, ◌≡◌, ◌↔◌, true, List, [], ◌∷◌}
use pplottery.Grep.{match}
use pplottery.Grep.Match.{Matches, match_iff}

-- `^a.*b$` and `axyb`
abbrev expression : List ℕ
expression = b'^' ∷ b'a' ∷ b'.' ∷ b'*' ∷ b'b' ∷ b'$' ∷ []

abbrev text : List ℕ
text = b'a' ∷ b'x' ∷ b'y' ∷ b'b' ∷ []

match_iff_example : (match expression text ≡ true) ↔ Matches expression text
match_iff_example = match_iff expression text
