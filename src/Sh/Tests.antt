-- ===== src/Sh/Tests.antt =====
-- The theorems on the shell at a short line, `a>b`.
use pplottery.Prelude.{ℕ, ◌≡◌, refl, arith, List, [], ◌∷◌}
use pplottery.Sh.{parsed, Cursor, Cmd, exec, redir, redirection, gettoken, parsecmd}
use pplottery.Sh.Tokens.{Gets, gettoken-Gets}
use pplottery.Sh.Fuel.Line.{Finishes, parsecmd-enough}
use pplottery.Sh.Args.{Fits, parsecmd-Fits}

abbrev line : List ℕ
line = b'a' ∷ b'>' ∷ b'b' ∷ []

abbrev start : Cursor
start = record { place = 0; rest = line }

gettoken-Gets_example : Gets start (gettoken start)
gettoken-Gets_example = gettoken-Gets start

abbrev command : Cmd
command = redir (redirection b'>' (2, 3)) (exec ((0, 1) ∷ []))

parses : parsecmd 5 line ≡ parsed command
unfolding parsecmd
parses = refl

parsecmd-Fits_example : Fits command
parsecmd-Fits_example = parsecmd-Fits 5 line command parses

parsecmd-enough_example : Finishes (parsecmd 5 line) × (parsecmd 5 line ≡ parsecmd 100 line)
parsecmd-enough_example = parsecmd-enough 5 100 line (omega arith) (omega arith)
