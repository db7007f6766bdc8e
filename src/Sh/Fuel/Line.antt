-- ===== src/Sh/Fuel/Line.antt =====
-- sh.c: the fuel that the parser of the shell needs.
use pplottery.Prelude.{
  ℕ, zero, suc, ◌+◌, ◌<◌, ◌≡◌, inl, inr, refl, ◌∙◌, List, [], ◌∷◌, arith, Bool-cases, length, ◌⊎◌,
}
use pplottery.Sh.{
  Parse, parsed, failed, panicked, Cursor, Cmd, back, gettoken, peek, parsepipe, parseback,
  parseline, parsecmd,
}
use pplottery.Sh.Fuel.{len, left_len, peek_shorter}
use pplottery.Sh.Fuel.Words.{Agree, Agree-cases, Left-parsed}
use pplottery.Sh.Fuel.Pipe.{Below, parsepipe-Agree}

parseback-Agree :
    (f g : ℕ) (cmd : Cmd) (s : Cursor)
    → len s < f
    → len s < g
    → Agree (len s) (parseback f cmd s) (parseback g cmd s)
unfolding parseback
parseback-Agree zero g cmd s h k = absurd (omega arith)
parseback-Agree (suc f) zero cmd s h k = absurd (omega arith)
parseback-Agree (suc f) (suc g) cmd s h k =
    let p = peek (b'&' ∷ []) s in
    let u = (gettoken p.1).next in
    elim (Bool-cases p.0) [
      | inr last ↦ rw (last, parseback) (refl, left_len (b'&' ∷ []) s)
      | inl more ↦
          let less = peek_shorter (b'&' ∷ []) s more in
          let ih = parseback-Agree f g (back cmd) u (omega (arith, less)) (omega (arith, less)) in
          elim (Agree-cases (len u) (parseback f (back cmd) u) (parseback g (back cmd) u) ih) [
            | inl e ↦ let e' = ih.0 ∙ e in rw (more, e, e', parseback) (refl, refl)
            | inr ((cmd', s1), e) ↦
                let e' = ih.0 ∙ e in
                let left = Left-parsed (len u) (parseback f (back cmd) u) ih.1 e' in
                rw (more, e, e', parseback) (refl, omega (arith, less, left))
          ]
    ]

-- `parseline`, with two amounts of fuel.
parseline-Agree :
    (f g : ℕ) (s : Cursor)
    → len s + 1 < f
    → len s + 1 < g
    → Agree (len s) (parseline f s) (parseline g s)
unfolding parseline
parseline-Agree zero g s h k = absurd (omega arith)
parseline-Agree (suc f) zero s h k = absurd (omega arith)
parseline-Agree (suc f) (suc g) s h k =
    let below : Below s (parseline f) (parseline g) =
      (λ u less. parseline-Agree f g u (omega (arith, less)) (omega (arith, less))) in
    let first =
      parsepipe-Agree (parseline f) (parseline g) f g f g s (omega arith) (omega arith)
        (omega arith) (omega arith) below in
    elim (Agree-cases (len s) (parsepipe f f (parseline f) s) (parsepipe g g (parseline g) s)
      first) [
        | inl e ↦ let e' = first.0 ∙ e in rw (e, e', parseline) (refl, refl)
        | inr ((cmd, s1), e) ↦
            let e' = first.0 ∙ e in
            let left = Left-parsed (len s) (parsepipe f f (parseline f) s) first.1 e' in
            let second = parseback-Agree f g cmd s1 (omega (arith, left)) (omega (arith, left)) in
            elim (Agree-cases (len s1) (parseback f cmd s1) (parseback g cmd s1) second) [
              | inl d ↦ let d' = second.0 ∙ d in rw (e, e', d, d', parseline) (refl, refl)
              | inr ((cmd', s2), d) ↦
                  let d' = second.0 ∙ d in
                  let left' = Left-parsed (len s1) (parseback f cmd s1) second.1 d' in
                  let p = peek (b';' ∷ []) s2 in
                  let u = (gettoken p.1).next in
                  elim (Bool-cases p.0) [
                    | inr last ↦
                        rw (e, e', d, d', last, parseline)
                          (refl, omega (arith, left, left', left_len (b';' ∷ []) s2))
                    | inl more ↦
                        let less = peek_shorter (b';' ∷ []) s2 more in
                        let ih =
                          parseline-Agree f g u (omega (arith, left, left', less))
                            (omega (arith, left, left', less)) in
                        elim (Agree-cases (len u) (parseline f u) (parseline g u) ih) [
                          | inl c ↦
                              let c' = ih.0 ∙ c in
                              rw (e, e', d, d', more, c, c', parseline) (refl, refl)
                          | inr ((cmd'', s4), c) ↦
                              let c' = ih.0 ∙ c in
                              let left'' = Left-parsed (len u) (parseline f u) ih.1 c' in
                              rw (e, e', d, d', more, c, c', parseline)
                                (refl, omega (arith, left, left', less, left''))
                        ]
                  ]
            ]
      ]

-- The end of a parse: a command or a panic of the shell.
abbrev pub Finishes : Parse Cmd → Type 0
Finishes r = (r ≡ failed panicked) ⊎ ((cmd : Cmd) × (r ≡ parsed cmd))

whole_line :
    (cmd : Cmd) (left : List ℕ)
    → Finishes (elim left as (λ _. Parse Cmd) [ [] ↦ parsed cmd | c ∷ cs ↦ failed panicked ])
whole_line cmd [] = inr (cmd, refl)
whole_line cmd (c ∷ cs) = inl refl

-- With fuel above the length of the line and one the parser comes to its end on every line: it returns
-- a command or panics, and is not out of fuel. More fuel changes nothing.
pub parsecmd-enough :
    (f g : ℕ) (line : List ℕ)
    → length line + 1 < f
    → length line + 1 < g
    → Finishes (parsecmd f line) × (parsecmd f line ≡ parsecmd g line)
unfolding parsecmd
parsecmd-enough f g line h k =
    let start : Cursor = record { place = 0; rest = line } in
    let agree = parseline-Agree f g start h k in
    let same : parsecmd f line ≡ parsecmd g line = rw (agree.0, parsecmd) refl in
    elim (Agree-cases (len start) (parseline f start) (parseline g start) agree) [
      | inl e ↦ let e' = agree.0 ∙ e in (rw (e', parsecmd) (inl refl), same)
      | inr ((cmd, s), e) ↦
          let e' = agree.0 ∙ e in (rw (e', parsecmd) (whole_line cmd (peek [] s).1.rest), same)
    ]
