-- ===== src/Sh/Fuel/Pipe.antt =====
-- sh.c: the parser of a command and of a pipeline, with two amounts of fuel and two parsers of lines.
use pplottery.Prelude.{ℕ, zero, suc, ◌<◌, ◌≤◌, inl, inr, refl, ◌∙◌, [], ◌∷◌, arith, Bool-cases}
use pplottery.Sh.{
  Parse, parsed, failed, Cursor, Cmd, gettoken, peek, parseredirs, parseargs, parseblock, parseexec,
  parsepipe,
}
use pplottery.Sh.Fuel.{len, left_len, peek_shorter}
use pplottery.Sh.Fuel.Words.{Agree, Agree-cases, Left-parsed, parseredirs-Agree, parseargs-Agree}

-- The two lines agree on what is shorter than `s`.
abbrev pub Below : (s : Cursor) (line line' : Cursor → Parse (Cmd × Cursor)) → Type 0
Below s line line' = (u : Cursor) → len u < len s → Agree (len u) (line u) (line' u)

Below-after :
    (s t : Cursor) (line line' : Cursor → Parse (Cmd × Cursor))
    → len t ≤ len s
    → Below s line line'
    → Below t line line'
Below-after s t line line' le below u less = below u (omega (arith, le, less))

Agree-after :
    {A : Type 0} (m n : ℕ) (r r' : Parse (A × Cursor)) → m ≤ n → Agree m r r' → Agree n r r'
Agree-after m n (failed x) r' le agree = (agree.0, agree.1)
Agree-after m n (parsed (a, s)) r' le agree = (agree.0, omega (arith, le, agree.1))

module _ (line line' : Cursor → Parse (Cmd × Cursor)) (f g : ℕ) where
  parseblock-Agree :
      (s : Cursor)
      → len s < f
      → len s < g
      → Below s line line'
      → Agree (len s) (parseblock f line s) (parseblock g line' s)
  unfolding parseblock
  parseblock-Agree s h k below =
      let p = peek (b'(' ∷ []) s in
      let inside = (gettoken p.1).next in
      elim (Bool-cases p.0) [
        | inr off ↦ rw (off, parseblock) (refl, refl)
        | inl on ↦
            let less = peek_shorter (b'(' ∷ []) s on in
            let agree = below inside less in
            elim (Agree-cases (len inside) (line inside) (line' inside) agree) [
              | inl e ↦ let e' = agree.0 ∙ e in rw (on, e, e', parseblock) (refl, refl)
              | inr ((cmd, s2), e) ↦
                  let e' = agree.0 ∙ e in
                  let left = Left-parsed (len inside) (line inside) agree.1 e' in
                  let closing = peek (b')' ∷ []) s2 in
                  let behind = (gettoken closing.1).next in
                  elim (Bool-cases closing.0) [
                    | inr missing ↦ rw (on, e, e', missing, parseblock) (refl, refl)
                    | inl closed ↦
                        let less' = peek_shorter (b')' ∷ []) s2 closed in
                        let last =
                          parseredirs-Agree f g behind (omega (arith, less, left, less'))
                            (omega (arith, less, left, less')) in
                        elim (Agree-cases (len behind) (parseredirs f behind) (parseredirs g behind)
                          last) [
                            | inl d ↦
                                let d' = last.0 ∙ d in
                                rw (on, e, e', closed, d, d', parseblock) (refl, refl)
                            | inr ((rs, s4), d) ↦
                                let d' = last.0 ∙ d in
                                let left' =
                                  Left-parsed (len behind) (parseredirs f behind) last.1 d' in
                                rw (on, e, e', closed, d, d', parseblock)
                                  (refl, omega (arith, less, left, less', left'))
                          ]
                  ]
            ]
      ]

  parseexec-Agree :
      (s : Cursor)
      → len s < f
      → len s < g
      → Below s line line'
      → Agree (len s) (parseexec f line s) (parseexec g line' s)
  unfolding parseexec
  parseexec-Agree s h k below =
      let p = peek (b'(' ∷ []) s in
      let at = left_len (b'(' ∷ []) s in
      elim (Bool-cases p.0) [
        | inl paren ↦
            rw (paren, parseexec)
              (Agree-after (len p.1) (len s) (parseblock f line p.1) (parseblock g line' p.1) at (
                parseblock-Agree p.1 (omega (arith, at)) (omega (arith, at))
                  (Below-after s p.1 line line' at below)))
        | inr plain ↦
            let first = parseredirs-Agree f g p.1 (omega (arith, at)) (omega (arith, at)) in
            elim (Agree-cases (len p.1) (parseredirs f p.1) (parseredirs g p.1) first) [
              | inl e ↦ let e' = first.0 ∙ e in rw (plain, e, e', parseexec) (refl, refl)
              | inr ((rs, s2), e) ↦
                  let e' = first.0 ∙ e in
                  let left = Left-parsed (len p.1) (parseredirs f p.1) first.1 e' in
                  let args =
                    parseargs-Agree f g 0 s2 (omega (arith, at, left)) (omega (arith, at, left)) in
                  elim (Agree-cases (len s2) (parseargs f 0 s2) (parseargs g 0 s2) args) [
                    | inl d ↦
                        let d' = args.0 ∙ d in rw (plain, e, e', d, d', parseexec) (refl, refl)
                    | inr (((words, rs'), s3), d) ↦
                        let d' = args.0 ∙ d in
                        let left' = Left-parsed (len s2) (parseargs f 0 s2) args.1 d' in
                        rw (plain, e, e', d, d', parseexec) (refl, omega (arith, at, left, left'))
                  ]
            ]
      ]

  pub parsepipe-Agree :
      (m n : ℕ) (s : Cursor)
      → len s < m
      → len s < n
      → len s < f
      → len s < g
      → Below s line line'
      → Agree (len s) (parsepipe m f line s) (parsepipe n g line' s)
  unfolding parsepipe
  parsepipe-Agree zero n s a b h k below = absurd (omega arith)
  parsepipe-Agree (suc m) zero s a b h k below = absurd (omega arith)
  parsepipe-Agree (suc m) (suc n) s a b h k below =
      let first = parseexec-Agree s h k below in
      elim (Agree-cases (len s) (parseexec f line s) (parseexec g line' s) first) [
        | inl e ↦ let e' = first.0 ∙ e in rw (e, e', parsepipe) (refl, refl)
        | inr ((cmd, s1), e) ↦
            let e' = first.0 ∙ e in
            let left = Left-parsed (len s) (parseexec f line s) first.1 e' in
            let p = peek (b'|' ∷ []) s1 in
            let u = (gettoken p.1).next in
            elim (Bool-cases p.0) [
              | inr last ↦
                  rw (e, e', last, parsepipe) (refl, omega (arith, left, left_len (b'|' ∷ []) s1))
              | inl more ↦
                  let less = peek_shorter (b'|' ∷ []) s1 more in
                  let le : len u ≤ len s = omega (arith, left, less) in
                  let ih =
                    parsepipe-Agree m n u (omega (arith, left, less)) (omega (arith, left, less))
                      (omega (arith, le)) (omega (arith, le))
                      (Below-after s u line line' le below) in
                  elim (Agree-cases (len u) (parsepipe m f line u) (parsepipe n g line' u) ih) [
                    | inl d ↦ let d' = ih.0 ∙ d in rw (e, e', more, d, d', parsepipe) (refl, refl)
                    | inr ((cmd', s3), d) ↦
                        let d' = ih.0 ∙ d in
                        let left' = Left-parsed (len u) (parsepipe m f line u) ih.1 d' in
                        rw (e, e', more, d, d', parsepipe) (refl, omega (arith, le, left'))
                  ]
            ]
      ]
