-- ===== src/Sh/Args.antt =====
-- sh.c: the number of arguments of a command, whose array `argv` has `MAXARGS` places.
use pplottery.Prelude.{
  ℕ, zero, suc, ◌+◌, ◌<◌, ◌≡◌, inl, inr, List, [], ◌∷◌, ◌++◌, ◌==◌, arith, Bool-cases, length, leb,
}
use pplottery.Sh.{
  Parse, parsed, failed, panicked, Parse-cases, Cursor, Redir, Cmd, exec, redir, pipe, list, back,
  redirected, maxargs, gettoken, peek, parseredirs, parseargs, parseblock, parseexec, parsepipe,
  parseback, parseline, parsecmd,
}

-- Each list of arguments in the command leaves a place for the null behind it.
abbrev pub Fits : Cmd → Type 0
Fits (exec args) = length args < maxargs
Fits (redir r cmd) = Fits cmd
Fits (pipe l r) = Fits l × Fits r
Fits (list l r) = Fits l × Fits r
Fits (back cmd) = Fits cmd

abbrev CmdFits : Parse (Cmd × Cursor) → Type 0
CmdFits (failed x) = Unit {0}
CmdFits (parsed (cmd, s)) = Fits cmd

abbrev ArgsFit : ℕ → Parse ((List (ℕ × ℕ) × List Redir) × Cursor) → Type 0
ArgsFit argc (failed x) = Unit {0}
ArgsFit argc (parsed ((args, rs), s)) = argc + length args < maxargs

redirected-Fits : (rs : List Redir) (cmd : Cmd) → Fits cmd → Fits (redirected rs cmd)
redirected-Fits [] cmd fits = fits
redirected-Fits (r ∷ rs) cmd fits = redirected-Fits rs (redir r cmd) fits

parseargs-ArgsFit :
    (fuel argc : ℕ) (s : Cursor) → argc < maxargs → ArgsFit argc (parseargs fuel argc s)
unfolding parseargs
parseargs-ArgsFit zero argc s few = tt
parseargs-ArgsFit (suc fuel) argc s few =
    let p = peek (b'|' ∷ b')' ∷ b'&' ∷ b';' ∷ []) s in
    let t = gettoken p.1 in
    elim (Bool-cases p.0) [
      | inl stop ↦ rw (stop, parseargs) (omega arith)
      | inr on ↦ elim (Bool-cases (t.tok == 0)) [
        | inl end ↦ rw (on, end, parseargs) (omega arith)
        | inr some ↦ elim (Bool-cases (t.tok == b'a')) [
          | inr symbol ↦ rw (on, some, symbol, parseargs) tt
          | inl word ↦ elim (Bool-cases (leb maxargs (argc + 1))) [
            | inl full ↦ rw (on, some, word, full, parseargs) tt
            | inr room ↦ elim (Parse-cases (parseredirs fuel t.next)) [
              | inl (x, e) ↦ rw (on, some, word, room, e, parseargs) tt
              | inr ((rs, s2), e) ↦
                  let ih = parseargs-ArgsFit fuel (argc + 1) s2 (ground arith) in
                  elim (Parse-cases (parseargs fuel (argc + 1) s2)) [
                    | inl (x, f) ↦ rw (on, some, word, room, e, f, parseargs) tt
                    | inr (((args, rs'), s3), f) ↦
                        let fits : ArgsFit (argc + 1) (parsed ((args, rs'), s3)) = rw f at ih in
                        rw (on, some, word, room, e, f, parseargs) (omega (arith, fits))
                  ]
            ]
          ]
        ]
      ]
    ]

module _ (line : Cursor → Parse (Cmd × Cursor)) (line_fits : (s : Cursor) → CmdFits (line s))
    (fuel : ℕ) where
  parseblock-CmdFits : (s : Cursor) → CmdFits (parseblock fuel line s)
  unfolding parseblock
  parseblock-CmdFits s =
      let p = peek (b'(' ∷ []) s in
      elim (Bool-cases p.0) [
        | inr off ↦ rw (off, parseblock) tt
        | inl on ↦ elim (Parse-cases (line (gettoken p.1).next)) [
          | inl (x, e) ↦ rw (on, e, parseblock) tt
          | inr ((cmd, s2), e) ↦
              let fits : CmdFits (parsed (cmd, s2)) = rw e at (line_fits (gettoken p.1).next) in
              let closing = peek (b')' ∷ []) s2 in
              elim (Bool-cases closing.0) [
                | inr missing ↦ rw (on, e, missing, parseblock) tt
                | inl closed ↦ elim (Parse-cases (parseredirs fuel (gettoken closing.1).next)) [
                  | inl (x, f) ↦ rw (on, e, closed, f, parseblock) tt
                  | inr ((rs, s4), f) ↦
                      rw (on, e, closed, f, parseblock) (redirected-Fits rs cmd fits)
                ]
              ]
        ]
      ]

  parseexec-CmdFits : (s : Cursor) → CmdFits (parseexec fuel line s)
  unfolding parseexec
  parseexec-CmdFits s =
      let p = peek (b'(' ∷ []) s in
      elim (Bool-cases p.0) [
        | inl paren ↦ rw (paren, parseexec) (parseblock-CmdFits p.1)
        | inr plain ↦ elim (Parse-cases (parseredirs fuel p.1)) [
          | inl (x, e) ↦ rw (plain, e, parseexec) tt
          | inr ((rs, s2), e) ↦
              let args_fit = parseargs-ArgsFit fuel 0 s2 (omega arith) in
              elim (Parse-cases (parseargs fuel 0 s2)) [
                | inl (x, f) ↦ rw (plain, e, f, parseexec) tt
                | inr (((args, rs'), s3), f) ↦
                    let fits : ArgsFit 0 (parsed ((args, rs'), s3)) = rw f at args_fit in
                    rw (plain, e, f, parseexec)
                      (redirected-Fits (rs ++ rs') (exec args) (omega (arith, fits)))
              ]
        ]
      ]

  parsepipe-CmdFits : (n : ℕ) (s : Cursor) → CmdFits (parsepipe n fuel line s)
  unfolding parsepipe
  parsepipe-CmdFits zero s = tt
  parsepipe-CmdFits (suc n) s = elim (Parse-cases (parseexec fuel line s)) [
    | inl (x, e) ↦ rw (e, parsepipe) tt
    | inr ((cmd, s1), e) ↦
        let fits : CmdFits (parsed (cmd, s1)) = rw e at (parseexec-CmdFits s) in
        let p = peek (b'|' ∷ []) s1 in
        elim (Bool-cases p.0) [
          | inr last ↦ rw (e, last, parsepipe) fits
          | inl more ↦ elim (Parse-cases (parsepipe n fuel line (gettoken p.1).next)) [
            | inl (x, f) ↦ rw (e, more, f, parsepipe) tt
            | inr ((cmd', s3), f) ↦
                let fits' : CmdFits (parsed (cmd', s3)) =
                  rw f at (parsepipe-CmdFits n (gettoken p.1).next) in
                rw (e, more, f, parsepipe) (fits, fits')
          ]
        ]
  ]

parseback-CmdFits : (fuel : ℕ) (cmd : Cmd) (s : Cursor) → Fits cmd → CmdFits (parseback fuel cmd s)
unfolding parseback
parseback-CmdFits zero cmd s fits = tt
parseback-CmdFits (suc fuel) cmd s fits =
    let p = peek (b'&' ∷ []) s in
    elim (Bool-cases p.0) [
      | inr last ↦ rw (last, parseback) fits
      | inl more ↦ rw (more, parseback) (parseback-CmdFits fuel (back cmd) (gettoken p.1).next fits)
    ]

parseline-CmdFits : (fuel : ℕ) (s : Cursor) → CmdFits (parseline fuel s)
unfolding parseline
parseline-CmdFits zero s = tt
parseline-CmdFits (suc fuel) s =
    let pipe_fits = parsepipe-CmdFits (parseline fuel) (parseline-CmdFits fuel) fuel fuel s in
    elim (Parse-cases (parsepipe fuel fuel (parseline fuel) s)) [
      | inl (x, e) ↦ rw (e, parseline) tt
      | inr ((cmd, s1), e) ↦
          let fits : CmdFits (parsed (cmd, s1)) = rw e at pipe_fits in
          let back_fits = parseback-CmdFits fuel cmd s1 fits in
          elim (Parse-cases (parseback fuel cmd s1)) [
            | inl (x, f) ↦ rw (e, f, parseline) tt
            | inr ((cmd', s2), f) ↦
                let fits' : CmdFits (parsed (cmd', s2)) = rw f at back_fits in
                let p = peek (b';' ∷ []) s2 in
                elim (Bool-cases p.0) [
                  | inr last ↦ rw (e, f, last, parseline) fits'
                  | inl more ↦ elim (Parse-cases (parseline fuel (gettoken p.1).next)) [
                    | inl (x, g) ↦ rw (e, f, more, g, parseline) tt
                    | inr ((cmd'', s4), g) ↦
                        let fits'' : CmdFits (parsed (cmd'', s4)) =
                          rw g at (parseline-CmdFits fuel (gettoken p.1).next) in
                        rw (e, f, more, g, parseline) (fits', fits'')
                  ]
                ]
          ]
    ]

parsed_inj : {A : Type 0} {x y : A} → parsed x ≡ parsed y → x ≡ y
parsed_inj e = cc

end_of_line :
    (cmd' cmd : Cmd) (left : List ℕ)
    → Fits cmd'
    → (elim left as (λ _. Parse Cmd) [ [] ↦ parsed cmd' | c ∷ cs ↦ failed panicked ]) ≡ parsed cmd
    → Fits cmd
end_of_line cmd' cmd [] fits e = let at : cmd' ≡ cmd = parsed_inj e in rw at at fits
end_of_line cmd' cmd (c ∷ cs) fits e = cc

-- A command that `parsecmd` returns has fewer than `MAXARGS` arguments in each of its parts, so that
-- the null behind them is in the array.
pub parsecmd-Fits :
    (fuel : ℕ) (line : List ℕ) (cmd : Cmd) → parsecmd fuel line ≡ parsed cmd → Fits cmd
unfolding parsecmd
parsecmd-Fits fuel line cmd run =
    let start : Cursor = record { place = 0; rest = line } in
    let line_fits = parseline-CmdFits fuel start in
    elim (Parse-cases (parseline fuel start)) [
      | inl (x, e) ↦ let bad : failed x ≡ parsed cmd = rw (e, parsecmd) at run in cc
      | inr ((cmd', s), e) ↦
          let fits : CmdFits (parsed (cmd', s)) = rw e at line_fits in
          end_of_line cmd' cmd (peek [] s).1.rest fits (rw (e, parsecmd) at run)
    ]
