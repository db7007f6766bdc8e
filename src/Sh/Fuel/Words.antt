-- ===== src/Sh/Fuel/Words.antt =====
-- sh.c: the redirections and the arguments of a command, with two amounts of fuel.
use pplottery.Prelude.{
  ℕ, zero, suc, ◌+◌, ◌<◌, ◌≤◌, ◌≡◌, ◌⊎◌, inl, inr, refl, ap, ◌∙◌, [], ◌∷◌, ◌==◌, arith, Bool-cases,
  leb,
}
use pplottery.Sh.{
  Parse, parsed, failed, panicked, Cursor, gettoken, peek, parseredirs, parseargs, maxargs,
}
use pplottery.Sh.Fuel.{len, left_len, next_len, gettoken_shorter, peek_shorter}

-- A result leaves at most `n` bytes, and without one there is a panic, not too little fuel.
abbrev pub Left : {A : Type 0} → ℕ → Parse (A × Cursor) → Type 0
Left n (failed x) = x ≡ panicked
Left n (parsed (a, s)) = len s ≤ n

-- Two runs come to the same, which leaves at most `n` bytes.
abbrev pub Agree : {A : Type 0} → ℕ → Parse (A × Cursor) → Parse (A × Cursor) → Type 0
Agree n r r' = (r ≡ r') × Left n r

pub Left-cases :
    {A : Type 0} (n : ℕ) (r : Parse (A × Cursor))
    → Left n r
    → (r ≡ failed panicked) ⊎ ((a : A × Cursor) × (r ≡ parsed a))
Left-cases n (failed x) at = inl (ap failed at)
Left-cases n (parsed a) left = inr (a, refl)

-- The ends of the second of two runs.
pub Agree-cases :
    {A : Type 0} (n : ℕ) (r r' : Parse (A × Cursor))
    → Agree n r r'
    → (r' ≡ failed panicked) ⊎ ((a : A × Cursor) × (r' ≡ parsed a))
Agree-cases n r r' (same, left) = Left-cases n r' (rw same at left)

pub Left-parsed :
    {A : Type 0} (n : ℕ) (r : Parse (A × Cursor)) {a : A} {s : Cursor}
    → Left n r
    → r ≡ parsed (a, s)
    → len s ≤ n
Left-parsed n r left e = rw e at left

pub parseredirs-Agree :
    (f g : ℕ) (s : Cursor)
    → len s < f
    → len s < g
    → Agree (len s) (parseredirs f s) (parseredirs g s)
unfolding parseredirs
parseredirs-Agree zero g s h k = absurd (omega arith)
parseredirs-Agree (suc f) zero s h k = absurd (omega arith)
parseredirs-Agree (suc f) (suc g) s h k =
    let p = peek (b'<' ∷ b'>' ∷ []) s in
    let file = gettoken (gettoken p.1).next in
    elim (Bool-cases p.0) [
      | inr off ↦ rw (off, parseredirs) (refl, left_len (b'<' ∷ b'>' ∷ []) s)
      | inl here ↦ elim (Bool-cases (file.tok == b'a')) [
        | inr missing ↦ rw (here, missing, parseredirs) (refl, refl)
        | inl word ↦
            let less = peek_shorter (b'<' ∷ b'>' ∷ []) s here in
            let less' = next_len (gettoken p.1).next in
            let ih =
              parseredirs-Agree f g file.next (omega (arith, less, less'))
                (omega (arith, less, less')) in
            elim (Agree-cases (len file.next) (parseredirs f file.next) (parseredirs g file.next)
              ih) [
                | inl e ↦ let e' = ih.0 ∙ e in rw (here, word, e, e', parseredirs) (refl, refl)
                | inr ((rs, s2), e) ↦
                    let e' = ih.0 ∙ e in
                    let left = Left-parsed (len file.next) (parseredirs f file.next) ih.1 e' in
                    rw (here, word, e, e', parseredirs) (refl, omega (arith, left, less, less'))
              ]
      ]
    ]

pub parseargs-Agree :
    (f g argc : ℕ) (s : Cursor)
    → len s < f
    → len s < g
    → Agree (len s) (parseargs f argc s) (parseargs g argc s)
unfolding parseargs
parseargs-Agree zero g argc s h k = absurd (omega arith)
parseargs-Agree (suc f) zero argc s h k = absurd (omega arith)
parseargs-Agree (suc f) (suc g) argc s h k =
    let p = peek (b'|' ∷ b')' ∷ b'&' ∷ b';' ∷ []) s in
    let at = left_len (b'|' ∷ b')' ∷ b'&' ∷ b';' ∷ []) s in
    let t = gettoken p.1 in
    elim (Bool-cases p.0) [
      | inl stop ↦ rw (stop, parseargs) (refl, at)
      | inr on ↦ elim (Bool-cases (t.tok == 0)) [
        | inl end ↦ rw (on, end, parseargs) (refl, omega (arith, at, next_len p.1))
        | inr some ↦ elim (Bool-cases (t.tok == b'a')) [
          | inr symbol ↦ rw (on, some, symbol, parseargs) (refl, refl)
          | inl word ↦ elim (Bool-cases (leb maxargs (argc + 1))) [
            | inl full ↦ rw (on, some, word, full, parseargs) (refl, refl)
            | inr room ↦
                let less = gettoken_shorter p.1 some in
                let first =
                  parseredirs-Agree f g t.next (omega (arith, less, at))
                    (omega (arith, less, at)) in
                elim (Agree-cases (len t.next) (parseredirs f t.next) (parseredirs g t.next)
                  first) [
                    | inl e ↦
                        let e' = first.0 ∙ e in
                        rw (on, some, word, room, e, e', parseargs) (refl, refl)
                    | inr ((rs, s2), e) ↦
                        let e' = first.0 ∙ e in
                        let left = Left-parsed (len t.next) (parseredirs f t.next) first.1 e' in
                        let ih =
                          parseargs-Agree f g (argc + 1) s2 (omega (arith, less, at, left))
                            (omega (arith, less, at, left)) in
                        elim (Agree-cases (len s2) (parseargs f (argc + 1) s2)
                          (parseargs g (argc + 1) s2) ih) [
                            | inl d ↦
                                let d' = ih.0 ∙ d in
                                rw (on, some, word, room, e, e', d, d', parseargs) (refl, refl)
                            | inr (((args, rs'), s3), d) ↦
                                let d' = ih.0 ∙ d in
                                let left' =
                                  Left-parsed (len s2) (parseargs f (argc + 1) s2) ih.1 d' in
                                rw (on, some, word, room, e, e', d, d', parseargs)
                                  (refl, omega (arith, less, at, left, left'))
                          ]
                  ]
          ]
        ]
      ]
    ]
