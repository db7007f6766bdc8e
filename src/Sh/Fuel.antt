-- ===== src/Sh/Fuel.antt =====
-- sh.c: each round of the parser takes a token off the line, so that fuel by the length is enough.
pub mod Words
pub mod Pipe
pub mod Line
use pplottery.Prelude.{
  ℕ, ◌+◌, ◌<◌, ◌≤◌, ◌≡◌, ◌⊎◌, inl, inr, refl, sym, ap, ◌∙◌, Bool, true, false, List, [], ◌∷◌, ◌++◌,
  ◌==◌, ==_iff, arith, length, length-append,
}
use pplottery.Sh.{Cursor, Token, skip_space, starts_with, gettoken, peek}
use pplottery.Sh.Tokens.{All, Stops, is_space, Skips, Reads, skip_space-Skips, gettoken-Gets}

-- What is left at a cursor.
abbrev pub len : Cursor → ℕ
len s = length s.rest

run_len :
    (test : ℕ → Bool) (place : ℕ) (l : List ℕ) (t : Cursor)
    → Skips test place l t
    → len t ≤ length l
run_len test place l t (run, e, all, at, stops) =
    omega (arith, ap length e, length-append run t.rest)

pub left_len : (toks : List ℕ) (s : Cursor) → len (peek toks s).1 ≤ len s
unfolding peek
left_len toks s =
    run_len is_space s.place s.rest (skip_space s.place s.rest) (skip_space-Skips s.place s.rest)

text_len :
    (q : ℕ) (l : List ℕ) (t : Token)
    → Reads q l t
    → (len t.next ≤ length l) × ((l ≡ []) ⊎ (len t.next < length l))
text_len q l t (text, after, e, is, at, ends, skips) =
    let behind = run_len is_space t.eq after t.next skips in
    let total : length l ≡ length text + length after = ap length e ∙ length-append text after in
    (
      omega (arith, behind, total),
      elim is [
        | inl (zero_tok, no_text, no_after) ↦ inl (e ∙ rw (no_text, no_after) refl)
        | inr (inl (one, symbol, single)) ↦ inr (omega (arith, behind, total, ap length one))
        | inr (inr (inl (plus, two))) ↦ inr (omega (arith, behind, total, ap length two))
        | inr (inr (inr (word, some, all, stops))) ↦ inr (omega (arith, behind, total, some))
      ],
    )

pub next_len : (s : Cursor) → len (gettoken s).next ≤ len s
next_len s =
    let (start, skips, reads) = gettoken-Gets s in
    omega (
      arith,
      run_len is_space s.place s.rest start skips,
      (text_len start.place start.rest (gettoken s) reads).0,
    )

-- A token that is not the end of the line.
token_shorter :
    (s : Cursor) (t : Token) (start : Cursor)
    → Skips is_space s.place s.rest start
    → Reads start.place start.rest t
    → (t.tok == 0) ≡ false
    → len t.next < len s
token_shorter s t start skips (text, after, e, is, at, ends, skips') some =
    let behind = run_len is_space t.eq after t.next skips' in
    let total : len start ≡ length text + length after = ap length e ∙ length-append text after in
    let before = run_len is_space s.place s.rest start skips in
    elim is [
      | inl (zero_tok, no_text, no_after) ↦
          let bad : true ≡ false = sym ((==_iff t.tok 0).1 zero_tok) ∙ some in cc
      | inr (inl (one, symbol, single)) ↦ omega (arith, before, behind, total, ap length one)
      | inr (inr (inl (plus, two))) ↦ omega (arith, before, behind, total, ap length two)
      | inr (inr (inr (word, some_text, all, stops))) ↦
          omega (arith, before, behind, total, some_text)
    ]

pub gettoken_shorter :
    (s : Cursor) → ((gettoken s).tok == 0) ≡ false → len (gettoken s).next < len s
gettoken_shorter s some =
    let (start, skips, reads) = gettoken-Gets s in
    token_shorter s (gettoken s) start skips reads some

-- After a `peek` that is true there is a token.
nonempty_shorter :
    (c : ℕ) (cs run : List ℕ) (s start : Cursor) (t : Token)
    → s.rest ≡ c ∷ cs
    → is_space c ≡ false
    → s.rest ≡ run ++ start.rest
    → All is_space run
    → Reads start.place start.rest t
    → len t.next < len s
nonempty_shorter c cs [] s start t e plain f all reads =
    elim (text_len start.place start.rest t reads).1 [
      | inl empty ↦ let bad : c ∷ cs ≡ [] = sym e ∙ f ∙ empty in cc
      | inr less ↦ omega (arith, less, ap length f)
    ]
nonempty_shorter c cs (d ∷ run) s start t e plain f (space, all) reads =
    let same : c ∷ cs ≡ d ∷ (run ++ start.rest) = sym e ∙ f in
    let at : c ≡ d = cc in let bad : false ≡ true = sym plain ∙ ap is_space at ∙ space in cc

peeked_shorter :
    (toks rest : List ℕ) (s : Cursor)
    → s.rest ≡ rest
    → Stops is_space rest
    → starts_with toks rest ≡ true
    → len (gettoken s).next < len s
peeked_shorter toks [] s e stops here = cc
peeked_shorter toks (c ∷ cs) s e stops here =
    let (start, (run, f, all, at, stops'), reads) = gettoken-Gets s in
    nonempty_shorter c cs run s start (gettoken s) e stops f all reads

pub peek_shorter :
    (toks : List ℕ) (s : Cursor)
    → (peek toks s).0 ≡ true
    → len (gettoken (peek toks s).1).next < len s
unfolding peek
peek_shorter toks s here =
    let t = skip_space s.place s.rest in
    let skips = skip_space-Skips s.place s.rest in
    let (run, e, all, at, stops) = skips in
    omega
      (arith, peeked_shorter toks t.rest t refl stops here, run_len is_space s.place s.rest t skips)
