-- ===== src/Sh/Tokens.antt =====
-- sh.c: what `gettoken` makes of a line.
use pplottery.Prelude.{
  ℕ, ◌+◌, ◌<◌, ◌≡◌, ◌⊎◌, inl, inr, refl, sym, ap, subst, Bool, true, false, List, [], ◌∷◌, ◌++◌,
  ◌==◌, ==_iff, arith, Bool-cases, length,
}
use pplottery.Sh.{
  Cursor, Token, is_in, whitespace, symbols, is_word, skip_space, skip_word, token, append_or_write,
  symbol_or_word, token_at, gettoken,
}

-- Every byte of the list passes the test; the first byte, if there is one, does not.
abbrev pub All : (ℕ → Bool) → List ℕ → Type 0
All test [] = Unit {0}
All test (c ∷ cs) = (test c ≡ true) × All test cs

abbrev pub Stops : (ℕ → Bool) → List ℕ → Type 0
Stops test [] = Unit {0}
Stops test (c ∷ cs) = test c ≡ false

abbrev pub is_space : ℕ → Bool
is_space c = is_in whitespace c

-- The cursor `t` stands behind the longest run of bytes from `place` on that pass the test.
abbrev pub Skips : (test : ℕ → Bool) (place : ℕ) → List ℕ → Cursor → Type 0
Skips test place l t =
    (run : List ℕ) × (l ≡ run ++ t.rest)
    × All test run
    × (t.place ≡ place + length run)
    × Stops test t.rest

pub skip_space-Skips : (place : ℕ) (l : List ℕ) → Skips is_space place l (skip_space place l)
unfolding skip_space
skip_space-Skips place [] = ([], refl, tt, omega arith, tt)
skip_space-Skips place (c ∷ cs) = elim (Bool-cases (is_in whitespace c)) [
  | inl space ↦
      let (run, e, all, at, stops) = skip_space-Skips (place + 1) cs in
      rw space (c ∷ run, ap (λ l. c ∷ l) e, (space, all), omega (arith, at), stops)
  | inr other ↦ rw other ([], refl, tt, omega arith, other)
]

skip_word-Skips : (place : ℕ) (l : List ℕ) → Skips is_word place l (skip_word place l)
unfolding skip_word
skip_word-Skips place [] = ([], refl, tt, omega arith, tt)
skip_word-Skips place (c ∷ cs) = elim (Bool-cases (is_word c)) [
  | inl word ↦
      let (run, e, all, at, stops) = skip_word-Skips (place + 1) cs in
      rw word (c ∷ run, ap (λ l. c ∷ l) e, (word, all), omega (arith, at), stops)
  | inr other ↦ rw other ([], refl, tt, omega arith, other)
]

abbrev pub is_write : ℕ → Bool
is_write c = c == b'>'

-- The bytes of a token, by its kind, and what may follow them: no second `>` behind a `>`, and no byte
-- of a word behind a word.
abbrev pub IsToken : (tok : ℕ) (text after : List ℕ) → Type 0
IsToken tok text after =
    ((tok ≡ 0) × (text ≡ []) × (after ≡ []))
    ⊎ ((text ≡ tok ∷ []) × (is_in symbols tok ≡ true) × (tok ≡ b'>' → Stops is_write after))
    ⊎ ((tok ≡ b'+') × (text ≡ b'>' ∷ b'>' ∷ []))
    ⊎ ((tok ≡ b'a') × (0 < length text) × All is_word text × Stops is_word after)

-- The token `t` is read from `l` at `q`, which does not begin with white space.
abbrev pub Reads : (q : ℕ) → List ℕ → Token → Type 0
Reads q l t =
    (text : List ℕ) × (after : List ℕ) × (l ≡ text ++ after)
    × IsToken t.tok text after
    × (t.q ≡ q)
    × (t.eq ≡ q + length text)
    × Skips is_space t.eq after t.next

token-Reads :
    (tok q : ℕ) (l text : List ℕ) (s : Cursor)
    → l ≡ text ++ s.rest
    → IsToken tok text s.rest
    → s.place ≡ q + length text
    → Reads q l (token tok q s)
token-Reads tok q l text s e is at =
    (text, s.rest, e, is, refl, at, skip_space-Skips s.place s.rest)

append_or_write-Reads : (q : ℕ) (cs : List ℕ) → Reads q (b'>' ∷ cs) (append_or_write q cs)
append_or_write-Reads q [] =
    token-Reads b'>' q (b'>' ∷ []) (b'>' ∷ []) (record { place = q + 1; rest = [] }) refl
      (inr (inl (refl, refl, λ h. tt))) (omega arith)
append_or_write-Reads q (d ∷ ds) = elim (Bool-cases (d == b'>')) [
  | inl two ↦
      let at : d ≡ b'>' = (==_iff d b'>').0 two in
      rw two (
        token-Reads b'+' q (b'>' ∷ d ∷ ds) (b'>' ∷ b'>' ∷ []) (record { place = q + 2; rest = ds })
          (ap (λ x. b'>' ∷ x ∷ ds) at) (inr (inr (inl (refl, refl)))) (omega arith))
  | inr one ↦ rw one (
      token-Reads b'>' q (b'>' ∷ d ∷ ds) (b'>' ∷ []) (record { place = q + 1; rest = d ∷ ds }) refl
        (inr (inl (refl, refl, λ h. one))) (omega arith))
]

word-Reads :
    (q c : ℕ) (cs : List ℕ)
    → is_word c ≡ true
    → Reads q (c ∷ cs) (token b'a' q (skip_word q (c ∷ cs)))
unfolding skip_word
word-Reads q c cs word =
    let (run, e, all, at, stops) = skip_word-Skips (q + 1) cs in
    rw word (
      token-Reads b'a' q (c ∷ cs) (c ∷ run) (skip_word (q + 1) cs) (ap (λ l. c ∷ l) e)
        (inr (inr (inr (refl, omega arith, (word, all), stops)))) (omega (arith, at)))

plain_word : (c : ℕ) → is_space c ≡ false → is_in symbols c ≡ false → is_word c ≡ true
unfolding is_word
plain_word c a b = rw (a, b) refl

symbol_or_word-Reads :
    (q c : ℕ) (cs : List ℕ)
    → is_space c ≡ false
    → (c == b'>') ≡ false
    → Reads q (c ∷ cs) (symbol_or_word q c cs)
unfolding symbol_or_word
symbol_or_word-Reads q c cs stops other = elim (Bool-cases (is_in symbols c)) [
  | inl symbol ↦ rw (symbol) (
      token-Reads c q (c ∷ cs) (c ∷ []) (record { place = q + 1; rest = cs }) refl
        (inr (inl (refl, symbol, λ h. absurd (ground (arith, h, other))))) (omega arith))
  | inr plain ↦ rw plain (word-Reads q c cs (plain_word c stops plain))
]

token_at-Reads : (q : ℕ) (l : List ℕ) → Stops is_space l → Reads q l (token_at q l)
token_at-Reads q [] stops =
    token-Reads 0 q [] [] (record { place = q; rest = [] }) refl (inl (refl, refl, refl))
      (omega arith)
token_at-Reads q (c ∷ cs) stops = elim (Bool-cases (c == b'>')) [
  | inl write ↦
      let at : b'>' ≡ c = sym ((==_iff c b'>').0 write) in
      subst (λ x. Reads q (x ∷ cs) (token_at q (x ∷ cs))) at (append_or_write-Reads q cs)
  | inr other ↦ rw other (symbol_or_word-Reads q c cs stops other)
]

-- What `gettoken` does at a cursor.
abbrev pub Gets : Cursor → Token → Type 0
Gets s t = (start : Cursor) × Skips is_space s.place s.rest start × Reads start.place start.rest t

-- `gettoken` skips white space, reads one token, and skips the white space behind it. The token is 0
-- at the end of the line, a symbol as itself, but `>` only where no other `>` follows, `+` for `>>`,
-- or `a` for a word: bytes that are neither white space nor symbols, as many as there are. `*q` and `*eq` are where it begins and
-- ends, and `*ps` is left at the next token.
pub gettoken-Gets : (s : Cursor) → Gets s (gettoken s)
unfolding gettoken
gettoken-Gets s =
    let skips = skip_space-Skips s.place s.rest in
    let (run, e, all, at, stops) = skips in
    (
      skip_space s.place s.rest,
      skips,
      token_at-Reads (skip_space s.place s.rest).place (skip_space s.place s.rest).rest stops,
    )
