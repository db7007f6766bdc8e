-- ===== src/Sh.antt =====
-- sh.c: the tokens and the parser of the shell. A pointer into the line is a cursor: its place, and
-- the bytes from there to the NUL.
pub mod Tokens
pub mod Args
pub mod Fuel
mod Tests
use pplottery.Prelude.{
  ℕ, zero, suc, ◌+◌, Bool, true, false, not, ◌&&◌, List, [], ◌∷◌, ◌++◌, ◌==◌, leb, if◌then◌else◌,
  ◌≡◌, ◌⊎◌, inl, inr, refl,
}

pub record Cursor : Type 0 where
  pub place : ℕ
  pub rest : List ℕ

-- `strchr(set, c)` is not null, of a byte that is not NUL.
abbrev pub is_in : List ℕ → ℕ → Bool
is_in [] c = false
is_in (x ∷ xs) c = if c == x then true else is_in xs c

abbrev pub whitespace : List ℕ
whitespace = 32 ∷ 9 ∷ 13 ∷ 10 ∷ 11 ∷ []

abbrev pub symbols : List ℕ
symbols = b'<' ∷ b'|' ∷ b'>' ∷ b'&' ∷ b';' ∷ b'(' ∷ b')' ∷ []

-- `while(s < es && strchr(whitespace, *s)) s++;`
pub skip_space : (place : ℕ) → List ℕ → Cursor
skip_space place [] = record { place = place; rest = [] }
skip_space place (c ∷ cs) =
    let later = skip_space (place + 1) cs in
    if is_in whitespace c then later else record { place = place; rest = c ∷ cs }

pub is_word : ℕ → Bool
is_word c = not (is_in whitespace c) && not (is_in symbols c)

-- The loop over a word.
pub skip_word : (place : ℕ) → List ℕ → Cursor
unfolding is_word
skip_word place [] = record { place = place; rest = [] }
skip_word place (c ∷ cs) =
    let later = skip_word (place + 1) cs in
    if is_word c then later else record { place = place; rest = c ∷ cs }

-- What `gettoken` returns: the token, `*q` and `*eq`, and the new `*ps`.
pub record Token : Type 0 where
  pub tok : ℕ
  pub q : ℕ
  pub eq : ℕ
  pub next : Cursor

abbrev pub token : (tok q : ℕ) → Cursor → Token
token tok q s = record { tok = tok; q = q; eq = s.place; next = skip_space s.place s.rest }

-- After `>`.
abbrev pub append_or_write : (q : ℕ) → List ℕ → Token
append_or_write q [] = token b'>' q (record { place = q + 1; rest = [] })
append_or_write q (d ∷ ds) =
    if d == b'>'
    then token b'+' q (record { place = q + 2; rest = ds })
    else token b'>' q (record { place = q + 1; rest = d ∷ ds })

-- The cases of the switch but NUL and `>`.
pub symbol_or_word : (q c : ℕ) → List ℕ → Token
symbol_or_word q c cs =
    if is_in symbols c
    then token c q (record { place = q + 1; rest = cs })
    else token b'a' q (skip_word q (c ∷ cs))

abbrev pub token_at : (q : ℕ) → List ℕ → Token
token_at q [] = token 0 q (record { place = q; rest = [] })
token_at q (c ∷ cs) = if c == b'>' then append_or_write q cs else symbol_or_word q c cs

pub gettoken : Cursor → Token
unfolding skip_space symbol_or_word skip_word
gettoken s = let t = skip_space s.place s.rest in token_at t.place t.rest

abbrev pub starts_with : List ℕ → List ℕ → Bool
starts_with toks [] = false
starts_with toks (c ∷ cs) = is_in toks c

-- `peek`: the new `*ps`, and the result.
pub peek : List ℕ → Cursor → Bool × Cursor
unfolding skip_space
peek toks s = let t = skip_space s.place s.rest in (starts_with toks t.rest, t)

-- `struct redircmd` without its command, and the commands. A string is its `q` and `eq`.
pub record Redir : Type 0 where
  pub file : ℕ × ℕ
  pub mode : ℕ
  pub fd : ℕ

pub data Cmd : Type 0 where
  exec : List (ℕ × ℕ) → Cmd
  redir : Redir → Cmd → Cmd
  pipe list : Cmd → Cmd → Cmd
  back : Cmd → Cmd

-- `O_WRONLY|O_CREATE|O_TRUNC` and `O_WRONLY|O_CREATE`
abbrev pub redirection : (tok : ℕ) → ℕ × ℕ → Redir
redirection tok file =
    if tok == b'<'
    then record { file = file; mode = 0; fd = 0 }
    else if tok == b'>'
    then record { file = file; mode = 0x601; fd = 1 }
    else record { file = file; mode = 0x201; fd = 1 }

-- What a part of the parser comes to, on fuel: what it has read, or no result. The shell panics on a
-- syntax error and on too many arguments; a run that is out of fuel has not come to its end.
pub data Failure : Type 0 where
  panicked : Failure
  out_of_fuel : Failure

pub data Parse (A : Type 0) : Type 0 where
  parsed : A → Parse A
  failed : Failure → Parse A

pub Parse-cases :
    {A : Type 0} (r : Parse A) → ((x : Failure) × (r ≡ failed x)) ⊎ ((a : A) × (r ≡ parsed a))
Parse-cases (failed x) = inl (x, refl)
Parse-cases (parsed a) = inr (a, refl)

-- The loop of `parseredirs`, on fuel: the redirections in order. They are kept apart from their
-- command, whose arguments `parseexec` fills in later, in place.
pub parseredirs : (fuel : ℕ) → Cursor → Parse (List Redir × Cursor)
unfolding gettoken peek
parseredirs zero s = failed out_of_fuel
parseredirs (suc fuel) s =
    let (here, s1) = peek (b'<' ∷ b'>' ∷ []) s in
    let t = gettoken s1 in
    let f = gettoken t.next in
    let more : Parse (List Redir × Cursor) = elim (parseredirs fuel f.next) [
      | failed x ↦ failed x
      | parsed (rs, s2) ↦ parsed (redirection t.tok (f.q, f.eq) ∷ rs, s2)
    ] in
    if not here then parsed ([], s1) else if not (f.tok == b'a') then failed panicked else more

-- Each redirection stands around the command with those before it.
abbrev pub redirected : List Redir → Cmd → Cmd
redirected [] cmd = cmd
redirected (r ∷ rs) cmd = redirected rs (redir r cmd)

abbrev pub maxargs : ℕ
maxargs = 10

-- The loop of `parseexec`, on fuel, after `argc` arguments: the others and the redirections.
pub parseargs : (fuel argc : ℕ) → Cursor → Parse ((List (ℕ × ℕ) × List Redir) × Cursor)
unfolding parseredirs
parseargs zero argc s = failed out_of_fuel
parseargs (suc fuel) argc s =
    let (stop, s1) = peek (b'|' ∷ b')' ∷ b'&' ∷ b';' ∷ []) s in
    let t = gettoken s1 in
    let more : Parse ((List (ℕ × ℕ) × List Redir) × Cursor) = elim (parseredirs fuel t.next) [
      | failed x ↦ failed x
      | parsed (rs, s2) ↦ elim (parseargs fuel (argc + 1) s2) [
        | failed x ↦ failed x
        | parsed ((args, rs'), s3) ↦ parsed (((t.q, t.eq) ∷ args, rs ++ rs'), s3)
      ]
    ] in
    if stop
    then parsed (([], []), s1)
    else if t.tok == 0
    then parsed (([], []), t.next)
    else if not (t.tok == b'a')
    then failed panicked
    else if leb maxargs (argc + 1)
    then failed panicked
    else more

-- `line` stands for `parseline`, which the functions below call on what is left.
pub parseblock : (fuel : ℕ) (line : Cursor → Parse (Cmd × Cursor)) → Cursor → Parse (Cmd × Cursor)
unfolding parseredirs
parseblock fuel line s =
    let (here, s1) = peek (b'(' ∷ []) s in
    let inside : Parse (Cmd × Cursor) = elim (line (gettoken s1).next) [
      | failed x ↦ failed x
      | parsed (cmd, s2) ↦
          let (closed, s3) = peek (b')' ∷ []) s2 in
          let tail : Parse (Cmd × Cursor) = elim (parseredirs fuel (gettoken s3).next) [
            | failed x ↦ failed x
            | parsed (rs, s4) ↦ parsed (redirected rs cmd, s4)
          ] in
          if not closed then failed panicked else tail
    ] in
    if not here then failed panicked else inside

pub parseexec : (fuel : ℕ) (line : Cursor → Parse (Cmd × Cursor)) → Cursor → Parse (Cmd × Cursor)
unfolding parseblock parseargs
parseexec fuel line s =
    let (paren, s1) = peek (b'(' ∷ []) s in
    let block = parseblock fuel line s1 in
    let plain : Parse (Cmd × Cursor) = elim (parseredirs fuel s1) [
      | failed x ↦ failed x
      | parsed (rs, s2) ↦ elim (parseargs fuel 0 s2) [
        | failed x ↦ failed x
        | parsed ((args, rs'), s3) ↦ parsed (redirected (rs ++ rs') (exec args), s3)
      ]
    ] in
    if paren then block else plain

pub parsepipe : (n fuel : ℕ) (line : Cursor → Parse (Cmd × Cursor)) → Cursor → Parse (Cmd × Cursor)
unfolding parseexec
parsepipe zero fuel line s = failed out_of_fuel
parsepipe (suc n) fuel line s = elim (parseexec fuel line s) [
  | failed x ↦ failed x
  | parsed (cmd, s1) ↦
      let (more, s2) = peek (b'|' ∷ []) s1 in
      let next : Parse (Cmd × Cursor) = elim (parsepipe n fuel line (gettoken s2).next) [
        | failed x ↦ failed x
        | parsed (cmd', s3) ↦ parsed (pipe cmd cmd', s3)
      ] in
      if more then next else parsed (cmd, s2)
]

-- `while(peek(ps, es, "&"))`, on fuel.
pub parseback : (fuel : ℕ) → Cmd → Cursor → Parse (Cmd × Cursor)
unfolding peek gettoken
parseback zero cmd s = failed out_of_fuel
parseback (suc fuel) cmd s =
    let (more, s1) = peek (b'&' ∷ []) s in
    let next = parseback fuel (back cmd) (gettoken s1).next in
    if more then next else parsed (cmd, s1)

-- `parseline`, on fuel.
pub parseline : (fuel : ℕ) → Cursor → Parse (Cmd × Cursor)
unfolding parsepipe parseback
parseline zero s = failed out_of_fuel
parseline (suc fuel) s = elim (parsepipe fuel fuel (parseline fuel) s) [
  | failed x ↦ failed x
  | parsed (cmd, s1) ↦ elim (parseback fuel cmd s1) [
    | failed x ↦ failed x
    | parsed (cmd', s2) ↦
        let (more, s3) = peek (b';' ∷ []) s2 in
        let next : Parse (Cmd × Cursor) = elim (parseline fuel (gettoken s3).next) [
          | failed x ↦ failed x
          | parsed (cmd'', s4) ↦ parsed (list cmd' cmd'', s4)
        ] in
        if more then next else parsed (cmd', s3)
  ]
]

-- `*eq = 0`, of each string of a command, in the line `buf`.
abbrev pub terminate : List (ℕ × ℕ) → (ℕ → ℕ) → ℕ → ℕ
terminate [] buf = buf
terminate ((q, eq) ∷ ss) buf = terminate ss (λ x. if x == eq then 0 else buf x)

pub nulterminate : Cmd → (ℕ → ℕ) → ℕ → ℕ
nulterminate (exec args) buf = terminate args buf
nulterminate (redir r cmd) buf = terminate (r.file ∷ []) (nulterminate cmd buf)
nulterminate (pipe l r) buf = nulterminate r (nulterminate l buf)
nulterminate (list l r) buf = nulterminate r (nulterminate l buf)
nulterminate (back cmd) buf = nulterminate cmd buf

-- The parse of a line, before `nulterminate`.
pub parsecmd : (fuel : ℕ) → List ℕ → Parse Cmd
unfolding parseline
parsecmd fuel line = elim (parseline fuel (record { place = 0; rest = line })) [
  | failed x ↦ failed x
  | parsed (cmd, s) ↦ elim ((peek [] s).1.rest) [ [] ↦ parsed cmd | c ∷ cs ↦ failed panicked ]
]
