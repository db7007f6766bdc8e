-- ===== src/Console.antt =====
-- console.c: the input buffer with line editing. `consputc` is the characters sent to the uart.
pub mod Edit
pub mod Read
mod Tests
use pplottery.Prelude.{
  ℕ, zero, suc, ◌%◌, Bool, true, false, ◌&&◌, ◌||◌, not, List, [], ◌∷◌, ◌++◌, ◌==◌, ltb,
  if◌then◌else◌, add32, sub32, get_or, set,
}

abbrev pub input_buf_size : ℕ
input_buf_size = 128

-- `C(x)` for the letters used, and `BACKSPACE`.
abbrev pub ctrl_d : ℕ
ctrl_d = 4

abbrev pub ctrl_h : ℕ
ctrl_h = 8

abbrev pub ctrl_p : ℕ
ctrl_p = 16

abbrev pub ctrl_u : ℕ
ctrl_u = 21

abbrev pub backspace : ℕ
backspace = 0x100

-- `cons`
pub record Cons : Type 0 where
  pub buf : List ℕ
  pub r : ℕ
  pub w : ℕ
  pub e : ℕ

-- What `consputc` sends to the uart.
pub consputc : ℕ → List ℕ
consputc c = if c == backspace then 8 ∷ b' ' ∷ 8 ∷ [] else c ∷ []

-- What an interrupt does besides: the echo, a process list, a wakeup of the readers.
pub record Effects : Type 0 where
  pub echo : List ℕ
  pub dump : Bool
  pub wake : Bool

abbrev quiet : Effects
quiet = record { echo = []; dump = false; wake = false }

-- The test of the loop that kills a line.
abbrev pub can_erase : Cons → Bool
can_erase c = not (c.e == c.w) && not (get_or c.buf (sub32 c.e 1 % input_buf_size) 0 == b'\n')

-- The loop that kills a line, on fuel.
pub kill_line : ℕ → List ℕ → Cons → List ℕ × Cons
kill_line zero out c = (out, c)
kill_line (suc fuel) out c =
    let rest = kill_line fuel (out ++ consputc backspace) (record c { e = sub32 c.e 1 }) in
    if can_erase c then rest else (out, c)

-- The character that is stored, with its newline made plain.
abbrev pub plain : ℕ → ℕ
plain c = if c == b'\r' then b'\n' else c

abbrev pub stored : ℕ → Cons → Cons
stored c s = record s { buf = set s.buf (s.e % input_buf_size) c; e = add32 s.e 1 }

abbrev pub ends_line : ℕ → Cons → Bool
ends_line c s = (c == b'\n') || ((c == ctrl_d) || (sub32 s.e s.r == input_buf_size))

-- The default case of `consoleintr`.
pub accept : ℕ → Cons → Effects × Cons
accept c s =
    let d = plain c in
    let s' = stored d s in
    if not (c == 0) && ltb (sub32 s.e s.r) input_buf_size
    then (if ends_line d s'
        then (record { echo = consputc d; dump = false; wake = true }, record s' { w = s'.e })
        else (record { echo = consputc d; dump = false; wake = false }, s'))
    else (quiet, s)

-- `consoleintr`; at most a buffer full of characters can be killed.
pub consoleintr : ℕ → Cons → Effects × Cons
unfolding kill_line accept
consoleintr c s =
    let killed = kill_line input_buf_size [] s in
    if c == ctrl_p
    then (record quiet { dump = true }, s)
    else if c == ctrl_u
    then (record quiet { echo = killed.0 }, killed.1)
    else if (c == ctrl_h) || (c == 0x7f)
    then (if not (s.e == s.w)
        then (record quiet { echo = consputc backspace }, record s { e = sub32 s.e 1 })
        else (quiet, s))
    else accept c s

-- How a stretch of `consoleread` ends: asleep on `&cons.r`, with -1, or with a return.
pub data ReadEnd : Type 0 where
  sleeps : ReadEnd
  failed : ReadEnd
  returns : ReadEnd

-- The loop of `consoleread` with `n` bytes of `target` to go, until it sleeps or ends: the bytes
-- copied out, the end, and the buffer. `copy n` is whether `either_copyout` succeeds with `n` bytes
-- to go; `killed` is what `killed(myproc())` returns.
pub read_loop : (n target : ℕ) (copy : ℕ → Bool) (killed : Bool) → Cons → List ℕ × ReadEnd × Cons
read_loop zero target copy killed s = ([], returns, s)
read_loop (suc n) target copy killed s =
    let c = get_or s.buf (s.r % input_buf_size) 0 in
    let s' = record s { r = add32 s.r 1 } in
    let rest = read_loop n target copy killed s' in
    if s.r == s.w
    then ([], (if killed then failed else sleeps), s)
    else if c == ctrl_d
    then ([], returns, (if ltb (suc n) target then record s' { r = sub32 s'.r 1 } else s'))
    else if not (copy (suc n))
    then ([], returns, s')
    else if c == b'\n'
    then (c ∷ [], returns, s')
    else (c ∷ rest.0, rest.1, rest.2)
