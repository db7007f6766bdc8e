-- ===== src/Console/Edit.antt =====
-- `consoleintr`: the indices stay in order, and committed input is never changed.
use pplottery.Prelude.{
  ℕ, zero, suc, ◌%◌, ◌^◌, ◌<◌, ◌≤◌, ◌≡◌, ◌≢◌, refl, ap, false, ◌&&◌, ◌||◌, not, List, [], ◌∷◌, ◌++◌,
  ◌==◌, ltb, add32, sub32, get_or, set, length, length-set, arith, Bool-cases, inl, inr,
}
use pplottery.Console.{
  Cons, input_buf_size, consputc, can_erase, kill_line, plain, stored, ends_line, accept,
  consoleintr, ctrl_p, ctrl_u, ctrl_h, backspace,
}

-- From `r` to `w` stands committed input, from `w` to `e` the line being edited; all fits the buffer.
pub record IsValid (s : Cons) : Type 0 where
  pub buffer : length s.buf ≡ input_buf_size
  pub words : (s.r < 2 ^ 32) × (s.w < 2 ^ 32) × (s.e < 2 ^ 32)
  pub ordered : sub32 s.w s.r ≤ sub32 s.e s.r
  pub fits : sub32 s.e s.r ≤ input_buf_size

-- The committed byte number `k`.
abbrev committed : Cons → ℕ → ℕ
committed s k = get_or s.buf (add32 s.r k % input_buf_size) 0

-- A state in which the committed input of `s` is the beginning of the committed input.
pub record Keeps (s s' : Cons) : Type 0 where
  pub valid : IsValid s'
  same_r : s'.r ≡ s.r
  grows : sub32 s.w s.r ≤ sub32 s'.w s'.r
  pub kept : (k : ℕ) → k < sub32 s.w s.r → committed s' k ≡ committed s k

get_or-set_ne : (xs : List ℕ) (i j v : ℕ) → i ≢ j → get_or (set xs i v) j 0 ≡ get_or xs j 0
get_or-set_ne [] i j v h = refl
get_or-set_ne (x ∷ xs) zero zero v h = absurd (h refl)
get_or-set_ne (x ∷ xs) zero (suc j) v h = refl
get_or-set_ne (x ∷ xs) (suc i) zero v h = refl
get_or-set_ne (x ∷ xs) (suc i) (suc j) v h = get_or-set_ne xs i j v (λ e. h (ap suc e))

unchanged-Keeps : (s : Cons) → IsValid s → Keeps s s
unchanged-Keeps s v = record { valid = v; same_r = refl; grows = omega arith; kept = λ k lt. refl }

erase-Keeps : (s : Cons) → IsValid s → (s.e == s.w) ≡ false → Keeps s (record s { e = sub32 s.e 1 })
erase-Keeps s v ne = record {
  valid = ground arith;
  same_r = refl;
  grows = omega arith;
  kept = λ k lt. refl;
}

kill_line-Keeps :
    (fuel : ℕ) (out : List ℕ) (s : Cons) → IsValid s → Keeps s (kill_line fuel out s).1
unfolding kill_line
kill_line-Keeps zero out s v = unchanged-Keeps s v
kill_line-Keeps (suc fuel) out s v = elim (Bool-cases (can_erase s)) [
  | inl more ↦
      let s1 = record s { e = sub32 s.e 1 } in
      let step = erase-Keeps s v (ground arith) in
      let k = kill_line-Keeps fuel (out ++ consputc backspace) s1 step.valid in
      rw (more, kill_line)
        (record { valid = k.valid; same_r = k.same_r; grows = k.grows; kept = k.kept })
  | inr done ↦ rw (done, kill_line) (unchanged-Keeps s v)
]

-- The loop that kills a line has ended when the fuel is the length of the line or more.
kill_line-can_erase :
    (fuel : ℕ) (out : List ℕ) (s : Cons)
    → s.e < 2 ^ 32
    → s.w < 2 ^ 32
    → sub32 s.e s.w ≤ fuel
    → can_erase (kill_line fuel out s).1 ≡ false
unfolding kill_line
kill_line-can_erase zero out s we ww enough = ground arith
kill_line-can_erase (suc fuel) out s we ww enough = elim (Bool-cases (can_erase s)) [
  | inl more ↦
      let s1 = record s { e = sub32 s.e 1 } in
      let rest =
        kill_line-can_erase fuel (out ++ consputc backspace) s1 (omega arith) ww (ground arith) in
      rw (more, kill_line) rest
  | inr done ↦ rw (done, kill_line) done
]

stored_kept :
    (c : ℕ) (s : Cons)
    → IsValid s
    → sub32 s.e s.r < input_buf_size
    → (k : ℕ) → k < sub32 s.w s.r
    → committed (stored c s) k ≡ committed s k
stored_kept c s v room k lt =
    get_or-set_ne s.buf (s.e % input_buf_size) (add32 s.r k % input_buf_size) c (omega arith)

stored-Keeps :
    (c : ℕ) (s : Cons)
    → IsValid s
    → sub32 s.e s.r < input_buf_size
    → Keeps s (stored c s) × Keeps s (record (stored c s) { w = (stored c s).e })
stored-Keeps c s v room = (
  record {
    valid = ground (arith, length-set s.buf (s.e % input_buf_size) c);
    same_r = refl;
    grows = omega arith;
    kept = stored_kept c s v room;
  },
  record {
    valid = ground (arith, length-set s.buf (s.e % input_buf_size) c);
    same_r = refl;
    grows = omega arith;
    kept = stored_kept c s v room;
  },
)

accept-Keeps : (c : ℕ) (s : Cons) → IsValid s → Keeps s (accept c s).1
unfolding accept
accept-Keeps c s v = elim (Bool-cases (not (c == 0) && ltb (sub32 s.e s.r) input_buf_size)) [
  | inl room ↦
      let (edit, commit) = stored-Keeps (plain c) s v (ground arith) in
      elim (Bool-cases (ends_line (plain c) (stored (plain c) s))) [
        | inl line ↦ rw (room, line) commit
        | inr more ↦ rw (room, more) edit
      ]
  | inr full ↦ rw full (unchanged-Keeps s v)
]

-- Whatever character arrives, `consoleintr` keeps the indices in order and the buffer from
-- overflowing, does not move the read index, and changes no byte of the committed input, to
-- which it can only add.
pub consoleintr-Keeps : (c : ℕ) (s : Cons) → IsValid s → Keeps s (consoleintr c s).1
unfolding consoleintr
consoleintr-Keeps c s v =
    let same = unchanged-Keeps s v in
    let killed = kill_line-Keeps input_buf_size [] s v in
    elim (Bool-cases (c == ctrl_p)) [
      | inl dump ↦ rw (dump) same
      | inr x ↦ elim (Bool-cases (c == ctrl_u)) [
        | inl kill ↦ rw (x, kill) killed
        | inr y ↦ elim (Bool-cases ((c == ctrl_h) || (c == 0x7f))) [
          | inl erase ↦ elim (Bool-cases (s.e == s.w)) [
            | inl none ↦ rw (x, y, erase, none) same
            | inr some_left ↦ rw (x, y, erase, some_left) (erase-Keeps s v some_left)
          ]
          | inr z ↦ rw (x, y, z) (accept-Keeps c s v)
        ]
      ]
    ]
