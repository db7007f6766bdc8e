-- ===== src/Console/Read.antt =====
-- `consoleread`: what a reader gets is the committed input, in order, each byte once.
use pplottery.Prelude.{
  ℕ, zero, suc, ◌+◌, ◌%◌, ◌≤◌, ◌<◌, ◌≡◌, refl, ap, ◌∙◌, Bool, true, false, List, [], ◌∷◌, ◌++◌,
  ◌==◌, ==_iff, if◌then◌else◌, ltb, add32, sub32, get_or, length, arith, Bool-cases, inl, inr,
}
use pplottery.Console.{Cons, input_buf_size, read_loop, ReadEnd, sleeps, failed, returns, ctrl_d}
use pplottery.Console.Edit.{IsValid}

-- The `n` bytes from index `r` on.
abbrev pub window : List ℕ → (r n : ℕ) → List ℕ
window buf r zero = []
window buf r (suc n) = get_or buf (r % input_buf_size) 0 ∷ window buf (add32 r 1) n

-- The committed bytes that have not been read.
abbrev pending : Cons → List ℕ
pending s = window s.buf s.r (sub32 s.w s.r)

-- No byte copied out is ^D, and none but the last is a newline.
abbrev pub Plain : List ℕ → Type 0
Plain [] = Unit {0}
Plain (c ∷ cs) = ((c == ctrl_d) ≡ false) × ((c == b'\n') ≡ true → cs ≡ []) × Plain cs

-- Why a stretch has ended, with `left` bytes still to go and `dropped` taken but not copied out: all
-- bytes asked for are there; a newline has been copied; ^D comes next, which is left in the buffer
-- if there was a byte before it and otherwise dropped; a byte could not be copied and is dropped;
-- or there are no more bytes, and it fails if the process is killed and sleeps if it is not.
pub data Stop (left target : ℕ) (copy : ℕ → Bool) (killed : Bool) (out dropped : List ℕ)
    (end : ReadEnd) (s' : Cons) : Type 0 where
  enough : left ≡ 0 → dropped ≡ [] → end ≡ returns → Stop left target copy killed out dropped end s'
  newline :
      (before : List ℕ)
      → out ≡ before ++ (b'\n' ∷ [])
      → dropped ≡ []
      → end ≡ returns
      → Stop left target copy killed out dropped end s'
  eof_kept :
      (rest : List ℕ)
      → 0 < left
      → left < target
      → pending s' ≡ ctrl_d ∷ rest
      → dropped ≡ []
      → end ≡ returns
      → Stop left target copy killed out dropped end s'
  eof_taken :
      0 < left
      → target ≤ left
      → dropped ≡ ctrl_d ∷ []
      → end ≡ returns
      → Stop left target copy killed out dropped end s'
  not_copied :
      (c : ℕ)
      → 0 < left
      → (c == ctrl_d) ≡ false
      → copy left ≡ false
      → dropped ≡ c ∷ []
      → end ≡ returns
      → Stop left target copy killed out dropped end s'
  drained :
      0 < left
      → pending s' ≡ []
      → dropped ≡ []
      → end ≡ (if killed then failed else sleeps)
      → Stop left target copy killed out dropped end s'

Stop-more :
    {left target : ℕ} {copy : ℕ → Bool} {killed : Bool} {out dropped : List ℕ} {end : ReadEnd}
    {s' : Cons} (c : ℕ)
    → Stop left target copy killed out dropped end s'
    → Stop left target copy killed (c ∷ out) dropped end s'
Stop-more c (enough a d e) = enough a d e
Stop-more c (newline before o d e) = newline (c ∷ before) (ap (λ l. c ∷ l) o) d e
Stop-more c (eof_kept rest a b p d e) = eof_kept rest a b p d e
Stop-more c (eof_taken a b d e) = eof_taken a b d e
Stop-more c (not_copied x a b f d e) = not_copied x a b f d e
Stop-more c (drained a p d e) = drained a p d e

-- How a stretch that began on `s` with `n` bytes to go is related to the committed bytes: those
-- copied out, then at most one more that is taken and not copied out, then those still there; and
-- why it has ended.
pub record Reads (n target : ℕ) (copy : ℕ → Bool) (killed : Bool) (s : Cons) (out : List ℕ)
    (end : ReadEnd) (s' : Cons) : Type 0 where
  left : ℕ
  dropped : List ℕ
  count : length out + left ≡ n
  split : pending s ≡ out ++ (dropped ++ pending s')
  plain : Plain out
  copied : (k : ℕ) → left < k → k ≤ n → copy k ≡ true
  stop : Stop left target copy killed out dropped end s'
  pub valid : IsValid s'

pending-step :
    (s : Cons)
    → IsValid s
    → (s.r == s.w) ≡ false
    → (pending s ≡ get_or s.buf (s.r % input_buf_size) 0 ∷ pending (record s { r = add32 s.r 1 }))
      × IsValid (record s { r = add32 s.r 1 })
pending-step s v ne =
    let one_more : sub32 s.w s.r ≡ suc (sub32 s.w (add32 s.r 1)) = ground (arith, v.words) in
    (rw one_more refl, ground arith)

pending-none : (s : Cons) → IsValid s → (s.r == s.w) ≡ true → pending s ≡ []
pending-none s v e =
    let none_left : sub32 s.w s.r ≡ 0 = ground (arith, v.words) in rw none_left refl

step_back : (s : Cons) → IsValid s → record s { r = sub32 (add32 s.r 1) 1 } ≡ s
step_back s v =
    let same : sub32 (add32 s.r 1) 1 ≡ s.r = ground (arith, v.words) in
    ap (λ r. record s { r = r }) same

-- A stretch that ends before a byte is copied out.
ended :
    {n target : ℕ} {copy : ℕ → Bool} {killed : Bool} {s s' : Cons} {end : ReadEnd}
    (dropped : List ℕ)
    → pending s ≡ dropped ++ pending s'
    → IsValid s'
    → Stop n target copy killed [] dropped end s'
    → Reads n target copy killed s [] end s'
ended {n} dropped split valid stop = record {
  left = n;
  dropped = dropped;
  count = omega arith;
  split = split;
  plain = tt;
  copied = λ k low high. absurd (omega (arith, low, high));
  stop = stop;
  valid = valid;
}

-- One byte more before the stretch: there is nothing behind a newline.
one_more :
    {n target : ℕ} {copy : ℕ → Bool} {killed : Bool} {s s1 s' : Cons} {out : List ℕ} {end : ReadEnd}
    (c : ℕ)
    → pending s ≡ c ∷ pending s1
    → (c == ctrl_d) ≡ false
    → copy (suc n) ≡ true
    → ((c == b'\n') ≡ true → out ≡ [])
    → Reads n target copy killed s1 out end s'
    → Reads (suc n) target copy killed s (c ∷ out) end s'
one_more {n} {copy = copy} c step x good last r = record {
  left = r.left;
  dropped = r.dropped;
  count = omega (arith, r.count);
  split = step ∙ ap (λ l. c ∷ l) r.split;
  plain = (x, last, r.plain);
  copied = λ k low high. elim (Bool-cases (k == suc n)) [
    | inl here ↦ let at : k ≡ suc n = (==_iff k (suc n)).0 here in rw at good
    | inr below ↦ r.copied k low (ground arith)
  ];
  stop = Stop-more c r.stop;
  valid = r.valid;
}

-- A stretch of one newline.
line_ended :
    {n target : ℕ} {copy : ℕ → Bool} {killed : Bool} {s s1 : Cons} (c : ℕ)
    → pending s ≡ c ∷ pending s1
    → (c == ctrl_d) ≡ false
    → copy (suc n) ≡ true
    → (c == b'\n') ≡ true
    → IsValid s1
    → Reads (suc n) target copy killed s (c ∷ []) returns s1
line_ended {n} {copy = copy} c step x good line v = record {
  left = n;
  dropped = [];
  count = omega arith;
  split = step;
  plain = (x, (λ h. refl), tt);
  copied = λ k low high. let at : k ≡ suc n = omega (arith, low, high) in rw at good;
  stop = newline [] (ap (λ x. x ∷ []) ((==_iff c b'\n').0 line)) refl refl;
  valid = v;
}

-- What `consoleread` copies out are the first of the committed bytes that have not been read, in
-- order, at most `n` of them: no ^D, and no newline but as the last. It stops only when `n` bytes are
-- copied, behind a newline, at a ^D, at a byte that cannot be copied, or when all committed bytes are
-- read; in the last case it fails if the process is killed and sleeps if not, and in all others it
-- returns. A ^D behind other bytes stays in the buffer; a ^D that comes first is taken from it, and so
-- is the byte that cannot be copied, which is lost. The buffer stays valid.
pub read_loop-Reads :
    (n target : ℕ) (copy : ℕ → Bool) (killed : Bool) (s : Cons)
    → IsValid s
    → let (out, end, s') = read_loop n target copy killed s in
      Reads n target copy killed s out end s'
unfolding read_loop
read_loop-Reads zero target copy killed s v = ended [] refl v (enough refl refl refl)
read_loop-Reads (suc n) target copy killed s v =
    let c = get_or s.buf (s.r % input_buf_size) 0 in
    let s1 = record s { r = add32 s.r 1 } in
    elim (Bool-cases (s.r == s.w)) [
      | inl empty ↦
          rw empty (ended [] refl v (drained (omega arith) (pending-none s v empty) refl refl))
      | inr more ↦
          let (step, v1) = pending-step s v more in
          elim (Bool-cases (c == ctrl_d)) [
            | inl eof ↦
                let at : c ≡ ctrl_d = (==_iff c ctrl_d).0 eof in
                elim (Bool-cases (ltb (suc n) target)) [
                  | inl later ↦
                      let next : pending s ≡ ctrl_d ∷ pending s1 =
                        step ∙ ap (λ x. x ∷ pending s1) at in
                      rw (more, eof, later, step_back s v)
                        (ended [] refl v
                          (eof_kept (pending s1) (omega arith) (ground arith) next refl refl))
                  | inr first ↦
                      rw (more, eof, first)
                        (ended (c ∷ []) step v1
                          (eof_taken (omega arith) (ground arith) (ap (λ x. x ∷ []) at) refl))
                ]
            | inr x ↦ elim (Bool-cases (copy (suc n))) [
              | inr bad ↦
                  rw (more, x, bad)
                    (ended (c ∷ []) step v1 (not_copied c (omega arith) x bad refl refl))
              | inl good ↦ elim (Bool-cases (c == b'\n')) [
                | inl line ↦ rw (more, x, good, line) (line_ended c step x good line v1)
                | inr y ↦
                    rw (more, x, good, y)
                      (one_more c step x good (λ h. absurd (ground (arith, h, y)))
                        (read_loop-Reads n target copy killed s1 v1))
              ]
            ]
          ]
    ]
