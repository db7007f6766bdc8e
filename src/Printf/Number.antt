-- ===== src/Printf/Number.antt =====
-- What `printint` writes in base 10 is read back by the `atoi` of ulib.c.
use pplottery.Prelude.{
  ℕ, zero, suc, ◌+◌, ◌*◌, ◌/◌, ◌%◌, ◌^◌, ◌<◌, ◌≡◌, ap, ◌∙◌, true, false, some, List, [], ◌∷◌, ◌==◌,
  arith, Bool-cases, inl, inr,
}
use pplottery.Ulib.{atoi, atoi_from}
use pplottery.Printf.{digit, fill_buf, printint}

atoi_from-digit :
    (n d : ℕ) (s : List ℕ)
    → d < 10
    → n * 10 + d < 2 ^ 32
    → atoi_from n (digit d ∷ s) ≡ atoi_from (n * 10 + d) s
unfolding atoi_from
atoi_from-digit n d s small fits = ground arith

-- A round of the loop that is the last one.
fill_buf-last :
    (fuel x : ℕ) (buf : List ℕ)
    → (x / 10 == 0) ≡ true
    → (out : List ℕ) × (fill_buf (suc fuel) 10 x buf ≡ some out)
      × (atoi_from 0 out ≡ atoi_from x buf)
unfolding fill_buf
fill_buf-last fuel x buf last =
    let small : 0 * 10 + x % 10 ≡ x = ground arith in
    (
      digit (x % 10) ∷ buf,
      rw last,
      atoi_from-digit 0 (x % 10) buf (omega arith) (omega arith) ∙ ap (λ n. atoi_from n buf) small,
    )

fill_buf-atoi :
    (fuel x : ℕ) (buf : List ℕ)
    → x < 2 ^ suc fuel
    → x < 2 ^ 32
    → (out : List ℕ) × (fill_buf (suc fuel) 10 x buf ≡ some out)
      × (atoi_from 0 out ≡ atoi_from x buf)
unfolding fill_buf
fill_buf-atoi zero x buf e fits =
    fill_buf-last zero x buf (let small : x / 10 ≡ 0 = omega arith in rw small)
fill_buf-atoi (suc fuel) x buf e fits = elim (Bool-cases (x / 10 == 0)) [
  | inl last ↦ fill_buf-last (suc fuel) x buf last
  | inr more ↦
      let (out, run, read) =
        fill_buf-atoi fuel (x / 10) (digit (x % 10) ∷ buf) (omega arith) (omega arith) in
      let read' = atoi_from-digit (x / 10) (x % 10) buf (omega arith) (omega arith) in
      (out, rw more run, read ∙ (read' ∙ ap (λ n. atoi_from n buf) (omega arith)))
]

-- Every 32-bit number that `printint` writes in base 10 without a sign is the number that `atoi`
-- reads from what it has written.
pub atoi-printint :
    (x : ℕ) → x < 2 ^ 32 → (out : List ℕ) × (printint x 10 false ≡ some out) × (atoi out ≡ x)
unfolding printint atoi
atoi-printint x fits =
    let (out, run, read) = fill_buf-atoi 31 x [] fits fits in
    let same : x % 2 ^ 32 ≡ x = omega arith in (out, rw (printint, same, run), read)
