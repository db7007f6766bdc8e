-- ===== src/Pipe/Contents.antt =====
-- The queue of bytes that a pipe holds, and the buffer's arithmetic against it.
use pplottery.Prelude.{
  ℕ, zero, suc, ◌-◌, ◌%◌, ◌^◌, ◌≤◌, ◌<◌, ◌≡◌, ◌≢◌, refl, ap, ap₂, List, [], ◌∷◌, ◌++◌, arith,
  length, length-set, get_or, set, add32, sub32, false, ◌==◌,
}
use pplottery.Pipe.{Pipe, pipesize, put_byte, get_byte, is_full, is_empty}

pub record IsValid (pi : Pipe) : Type 0 where
  pub buffer : length pi.data_bytes ≡ pipesize
  pub nread_word : pi.nread < 2 ^ 32
  pub nwrite_word : pi.nwrite < 2 ^ 32
  pub fits : sub32 pi.nwrite pi.nread ≤ pipesize

-- The `n` bytes from the count `h` on.
abbrev pub window : List ℕ → (h n : ℕ) → List ℕ
window buf h zero = []
window buf h (suc n) = get_or buf (h % pipesize) 0 ∷ window buf (add32 h 1) n

-- The number of bytes in the pipe, and the bytes, oldest first.
abbrev pub count : Pipe → ℕ
count pi = sub32 pi.nwrite pi.nread

abbrev pub contents : Pipe → List ℕ
contents pi = window pi.data_bytes pi.nread (count pi)

get_or-set_self : (xs : List ℕ) (i v : ℕ) → i < length xs → get_or (set xs i v) i 0 ≡ v
get_or-set_self [] i v h = absurd (omega arith)
get_or-set_self (x ∷ xs) zero v h = refl
get_or-set_self (x ∷ xs) (suc i) v h = get_or-set_self xs i v (omega arith)

get_or-set_ne : (xs : List ℕ) (i j v : ℕ) → i ≢ j → get_or (set xs i v) j 0 ≡ get_or xs j 0
get_or-set_ne [] i j v h = refl
get_or-set_ne (x ∷ xs) zero zero v h = absurd (h refl)
get_or-set_ne (x ∷ xs) zero (suc j) v h = refl
get_or-set_ne (x ∷ xs) (suc i) zero v h = refl
get_or-set_ne (x ∷ xs) (suc i) (suc j) v h = get_or-set_ne xs i j v (λ e. h (ap suc e))

-- A byte written just past a window of fewer than `pipesize` bytes extends it.
window-set :
    (buf : List ℕ) (ch n h w : ℕ)
    → length buf ≡ pipesize
    → h < 2 ^ 32
    → n < pipesize
    → w ≡ add32 h n
    → window (set buf (w % pipesize) ch) h (suc n) ≡ window buf h n ++ (ch ∷ [])
window-set buf ch zero h w len word lt e =
    let same : w % pipesize ≡ h % pipesize = omega arith in
    rw (same, get_or-set_self buf (h % pipesize) ch (omega arith))
window-set buf ch (suc n) h w len word lt e =
    ap₂ ◌∷◌ (get_or-set_ne buf (w % pipesize) (h % pipesize) ch (omega arith))
      (window-set buf ch n (add32 h 1) w len (omega arith) (omega arith) (omega arith))

-- A pipe is not full while it holds fewer than `pipesize` bytes, and empty if it holds none.
is_full-count : {pi : Pipe} → IsValid pi → is_full pi ≡ (count pi == pipesize)
is_full-count v = ground arith

pub is_empty-count : {pi : Pipe} → IsValid pi → is_empty pi ≡ (count pi == 0)
is_empty-count v = ground arith

-- A byte written to a valid pipe that is not full goes to the end of its contents.
pub put_byte-contents :
    {pi : Pipe} (ch : ℕ)
    → IsValid pi
    → is_full pi ≡ false
    → IsValid (put_byte ch pi) × (contents (put_byte ch pi) ≡ contents pi ++ (ch ∷ []))
unfolding put_byte
put_byte-contents {pi} ch v room =
    let below : count pi < pipesize = ground (arith, is_full-count v) in
    let more : sub32 (add32 pi.nwrite 1) pi.nread ≡ suc (count pi) = omega arith in
    (
      ground (arith, length-set pi.data_bytes (pi.nwrite % pipesize) ch),
      rw more (
          window-set pi.data_bytes ch (count pi) pi.nread pi.nwrite v.buffer v.nread_word below
            (omega arith)),
    )

window-pos :
    (buf : List ℕ) (h n : ℕ)
    → 0 < n
    → window buf h n ≡ get_or buf (h % pipesize) 0 ∷ window buf (add32 h 1) (n - 1)
window-pos buf h zero pos = absurd (omega arith)
window-pos buf h (suc n) pos = ap (λ k. window buf h (suc k)) (omega arith)

-- A byte read from a valid pipe that is not empty is the first of its contents.
pub get_byte-contents :
    {pi : Pipe}
    → IsValid pi
    → is_empty pi ≡ false
    → IsValid (get_byte pi).1 × (contents pi ≡ (get_byte pi).0 ∷ contents (get_byte pi).1)
unfolding get_byte
get_byte-contents {pi} v some_left =
    let above : 0 < count pi = ground (arith, is_empty-count v) in
    let less : sub32 pi.nwrite (add32 pi.nread 1) ≡ count pi - 1 = omega arith in
    (omega arith, rw less (window-pos pi.data_bytes pi.nread (count pi) above))
