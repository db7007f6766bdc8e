-- ===== src/Pipe/Transfer.antt =====
-- `pipewrite` and `piperead` move bytes through the pipe in order, without loss or repetition.
use pplottery.Prelude.{
  ℕ, zero, suc, ◌+◌, ◌≤◌, ◌<◌, ◌≡◌, Option, none, some, List, [], ◌∷◌, ◌++◌, length, Bool, true,
  false, ◌⊎◌,
}
use pplottery.Pipe.{
  Pipe, is_full, is_empty, WriteEnd, write_failed, written, write_sleeps, ReadEnd, read_failed,
  read_sleeps, got,
}
use pplottery.Pipe.Contents.{IsValid, contents}

-- The pipe, and the count of bytes handled, at the end of a stretch of `pipewrite`.
abbrev pub pipe_of : WriteEnd → Pipe
pipe_of (write_failed pi) = pi
pipe_of (written i pi) = pi
pipe_of (write_sleeps i pi) = pi

-- The bytes that the caller's memory holds from offset `i` on, `m` of them.
abbrev pub Source : (ℕ → Option ℕ) → (i m : ℕ) → List ℕ → Type 0
Source src i zero l = l ≡ []
Source src i (suc m) [] = ⊥
Source src i (suc m) (ch ∷ l) = (src i ≡ some ch) × Source src (i + 1) m l

-- How far a stretch came that began at offset `i` with `k` bytes to go, and why it ended there.
abbrev pub EndsAt : (k i m : ℕ) (src : ℕ → Option ℕ) (killed : ℕ → Bool) → WriteEnd → Type 0
EndsAt k i m src killed (write_failed pi) =
    (m < k) × ((pi.readopen ≡ false) ⊎ (killed (i + m) ≡ true))
EndsAt k i m src killed (written j pi) = (j ≡ i + m) × ((m ≡ k) ⊎ (src (i + m) ≡ none))
EndsAt k i m src killed (write_sleeps j pi) = (j ≡ i + m) × (m < k) × (is_full pi ≡ true)

-- How the copy loop of `piperead` with `k` bytes to go ends: all that was taken reached the caller,
-- and `k` bytes were copied or the pipe is empty; or one more byte was taken than could be copied out.
abbrev ReadsTo : (k i : ℕ) (dst : ℕ → Bool) → List ℕ × List ℕ × Pipe → Type 0
ReadsTo k i dst (out, lost, pi) =
    (length out ≤ k)
    × (((lost ≡ []) × ((length out ≡ k) ⊎ (is_empty pi ≡ true)))
        ⊎ ((length lost ≡ 1) × (length out < k) × (dst (i + length out) ≡ false)))

-- What a returned `piperead` did to a pipe.
abbrev pub Received : (n : ℕ) (dst : ℕ → Bool) → Pipe → ReadEnd → Type 0
Received n dst pi read_failed = Unit {0}
Received n dst pi read_sleeps = Unit {0}
Received n dst pi (got out lost pi') =
    (contents pi ≡ out ++ (lost ++ contents pi')) × IsValid pi' × ReadsTo n 0 dst (out, lost, pi')
