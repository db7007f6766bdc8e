-- ===== src/Fs/Bitmap.antt =====
-- The allocator of disk blocks of fs.c: `balloc` takes the first free block, `bfree` gives one back.
pub mod Bits
use pplottery.Prelude.{
  ℕ, zero, suc, ◌+◌, ◌*◌, ◌/◌, ◌%◌, ◌<◌, ◌≤◌, ◌≡◌, ◌≢◌, ==_iff, ◌⊎◌, inl, inr, refl, ap, Bool, true,
  false, not, Option, none, some, ◌==◌, ltb, if◌then◌else◌, ok, panic, arith, Bool-cases,
  Option-cases,
}
use pplottery.Fs.Bitmap.Bits.{set_bit, clear_bit}
use pplottery.Fs.{
  Fs, bit_of, mark_used, mark_free, scan_bits, balloc_from, balloc, bfree, bpb, bzero, log_write,
  bblock,
}

-- The bit of a block is set.
abbrev pub used : ℕ → Fs → Bool
used b s = not (bit_of b s == 0)

abbrev pub IsBytes : Fs → Type 0
IsBytes s = (k : ℕ) → s.bitmap k < 256

-- The two writes, in terms of the blocks that are used.
used-mark_used :
    (b c : ℕ) (s : Fs) → IsBytes s → used c (mark_used b s) ≡ (if b == c then true else used c s)
unfolding mark_used bit_of
used-mark_used b c s bytes = elim (Bool-cases (b / 8 == c / 8)) [
  | inl here ↦
      let at : c / 8 ≡ b / 8 = ground arith in
      let bits =
        set_bit (s.bitmap (b / 8)) (b % 8) (c % 8) (bytes (b / 8)) (omega arith) (omega arith) in
      rw (here, at) (ground (arith, bits))
  | inr away ↦ rw away (ground arith)
]

used-mark_free :
    (b c : ℕ) (s : Fs) → IsBytes s → used c (mark_free b s) ≡ (if b == c then false else used c s)
unfolding mark_free bit_of
used-mark_free b c s bytes = elim (Bool-cases (b / 8 == c / 8)) [
  | inl here ↦
      let at : c / 8 ≡ b / 8 = ground arith in
      let bits =
        clear_bit (s.bitmap (b / 8)) (b % 8) (c % 8) (bytes (b / 8)) (omega arith) (omega arith) in
      rw (here, at) (ground (arith, bits))
  | inr away ↦ rw away (ground arith)
]

mark_used-IsBytes : (b : ℕ) (s : Fs) → IsBytes s → IsBytes (mark_used b s)
unfolding mark_used
mark_used-IsBytes b s bytes k = ground (
  arith,
  bytes k,
  set_bit (s.bitmap (b / 8)) (b % 8) 0 (bytes (b / 8)) (omega arith) (omega arith),
)

mark_free-IsBytes : (b : ℕ) (s : Fs) → IsBytes s → IsBytes (mark_free b s)
unfolding mark_free
mark_free-IsBytes b s bytes k = ground (
  arith,
  bytes k,
  clear_bit (s.bitmap (b / 8)) (b % 8) 0 (bytes (b / 8)) (omega arith) (omega arith),
)

-- No block from `lo` to `hi` is free.
abbrev pub AllUsed : (lo hi : ℕ) → Fs → Type 0
AllUsed lo hi s = (c : ℕ) → lo ≤ c → c < hi → c < s.sb.size → used c s ≡ true

-- What a scan finds from `b` on.
abbrev pub FirstFree : (lo b : ℕ) → Fs → Type 0
FirstFree lo b s = (b < s.sb.size) × (lo ≤ b) × (used b s ≡ false) × AllUsed lo b s

abbrev Scanned : (lo hi b : ℕ) → Option ℕ → Fs → Type 0
Scanned lo hi b none s = AllUsed lo hi s
Scanned lo hi b (some k) s = FirstFree lo (b + k) s × (b + k < hi)

AllUsed-step : (lo hi : ℕ) (s : Fs) → used lo s ≡ true → AllUsed (lo + 1) hi s → AllUsed lo hi s
AllUsed-step lo hi s now later c p q r = elim (Bool-cases (lo == c)) [
  | inl e ↦ let at : c ≡ lo = ground arith in rw at now
  | inr e ↦ later c (ground arith) q r
]

Scanned-step :
    (lo hi b : ℕ) (found : Option ℕ) (s : Fs)
    → used lo s ≡ true
    → Scanned (lo + 1) hi b found s
    → Scanned lo hi b found s
Scanned-step lo hi b none s now h = AllUsed-step lo hi s now h
Scanned-step lo hi b (some k) s now ((room, le, free, all), lt) =
    ((room, omega arith, free, AllUsed-step lo (b + k) s now all), lt)

scan_bits_lem : (n bi b : ℕ) (s : Fs) → Scanned (b + bi) (b + bi + n) b (scan_bits n bi b s) s
unfolding scan_bits
scan_bits_lem zero bi b s = λ c lo hi lt. absurd (omega arith)
scan_bits_lem (suc n) bi b s = elim (Bool-cases (ltb (b + bi) s.sb.size)) [
  | inr end ↦ rw end (λ c lo hi lt. ground arith)
  | inl more ↦ elim (Bool-cases (bit_of (b + bi) s == 0)) [
    | inl free ↦
        rw (more, free)
          (
            (ground arith, omega arith, rw free refl, (λ c lo hi lt. absurd (omega arith))),
            omega arith,
          )
    | inr taken ↦
        let at : b + (bi + 1) ≡ b + bi + 1 = omega arith in
        let to : b + bi + 1 + n ≡ b + bi + suc n = omega arith in
        rw (more, taken)
          (Scanned-step (b + bi) (b + bi + suc n) b (scan_bits n (bi + 1) b s) s (rw taken refl)
            (rw to at (rw at at (scan_bits_lem n (bi + 1) b s))))
  ]
]

scan_bits_at : (n b : ℕ) (s : Fs) → Scanned b (b + n) b (scan_bits n 0 b s) s
scan_bits_at n b s = let at : b + 0 ≡ b = omega arith in rw at at (scan_bits_lem n 0 b s)

-- The state after block `b` has been allocated.
abbrev pub allocated : ℕ → Fs → Fs
allocated b s = bzero b (log_write (bblock b s.sb) (mark_used b s))

-- What `balloc` comes to when the scan is at `lo`.
abbrev pub Allocates : (lo : ℕ) → Fs → ℕ × Fs → Type 0
Allocates lo s r =
    ((b : ℕ) × FirstFree lo b s × (r ≡ (b, allocated b s)))
    ⊎ (AllUsed lo s.sb.size s × (r ≡ (0, s)))

AllUsed-join : (lo mid hi : ℕ) (s : Fs) → AllUsed lo mid s → AllUsed mid hi s → AllUsed lo hi s
AllUsed-join lo mid hi s low high c p q r = elim (Bool-cases (ltb c mid)) [
  | inl e ↦ low c p (ground arith) r
  | inr e ↦ high c (ground arith) q r
]

Allocates-later :
    (lo mid : ℕ) (s : Fs) (r : ℕ × Fs)
    → lo ≤ mid
    → AllUsed lo mid s
    → Allocates mid s r
    → Allocates lo s r
Allocates-later lo mid s r le low (inl (b, (room, from, free, all), e)) =
    inl (b, (room, omega arith, free, AllUsed-join lo mid b s low all), e)
Allocates-later lo mid s r le low (inr (all, e)) = inr (AllUsed-join lo mid s.sb.size s low all, e)

balloc_from_lem :
    (fuel b : ℕ) (s : Fs)
    → b % bpb ≡ 0
    → s.sb.size < b + fuel * bpb
    → Allocates b s (balloc_from fuel b s)
unfolding balloc_from
balloc_from_lem zero b s aligned enough = inr ((λ c p q r. absurd (omega arith)), refl)
balloc_from_lem (suc fuel) b s aligned enough = elim (Bool-cases (ltb b s.sb.size)) [
  | inr end ↦ rw end (inr ((λ c p q r. ground arith), refl))
  | inl more ↦
      let scan = scan_bits_at bpb b s in
      elim (Option-cases (scan_bits bpb 0 b s)) [
        | inl e ↦
            let all : AllUsed b (b + bpb) s = rw e at scan in
            let ih = balloc_from_lem fuel (b + bpb) s (omega arith) (omega arith) in
            rw (more, e)
              (Allocates-later b (b + bpb) s (balloc_from fuel (b + bpb) s) (omega arith) all ih)
        | inr (k, e) ↦
            let found : FirstFree b (b + k) s × (b + k < b + bpb) = rw e at scan in
            let block : (b + k) / bpb ≡ b / bpb = omega (arith, found.1) in
            rw (more, e) (inl (b + k, found.0, rw block refl))
      ]
]

-- `balloc` takes the first free block of the disk: it returns its number, with its bit set, its
-- bytes zero and the two blocks logged. If every block is used it returns 0 and changes nothing.
pub balloc-Allocates : (s : Fs) → Allocates 0 s (balloc s)
unfolding balloc
balloc-Allocates s = balloc_from_lem (s.sb.size / bpb + 1) 0 s refl (omega arith)

used-allocated :
    (b c : ℕ) (s : Fs) → IsBytes s → used c (allocated b s) ≡ (if b == c then true else used c s)
unfolding bzero mark_used bit_of
used-allocated b c s bytes = used-mark_used b c s bytes

allocated-IsBytes : (b : ℕ) (s : Fs) → IsBytes s → IsBytes (allocated b s)
unfolding bzero mark_used
allocated-IsBytes b s bytes = mark_used-IsBytes b s bytes

bit_is_clear : (c : ℕ) (s : Fs) → used c s ≡ false → (bit_of c s == 0) ≡ true
bit_is_clear c s h = ground arith

bit_is_set : (c : ℕ) (s : Fs) → used c s ≡ true → (bit_of c s == 0) ≡ false
bit_is_set c s h = ground arith

freed :
    (c : ℕ) (s : Fs)
    → IsBytes s
    → used c s ≡ true
    → (t : Fs) × (bfree c s ≡ ok (tt, t))
      × IsBytes t
      × ((d : ℕ) → used d t ≡ (if c == d then false else used d s))
unfolding bfree
freed c s bytes set = (
  log_write (bblock c s.sb) (mark_free c s),
  rw (bfree, bit_is_set c s set) refl,
  mark_free-IsBytes c s bytes,
  (λ d. used-mark_free c d s bytes),
)

undone :
    (s : Fs) (r : ℕ × Fs)
    → IsBytes s
    → Allocates 0 s r
    → r.0 ≢ 0
    → (t : Fs) × (bfree r.0 r.1 ≡ ok (tt, t)) × ((d : ℕ) → used d t ≡ used d s)
undone s r bytes (inr (all, e)) taken = absurd (taken (ap (λ q. q.0) e))
undone s r bytes (inl (b, (room, le, free, all), e)) taken =
    let set : used b (allocated b s) ≡ true = ground (arith, used-allocated b b s bytes) in
    let (t, run, ok_t, bits) = freed b (allocated b s) (allocated-IsBytes b s bytes) set in
    (t, rw e run, (λ d. ground (arith, bits d, used-allocated b d s bytes, free, (==_iff b d).0)))

-- The free map is a set: `bfree` of a free block panics; of a used one it takes out that block
-- alone; and `bfree` of the block that `balloc` has just taken gives back the used blocks of before.
pub bfree-balloc :
    (s : Fs) (c : ℕ)
    → IsBytes s
    → (used c s ≡ false → bfree c s ≡ panic)
      × (used c s ≡ true
          → (t : Fs) × (bfree c s ≡ ok (tt, t))
            × IsBytes t
            × ((d : ℕ) → used d t ≡ (if c == d then false else used d s)))
      × ((balloc s).0 ≢ 0
          → (t : Fs) × (bfree (balloc s).0 (balloc s).1 ≡ ok (tt, t))
            × ((d : ℕ) → used d t ≡ used d s))
unfolding bfree
bfree-balloc s c bytes = (
  (λ free. rw (bfree, bit_is_clear c s free) refl),
  freed c s bytes,
  undone s (balloc s) bytes (balloc-Allocates s),
)

-- The allocator does not look at the table of inodes.
pub itable-allocated : (b : ℕ) (s : Fs) → (allocated b s).itable ≡ s.itable
unfolding bzero mark_used
itable-allocated b s = refl

pub itable-bfree : (b : ℕ) (s t : Fs) {u : Unit {0}} → bfree b s ≡ ok (u, t) → t.itable ≡ s.itable
unfolding bfree mark_free
itable-bfree b s t e = ground arith
