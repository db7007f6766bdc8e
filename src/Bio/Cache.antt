-- ===== src/Bio/Cache.antt =====
-- `bget`: a block is cached in one buffer only, and no buffer in use is recycled.
use pplottery.Prelude.{
  ℕ, ◌≡◌, ◌≢◌, refl, Bool, true, false, none, some, List, [], ◌∷◌, ◌==◌, if◌then◌else◌, Result, ok,
  panic, arith, subst, some_inj, ◌⊎◌, Bool-cases, Option-cases, inl, inr, map,
}
use pplottery.Bio.{Buf, Bcache, is_block, more_refs, recycled, hit, recycle, bget}

-- Some buffer holds the block.
abbrev pub caches : (dev blockno : ℕ) → Bcache → Bool
caches dev blockno [] = false
caches dev blockno (b ∷ bs) = if is_block dev blockno b then true else caches dev blockno bs

-- No two buffers hold the same block of a device; a buffer not used yet has device 0.
abbrev pub Unique : Bcache → Type 0
Unique [] = Unit {0}
Unique (b ∷ bs) = ((b.dev ≢ 0) → caches b.dev b.blockno bs ≡ false) × Unique bs

-- The buffers, in order, and how `bget` changes one of them.
abbrev ids : Bcache → List ℕ
ids bs = map (λ b. b.id) bs

-- The list with one buffer exchanged for another.
pub data Swapped (b c : Buf) : Bcache → Bcache → Type 0 where
  first : {bs : Bcache} → Swapped b c (b ∷ bs) (c ∷ bs)
  later : {x : Buf} {bs cs : Bcache} → Swapped b c bs cs → Swapped b c (x ∷ bs) (x ∷ cs)

-- A hit: some buffer for the block gains a reference.
abbrev HitIn : (dev blockno : ℕ) → Bcache → Buf × Bcache → Type 0
HitIn dev blockno bs (b, cs) = Swapped b (more_refs b) bs cs × (is_block dev blockno b ≡ true)

hit-HitIn :
    (dev blockno : ℕ) (bs : Bcache) (r : Buf × Bcache)
    → hit dev blockno bs ≡ some r
    → HitIn dev blockno bs r
unfolding hit
hit-HitIn dev blockno [] r e = cc
hit-HitIn dev blockno (x ∷ bs) r e = elim (Bool-cases (is_block dev blockno x)) [
  | inl now ↦ subst (HitIn dev blockno (x ∷ bs)) (some_inj (rw now at e)) (first, now)
  | inr not_now ↦ elim (Option-cases (hit dev blockno bs)) [
    | inl none_left ↦ cc (rw (not_now, none_left, hit) at e)
    | inr ((c, cs), found) ↦
        let (swap, is) = hit-HitIn dev blockno bs (c, cs) found in
        subst (HitIn dev blockno (x ∷ bs)) (some_inj (rw (not_now, found, hit) at e))
          (later swap, is)
  ]
]

hit-none :
    (dev blockno : ℕ) (bs : Bcache) → hit dev blockno bs ≡ none → caches dev blockno bs ≡ false
unfolding hit
hit-none dev blockno [] e = refl
hit-none dev blockno (x ∷ bs) e = elim (Bool-cases (is_block dev blockno x)) [
  | inl now ↦ ground arith
  | inr not_now ↦ elim (Option-cases (hit dev blockno bs)) [
    | inl none_left ↦ ground (arith, hit-none dev blockno bs none_left)
    | inr ((c, cs), found) ↦ ground arith
  ]
]

-- A miss: a buffer that nobody uses, and behind which only used ones stand, is given the block.
abbrev all_used : Bcache → Bool
all_used [] = true
all_used (b ∷ bs) = if b.refcnt == 0 then false else all_used bs

pub data Last (b c : Buf) : Bcache → Bcache → Type 0 where
  here : {bs : Bcache} → all_used bs ≡ true → Last b c (b ∷ bs) (c ∷ bs)
  behind : {x : Buf} {bs cs : Bcache} → Last b c bs cs → Last b c (x ∷ bs) (x ∷ cs)

abbrev MissIn : (dev blockno : ℕ) → Bcache → Buf × Bcache → Type 0
MissIn dev blockno bs (b, cs) = Last b (recycled dev blockno b) bs cs × (b.refcnt ≡ 0)

recycle-none : (dev blockno : ℕ) (bs : Bcache) → recycle dev blockno bs ≡ none → all_used bs ≡ true
unfolding recycle
recycle-none dev blockno [] e = refl
recycle-none dev blockno (x ∷ bs) e = elim (Option-cases (recycle dev blockno bs)) [
  | inl none_left ↦ ground (arith, recycle-none dev blockno bs none_left)
  | inr ((c, cs), found) ↦ ground arith
]

recycle-MissIn :
    (dev blockno : ℕ) (bs : Bcache) (r : Buf × Bcache)
    → recycle dev blockno bs ≡ some r
    → MissIn dev blockno bs r
unfolding recycle
recycle-MissIn dev blockno [] r e = cc
recycle-MissIn dev blockno (x ∷ bs) r e = elim (Option-cases (recycle dev blockno bs)) [
  | inl none_left ↦ elim (Bool-cases (x.refcnt == 0)) [
    | inl free ↦
        subst (MissIn dev blockno (x ∷ bs)) (some_inj (rw (none_left, recycle, free) at e))
          (here (recycle-none dev blockno bs none_left), ground arith)
    | inr used ↦ cc (rw (none_left, recycle, used) at e)
  ]
  | inr ((c, cs), found) ↦
      let (last, free) = recycle-MissIn dev blockno bs (c, cs) found in
      subst (MissIn dev blockno (x ∷ bs)) (some_inj (rw (found, recycle) at e)) (behind last, free)
]

-- What `bget` comes to. If the block is cached, a buffer for it gains a reference. If not, the
-- last unused buffer of the list, the least recently used one, is given the block with one reference and no valid data.
-- It panics only if the block is not cached and every buffer is in use.
abbrev pub Got : (dev blockno : ℕ) → Bcache → Result (Buf × Bcache) → Type 0
Got dev blockno bs panic = (caches dev blockno bs ≡ false) × (all_used bs ≡ true)
Got dev blockno bs (ok (b', cs)) =
    ((b : Buf) × (b' ≡ more_refs b) × HitIn dev blockno bs (b, cs))
    ⊎ ((caches dev blockno bs ≡ false)
        × ((b : Buf) × (b' ≡ recycled dev blockno b) × MissIn dev blockno bs (b, cs)))

-- `bget` gives a reference to a buffer that has the block, if there is one. If not, it gives the
-- block to the last unused buffer of the list, the least recently used one, with one reference and
-- no valid data. It panics exactly if the block is not cached and every buffer is in use. It changes
-- no other buffer, and not the order of the list.
pub bget-Got : (dev blockno : ℕ) (bs : Bcache) → Got dev blockno bs (bget dev blockno bs)
unfolding bget
bget-Got dev blockno bs = elim (Option-cases (hit dev blockno bs)) [
  | inr ((b, cs), found) ↦ rw (found, bget) (inl (b, refl, hit-HitIn dev blockno bs (b, cs) found))
  | inl missed ↦ elim (Option-cases (recycle dev blockno bs)) [
    | inr ((b, cs), found) ↦
        rw (missed, found, bget)
          (inr (
            hit-none dev blockno bs missed,
            (b, refl, recycle-MissIn dev blockno bs (b, cs) found),
          ))
    | inl full ↦
        rw (missed, full, bget) (hit-none dev blockno bs missed, recycle-none dev blockno bs full)
  ]
]
