-- ===== src/Bio/Release.antt =====
-- Uniqueness of the cached blocks, kept by `bget`; and `brelse`.
use pplottery.Prelude.{
  ℕ, ◌+◌, ◌<◌, ◌^◌, ◌≡◌, refl, ap, ◌∙◌, true, false, ◌&&◌, ◌∷◌, ◌==◌, if◌then◌else◌, ok, panic,
  arith, Bool-cases, inl, inr, sub32, some, subst,
}
use pplottery.Sleeplock.{holdingsleep, releasesleep}
use pplottery.Bio.{Buf, Bcache, is_block, more_refs, recycled, bget, brelse, find, remove, update}
use pplottery.Bio.Cache.{caches, Unique, Swapped, first, later, Last, here, behind, Got, bget-Got}

caches-Swapped :
    {b : Buf} {bs cs : Bcache} (d n : ℕ)
    → Swapped b (more_refs b) bs cs
    → caches d n cs ≡ caches d n bs
caches-Swapped d n first = refl
caches-Swapped d n (later {x} s) =
    ap (λ r. if is_block d n x then true else r) (caches-Swapped d n s)

Swapped-Unique : {b : Buf} {bs cs : Bcache} → Swapped b (more_refs b) bs cs → Unique bs → Unique cs
Swapped-Unique first u = u
Swapped-Unique (later {x} s) u =
    ((λ real. caches-Swapped x.dev x.blockno s ∙ u.0 real), Swapped-Unique s u.1)

caches-Last :
    (dev blockno d n : ℕ) {b : Buf} {bs cs : Bcache}
    → Last b (recycled dev blockno b) bs cs
    → caches d n bs ≡ false
    → ((dev == d) && (blockno == n)) ≡ false
    → caches d n cs ≡ false
caches-Last dev blockno d n (here used) out ne = ground arith
caches-Last dev blockno d n (behind {x} l) out ne =
    let rest = caches-Last dev blockno d n l (ground arith) ne in ground arith

Last-Unique :
    (dev blockno : ℕ) {b : Buf} {bs cs : Bcache}
    → Last b (recycled dev blockno b) bs cs
    → caches dev blockno bs ≡ false
    → Unique bs
    → Unique cs
Last-Unique dev blockno (here used) out u = ((λ real. ground arith), u.1)
Last-Unique dev blockno (behind {x} l) out u = (
  (λ real. caches-Last dev blockno x.dev x.blockno l (u.0 real) (ground arith)),
  Last-Unique dev blockno l (ground arith) u.1,
)

-- If no two buffers hold the same block, `bget` keeps it so, and the buffer that it returns holds the block
-- that was asked for.
pub bget-Unique :
    (dev blockno : ℕ) (bs cs : Bcache) (b : Buf)
    → Unique bs
    → bget dev blockno bs ≡ ok (b, cs)
    → Unique cs × (is_block dev blockno b ≡ true)
bget-Unique dev blockno bs cs b u e =
    result (subst (Got dev blockno bs) e (bget-Got dev blockno bs))
  where
    result : Got dev blockno bs (ok (b, cs)) → Unique cs × (is_block dev blockno b ≡ true)
    result (inl (old, same, (swap, is))) = (Swapped-Unique swap u, rw same is)
    result (inr (out, (old, same, (last, free)))) =
        (Last-Unique dev blockno last out u, rw same (ground arith))

-- `brelse` of a buffer that the caller holds and that has `n + 1` references: the lock is released
-- and a reference dropped. The last reference moves the buffer to the front of the list; otherwise the order
-- stays. A caller that does not hold the buffer's lock panics.
brelse_lem :
    (me i n : ℕ) (bs : Bcache) (b : Buf)
    → find i bs ≡ some b
    → b.refcnt ≡ n + 1
    → n + 1 < 2 ^ 32
    → (holdingsleep me b.lock ≡ false → brelse me i bs ≡ panic)
      × (holdingsleep me b.lock ≡ true
          → brelse me i bs
            ≡ ok (
                if n == 0
                then record b { lock = releasesleep b.lock; refcnt = 0 } ∷ remove i bs
                else update i (λ _. record b { lock = releasesleep b.lock; refcnt = n }) bs))
unfolding brelse
brelse_lem me i n bs b found refs small =
    let less : sub32 b.refcnt 1 ≡ n = omega arith in
    (
      (λ h. rw (found, h, brelse)),
      (λ h. elim (Bool-cases (n == 0)) [
        | inl last ↦
            let zero_left : n ≡ 0 = ground arith in
            rw (found, h, less, brelse, last)
              (ap (λ r. ok (record b { lock = releasesleep b.lock; refcnt = r } ∷ remove i bs))
                zero_left)
        | inr more ↦ rw (found, h, less, brelse, more)
      ]),
    )
