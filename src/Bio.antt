-- ===== src/Bio.antt =====
-- bio.c: the buffer cache. The circular list through `prev` and `next` is the list of the buffers
-- from `head.next` on, most recently used first; `id` tells which element of `bcache.buf` one is.
pub mod Cache
pub mod Release
mod Tests
use pplottery.Prelude.{
  ℕ, zero, suc, ◌+◌, Bool, true, false, ◌&&◌, not, Option, none, some, List, [], ◌∷◌, ◌==◌,
  if◌then◌else◌, Result, ok, panic, add32, sub32,
}
use pplottery.Sleeplock.{Sleeplock, initsleeplock, holdingsleep, releasesleep}

-- `struct buf` without its data, its links and the flag of the disk driver.
pub record Buf : Type 0 where
  pub id : ℕ
  pub valid : Bool
  pub dev : ℕ
  pub blockno : ℕ
  pub refcnt : ℕ
  pub lock : Sleeplock

abbrev pub Bcache : Type 0
Bcache = List Buf

-- `binit`: each of the buffers in turn goes to the front.
binit_from : (n i : ℕ) → Bcache → Bcache
binit_from zero i bs = bs
binit_from (suc n) i bs =
    binit_from n (i + 1) (
      record { id = i; valid = false; dev = 0; blockno = 0; refcnt = 0; lock = initsleeplock } ∷ bs)

binit : Bcache
unfolding binit_from initsleeplock
binit = binit_from 30 0 []

abbrev pub is_block : (dev blockno : ℕ) → Buf → Bool
is_block dev blockno b = (b.dev == dev) && (b.blockno == blockno)

abbrev pub more_refs : Buf → Buf
more_refs b = record b { refcnt = add32 b.refcnt 1 }

abbrev pub recycled : (dev blockno : ℕ) → Buf → Buf
recycled dev blockno b = record b { dev = dev; blockno = blockno; valid = false; refcnt = 1 }

-- The scan from the front for a cached block: the buffer as it was, and the list after.
pub hit : (dev blockno : ℕ) → Bcache → Option (Buf × Bcache)
hit dev blockno [] = none
hit dev blockno (b ∷ bs) =
    let rest = hit dev blockno bs in
    if is_block dev blockno b
    then some (b, more_refs b ∷ bs)
    else elim rest [ none ↦ none | some (c, cs) ↦ some (c, b ∷ cs) ]

-- The scan from the back for an unused buffer.
pub recycle : (dev blockno : ℕ) → Bcache → Option (Buf × Bcache)
recycle dev blockno [] = none
recycle dev blockno (b ∷ bs) = elim (recycle dev blockno bs) [
  | some (c, cs) ↦ some (c, b ∷ cs)
  | none ↦ if b.refcnt == 0 then some (b, recycled dev blockno b ∷ bs) else none
]

-- `bget` up to its `acquiresleep`: the buffer returned, and the cache.
pub bget : (dev blockno : ℕ) → Bcache → Result (Buf × Bcache)
unfolding hit recycle
bget dev blockno bs = elim (hit dev blockno bs) [
  | some (b, cs) ↦ ok (more_refs b, cs)
  | none ↦ elim (recycle dev blockno bs) [
    | some (b, cs) ↦ ok (recycled dev blockno b, cs)
    | none ↦ panic
  ]
]

-- The change of one buffer.
abbrev pub update : ℕ → (Buf → Buf) → Bcache → Bcache
update i f [] = []
update i f (b ∷ bs) = if b.id == i then f b ∷ bs else b ∷ update i f bs

abbrev pub find : ℕ → Bcache → Option Buf
find i [] = none
find i (b ∷ bs) = if b.id == i then some b else find i bs

abbrev pub remove : ℕ → Bcache → Bcache
remove i [] = []
remove i (b ∷ bs) = if b.id == i then bs else b ∷ remove i bs

-- `bread` behind `bget`: whether the disk is read, and the cache.
pub bread : ℕ → Bcache → Bool × Bcache
bread i bs = elim (find i bs) [
  | none ↦ (false, bs)
  | some b ↦ (not b.valid, update i (λ c. record c { valid = true }) bs)
]

-- `bwrite`: a panic, or a write of the buffer to the disk.
pub bwrite : (me i : ℕ) → Bcache → Result Bcache
unfolding holdingsleep
bwrite me i bs = elim (find i bs) [
  | none ↦ panic
  | some b ↦ if holdingsleep me b.lock then ok bs else panic
]

-- `brelse` of buffer `i` by process `me`.
pub brelse : (me i : ℕ) → Bcache → Result Bcache
unfolding holdingsleep releasesleep
brelse me i bs = elim (find i bs) [
  | none ↦ panic
  | some b ↦
      let b' = record b { lock = releasesleep b.lock; refcnt = sub32 b.refcnt 1 } in
      if not (holdingsleep me b.lock)
      then panic
      else if b'.refcnt == 0
      then ok (b' ∷ remove i bs)
      else ok (update i (λ _. b') bs)
]

pub bpin : ℕ → Bcache → Bcache
bpin i bs = update i (λ b. record b { refcnt = add32 b.refcnt 1 }) bs

pub bunpin : ℕ → Bcache → Bcache
bunpin i bs = update i (λ b. record b { refcnt = sub32 b.refcnt 1 }) bs
