-- ===== src/Fs.antt =====
-- fs.c: the state of the file system, and its lowest layer, the allocator of disk blocks. There is
-- one device. `log_write` enters here as the list of the blocks that it was called for; what it
-- does with them is the subject of Log. Each function is what one process does in a transaction,
-- and what the others do to the parts that it has locked is nothing.
pub mod Bitmap
pub mod Itable
pub mod Files
pub mod Dirs
pub mod Names
mod Tests
use pplottery.Prelude.{
  ℕ, zero, suc, ◌+◌, ◌-◌, ◌/◌, ◌%◌, ◌^◌, Bool, Option, none, some, List, ◌∷◌, ◌==◌, ltb,
  if◌then◌else◌, Result, ok, panic,
}
use Prim.Native.Nat.{bit_and, bit_or}
use pplottery.Sleeplock.{Sleeplock}

-- `struct superblock`, as far as fs.c reads it.
pub record Super : Type 0 where
  pub size : ℕ
  pub ninodes : ℕ
  pub inodestart : ℕ
  pub bmapstart : ℕ

-- `struct dinode`
pub record Dinode : Type 0 where
  pub type : ℕ
  pub major : ℕ
  pub minor : ℕ
  pub nlink : ℕ
  pub size : ℕ
  pub addrs : List ℕ

-- `struct inode`; `copy` is the fields that it shares with the inode on the disk.
pub record Inode : Type 0 where
  pub dev : ℕ
  pub inum : ℕ
  pub ref : ℕ
  pub lock : Sleeplock
  pub valid : Bool
  pub copy : Dinode

-- What a transaction sees of the disk, and the table of inodes. The layout of the disk is that of
-- mkfs: the blocks of the free map and those of the inodes hold nothing else. `bitmap k` is byte
-- `k % BSIZE` of block `k / BSIZE` of the map, `dinodes i` the inode of number `i`, and `data b`
-- the bytes of another block. A pointer to an inode is its slot in `itable`.
pub record Fs : Type 0 where
  pub sb : Super
  pub bitmap : ℕ → ℕ
  pub dinodes : ℕ → Dinode
  pub data_bytes : ℕ → ℕ → ℕ
  pub logged : List ℕ
  pub itable : List Inode

-- A step of the file system: a panic, or a value and the state after it.
abbrev pub M : Type 0 → Type 0
M A = Fs → Result (A × Fs)

infixl 5 ◌>>=◌ ◌>>◌
abbrev pub ◌>>=◌ : {A B : Type 0} → M A → (A → M B) → M B
◌>>=◌ m f s = elim (m s) [ panic ↦ panic | ok (a, s') ↦ f a s' ]

abbrev pub ◌>>◌ : {A B : Type 0} → M A → M B → M B
◌>>◌ m n s = elim (m s) [ panic ↦ panic | ok (a, s') ↦ n s' ]

abbrev pub bsize : ℕ
bsize = 1024

-- `BPB`, `IPB`
abbrev pub bpb : ℕ
bpb = 8192

abbrev pub ipb : ℕ
ipb = 16

-- `BBLOCK`, `IBLOCK`
abbrev pub bblock : ℕ → Super → ℕ
bblock b sb = b / bpb + sb.bmapstart

abbrev pub iblock : ℕ → Super → ℕ
iblock i sb = i / ipb + sb.inodestart

abbrev pub put {ℓ} : {A : Type ℓ} → (ℕ → A) → ℕ → A → ℕ → A
put f i a j = if i == j then a else f j

abbrev pub log_write : ℕ → Fs → Fs
log_write b s = record s { logged = b ∷ s.logged }

pub bzero : ℕ → Fs → Fs
bzero bno s = log_write bno (record s { data_bytes = put s.data_bytes bno (λ i. 0) })

-- `bp->data[bi/8] & (1 << (bi % 8))` of the bit for block `b`; the map is one sequence of bytes.
pub bit_of : ℕ → Fs → ℕ
bit_of b s = bit_and (s.bitmap (b / 8)) (2 ^ (b % 8))

-- `bp->data[bi/8] |= m` and `bp->data[bi/8] &= ~m`
pub mark_used : ℕ → Fs → Fs
mark_used b s = record s { bitmap = put s.bitmap (b / 8) (bit_or (s.bitmap (b / 8)) (2 ^ (b % 8))) }

pub mark_free : ℕ → Fs → Fs
mark_free b s = record s {
  bitmap = put s.bitmap (b / 8) (bit_and (s.bitmap (b / 8)) (255 - 2 ^ (b % 8)));
}

-- The inner loop of `balloc`: the first `bi` whose bit is clear, with `n` rounds to go.
pub scan_bits : (n bi b : ℕ) → Fs → Option ℕ
scan_bits zero bi b s = none
scan_bits (suc n) bi b s =
    let rest = scan_bits n (bi + 1) b s in
    if ltb (b + bi) s.sb.size then (if bit_of (b + bi) s == 0 then some bi else rest) else none

-- The outer loop, on fuel.
pub balloc_from : (fuel b : ℕ) → Fs → ℕ × Fs
balloc_from zero b s = (0, s)
balloc_from (suc fuel) b s =
    let rest = balloc_from fuel (b + bpb) s in
    let found = scan_bits bpb 0 b s in
    if ltb b s.sb.size
    then elim found [
      | some bi ↦ (b + bi, bzero (b + bi) (log_write (bblock b s.sb) (mark_used (b + bi) s)))
      | none ↦ rest
    ]
    else (0, s)

pub balloc : Fs → ℕ × Fs
unfolding balloc_from
balloc s = balloc_from (s.sb.size / bpb + 1) 0 s

pub bfree : ℕ → M (Unit {0})
unfolding bit_of mark_free
bfree b s = if bit_of b s == 0 then panic else ok (tt, log_write (bblock b s.sb) (mark_free b s))
