-- ===== src/Fs/Itable.antt =====
-- fs.c: the table of inodes, from `ialloc` to `iput`, and the map from an inode to its blocks.
-- `me` is the pid of `myproc()`. `acquiresleep` of a lock that another process holds is a wait;
-- what is modelled is a run on which each lock is free when it is taken.
pub mod Refs
pub mod Keeps
pub mod Gives
use pplottery.Prelude.{
  ℕ, zero, suc, ◌+◌, ◌-◌, ◌*◌, ◌/◌, ◌%◌, Bool, true, false, not, ◌&&◌, ◌||◌, Option, none, some,
  List, [], ◌∷◌, ◌==◌, ltb, if◌then◌else◌, Result, ok, panic, get_elem?, get_or, set, replicate,
  map, take, ◌++◌, add32, sub32, slt32,
}
use pplottery.Sleeplock.{Sleeplock, holdingsleep}
use pplottery.Fs.{Fs, M, ◌>>=◌, ◌>>◌, Inode, Dinode, put, iblock, log_write, balloc, bfree}

abbrev pub ndirect : ℕ
ndirect = 12

-- `NINDIRECT`, and the number of addresses in an inode.
abbrev pub nindirect : ℕ
nindirect = 256

abbrev pub empty_dinode : Dinode
empty_dinode = record {
  type = 0;
  major = 0;
  minor = 0;
  nlink = 0;
  size = 0;
  addrs = replicate 13 0;
}

-- `ip->dev == dev && ip->inum == inum`, of a slot in use.
abbrev pub is_inode : (dev inum : ℕ) → Inode → Bool
is_inode dev inum ip = slt32 0 ip.ref && ((ip.dev == dev) && (ip.inum == inum))

abbrev pub claimed : (dev inum : ℕ) → Inode → Inode
claimed dev inum ip = record ip { dev = dev; inum = inum; ref = 1; valid = false }

-- The scan of `iget` for the inode, and for an empty slot, from slot `i` on.
pub find_inode : (dev inum i : ℕ) → List Inode → Option ℕ
find_inode dev inum i [] = none
find_inode dev inum i (ip ∷ ips) =
    let rest = find_inode dev inum (i + 1) ips in if is_inode dev inum ip then some i else rest

pub find_empty : ℕ → List Inode → Option ℕ
find_empty i [] = none
find_empty i (ip ∷ ips) = let rest = find_empty (i + 1) ips in if ip.ref == 0 then some i else rest

-- A change of one slot.
abbrev pub modify : ℕ → (Inode → Inode) → List Inode → List Inode
modify i f [] = []
modify zero f (p ∷ ps) = f p ∷ ps
modify (suc i) f (p ∷ ps) = p ∷ modify i f ps

abbrev pub more_refs : Inode → Inode
more_refs ip = record ip { ref = add32 ip.ref 1 }

abbrev pub fewer_refs : Inode → Inode
fewer_refs ip = record ip { ref = sub32 ip.ref 1 }

abbrev pub on_table : (List Inode → List Inode) → Fs → Fs
on_table f s = record s { itable = f s.itable }

pub iget : (dev inum : ℕ) → M ℕ
unfolding find_inode find_empty
iget dev inum s = elim (find_inode dev inum 0 s.itable) [
  | some i ↦ ok (i, on_table (modify i more_refs) s)
  | none ↦ elim (find_empty 0 s.itable) [
    | none ↦ panic
    | some i ↦ ok (i, on_table (modify i (claimed dev inum)) s)
  ]
]

pub idup : ℕ → M ℕ
idup i s = ok (i, on_table (modify i more_refs) s)

-- The loop of `ialloc`, with `n` rounds to go; `none` is a null pointer.
pub ialloc_from : (n inum dev type : ℕ) → M (Option ℕ)
unfolding iget
ialloc_from zero inum dev type s = ok (none, s)
ialloc_from (suc n) inum dev type s =
    let rest = ialloc_from n (inum + 1) dev type s in
    let s' =
      log_write (iblock inum s.sb)
        (record s { dinodes = put s.dinodes inum (record empty_dinode { type = type }) }) in
    if (s.dinodes inum).type == 0
    then elim (iget dev inum s') [ panic ↦ panic | ok (i, t) ↦ ok (some i, t) ]
    else rest

pub ialloc : (dev type : ℕ) → M (Option ℕ)
unfolding ialloc_from
ialloc dev type s = ialloc_from (s.sb.ninodes - 1) 1 dev type s

-- `iupdate` of slot `i`.
pub iupdate : ℕ → M (Unit {0})
iupdate i s = elim (get_elem? s.itable i) [
  | none ↦ panic
  | some ip ↦
      ok
        (tt, log_write (iblock ip.inum s.sb) (record s { dinodes = put s.dinodes ip.inum ip.copy }))
]

abbrev pub locked_by : ℕ → Sleeplock
locked_by me = record { locked = true; pid = me }

-- The inode that `ilock` leaves behind.
abbrev pub loaded : (me : ℕ) → (ℕ → Dinode) → Inode → Inode
loaded me dinodes ip = record ip {
  lock = locked_by me;
  valid = true;
  copy = if ip.valid then ip.copy else dinodes ip.inum;
}

pub ilock : (me i : ℕ) → M (Unit {0})
ilock me i s = elim (get_elem? s.itable i) [
  | none ↦ panic
  | some ip ↦
      if slt32 ip.ref 1
      then panic
      else if not ip.valid && ((s.dinodes ip.inum).type == 0)
      then panic
      else ok (tt, on_table (modify i (loaded me s.dinodes)) s)
]

abbrev pub unlocked : Inode → Inode
unlocked ip = record ip { lock = record { locked = false; pid = 0 } }

pub iunlock : (me i : ℕ) → M (Unit {0})
unfolding holdingsleep
iunlock me i s = elim (get_elem? s.itable i) [
  | none ↦ panic
  | some ip ↦
      if not (holdingsleep me ip.lock) || slt32 ip.ref 1
      then panic
      else ok (tt, on_table (modify i unlocked) s)
]

-- A `uint` in a block, at byte `o`.
pub load32 : (ℕ → ℕ) → ℕ → ℕ
load32 f o = f o + 256 * f (o + 1) + 65536 * f (o + 2) + 16777216 * f (o + 3)

pub store32 : ℕ → ℕ → (ℕ → ℕ) → ℕ → ℕ
store32 o v f =
    put (put (put (put f o (v % 256)) (o + 1) (v / 256 % 256)) (o + 2) (v / 65536 % 256)) (o + 3)
      (v / 16777216 % 256)

-- `a[j]` of the indirect block `a`, read and written.
pub entry : (a j : ℕ) → Fs → ℕ
unfolding load32
entry a j s = load32 (s.data_bytes a) (4 * j)

pub set_entry : (a j v : ℕ) → Fs → Fs
unfolding store32
set_entry a j v s = record s {
  data_bytes = put s.data_bytes a (store32 (4 * j) v (s.data_bytes a));
}

abbrev pub with_addr : (j addr : ℕ) → Inode → Inode
with_addr j addr ip = record ip { copy = record (ip.copy) { addrs = set ip.copy.addrs j addr } }

-- `ip->addrs[j]`, allocated if it is 0: the address, or 0.
pub direct : (i j : ℕ) → Inode → Fs → ℕ × Fs
direct i j ip s =
    let addr = get_or ip.copy.addrs j 0 in
    let (new, s') = balloc s in
    if not (addr == 0)
    then (addr, s)
    else if new == 0
    then (0, s')
    else (new, on_table (modify i (with_addr j new)) s')

-- `a[j]` of the indirect block `a`, allocated if it is 0.
pub indirect : (a j : ℕ) → Fs → ℕ × Fs
unfolding entry set_entry
indirect a j s =
    let (new, s') = balloc s in
    if not (entry a j s == 0)
    then (entry a j s, s)
    else if new == 0
    then (0, s')
    else (new, log_write a (set_entry a j new s'))

-- `bmap` of slot `i`.
pub bmap : (i bn : ℕ) → M ℕ
unfolding direct indirect
bmap i bn s = elim (get_elem? s.itable i) [
  | none ↦ panic
  | some ip ↦
      let (a, s') = direct i ndirect ip s in
      if ltb bn ndirect
      then ok (direct i bn ip s)
      else if ltb (bn - ndirect) nindirect
      then (if a == 0 then ok (0, s') else ok (indirect a (bn - ndirect) s'))
      else panic
]

-- `if(x) bfree(x)`, on each of a list of addresses.
pub free_all : List ℕ → M (Unit {0})
unfolding bfree
free_all [] s = ok (tt, s)
free_all (a ∷ rest) s =
    let next = free_all rest in
    if a == 0 then next s else elim (bfree a s) [ panic ↦ panic | ok (u, t) ↦ next t ]

-- The entries of an indirect block from number `j` on.
pub entries : (n j a : ℕ) → Fs → List ℕ
entries zero j a s = []
entries (suc n) j a s = entry a j s ∷ entries n (j + 1) a s

abbrev pub emptied : Inode → Inode
emptied ip = record ip { copy = record (ip.copy) { size = 0; addrs = map (λ a. 0) ip.copy.addrs } }

-- `itrunc` of slot `i`: the direct blocks, the blocks of the indirect block, and that block.
pub itrunc : ℕ → M (Unit {0})
unfolding free_all entries iupdate
itrunc i s = elim (get_elem? s.itable i) [
  | none ↦ panic
  | some ip ↦
      let a = get_or ip.copy.addrs ndirect 0 in
      let tail = if a == 0 then [] else entries nindirect 0 a s ++ (a ∷ []) in
      (do
        free_all (take ndirect ip.copy.addrs)
        free_all tail
        (λ t. iupdate i (on_table (modify i emptied) t)))
        s
]

-- What `iput` does for the last reference to an inode without links.
pub release_inode : ℕ → M (Unit {0})
unfolding itrunc iupdate
release_inode i = do
  itrunc i
  (λ t.
      iupdate i (on_table (modify i (λ ip. record ip { copy = record (ip.copy) { type = 0 } })) t))
  (λ t. ok (tt, on_table (modify i (λ ip. record (unlocked ip) { valid = false })) t))

pub iput : ℕ → M (Unit {0})
unfolding release_inode
iput i s = elim (get_elem? s.itable i) [
  | none ↦ panic
  | some ip ↦
      let released = release_inode i s in
      let last : Result (Unit {0} × Fs) = elim released [
        | panic ↦ panic
        | ok (u, t) ↦ ok (tt, on_table (modify i fewer_refs) t)
      ] in
      if (ip.ref == 1) && (ip.valid && (ip.copy.nlink == 0))
      then last
      else ok (tt, on_table (modify i fewer_refs) s)
]

pub iunlockput : (me i : ℕ) → M (Unit {0})
unfolding iunlock iput
iunlockput me i = do iunlock me i; iput i
