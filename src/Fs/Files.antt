-- ===== src/Fs/Files.antt =====
-- fs.c: the content of a file, `stati`, `readi` and `writei`. `either_copyout` and `either_copyin`
-- move bytes page by page, and fail at a page that is not there: `copied tot m` is how many of the
-- `m` bytes at offset `tot` of the caller's memory are moved.
pub mod Refs
use pplottery.Prelude.{
  ℕ, zero, suc, ◌+◌, ◌-◌, ◌*◌, ◌/◌, ◌%◌, ◌&&◌, ◌||◌, none, some, List, [], ◌∷◌, ◌++◌, ◌==◌, ltb,
  leb, min, if◌then◌else◌, Result, ok, panic, get_elem?, add32, minus_one,
}
use pplottery.Fs.{Fs, M, ◌>>=◌, ◌>>◌, Inode, put, bsize, log_write}
use pplottery.Fs.Itable.{bmap, iupdate, modify, on_table, ndirect, nindirect}

-- `struct stat`
pub record Stat : Type 0 where
  pub dev : ℕ
  pub ino : ℕ
  pub type : ℕ
  pub nlink : ℕ
  pub size : ℕ

pub stati : Inode → Stat
stati ip = record {
  dev = ip.dev;
  ino = ip.inum;
  type = ip.copy.type;
  nlink = ip.copy.nlink;
  size = ip.copy.size;
}

-- The `m` bytes from byte `o` on.
abbrev pub bytes_at : (ℕ → ℕ) → (o m : ℕ) → List ℕ
bytes_at f o zero = []
bytes_at f o (suc m) = f o ∷ bytes_at f (o + 1) m

-- `m = min(n - tot, BSIZE - off%BSIZE)`
abbrev pub chunk : (tot off n : ℕ) → ℕ
chunk tot off n = min (n - tot) (bsize - off % bsize)

-- The loop of `readi` of slot `i`, on fuel: the result, and the bytes copied out.
pub readi_from : (fuel tot off n i : ℕ) (copied : ℕ → ℕ → ℕ) → M (ℕ × List ℕ)
readi_from zero tot off n i copied s = ok ((tot, []), s)
readi_from (suc fuel) tot off n i copied s =
    let m = chunk tot off n in
    let next = readi_from fuel (tot + m) (off + m) n i copied in
    let step : Result ((ℕ × List ℕ) × Fs) = elim (bmap i (off / bsize) s) [
      | panic ↦ panic
      | ok (addr, t) ↦
          let k = min (copied tot m) m in
          let out = bytes_at (t.data_bytes addr) (off % bsize) k in
          let more : Result ((ℕ × List ℕ) × Fs) = elim (next t) [
            | panic ↦ panic
            | ok ((r, rest), u) ↦ ok ((r, out ++ rest), u)
          ] in
          if addr == 0
          then ok ((tot, []), t)
          else if ltb k m
          then ok ((minus_one, out), t)
          else more
    ] in
    if ltb tot n then step else ok ((tot, []), s)

pub readi : (i off n : ℕ) (copied : ℕ → ℕ → ℕ) → M (ℕ × List ℕ)
unfolding readi_from
readi i off n copied s = elim (get_elem? s.itable i) [
  | none ↦ panic
  | some ip ↦
      let size = ip.copy.size in
      let n' = if ltb size (add32 off n) then size - off else n in
      if ltb size off || ltb (add32 off n) off
      then ok ((0, []), s)
      else readi_from n' 0 off n' i copied s
]

-- `memmove` of the first `k` bytes of `src` to byte `o` of a block.
abbrev pub fill : (k o : ℕ) (src : ℕ → ℕ) → (ℕ → ℕ) → ℕ → ℕ
fill k o src f x = if leb o x && ltb x (o + k) then src (x - o) else f x

abbrev pub write_block : (addr k o : ℕ) (src : ℕ → ℕ) → Fs → Fs
write_block addr k o src s = record s {
  data_bytes = put s.data_bytes addr (fill k o src (s.data_bytes addr));
}

-- The loop of `writei` of slot `i`, on fuel: `tot` and `off` at its end. `src` is the caller's memory
-- from the start of the block that is written.
pub writei_from : (fuel tot off n i : ℕ) (src : ℕ → ℕ) (copied : ℕ → ℕ → ℕ) → M (ℕ × ℕ)
writei_from zero tot off n i src copied s = ok ((tot, off), s)
writei_from (suc fuel) tot off n i src copied s =
    let m = chunk tot off n in
    let next = writei_from fuel (tot + m) (off + m) n i src copied in
    let step : Result ((ℕ × ℕ) × Fs) = elim (bmap i (off / bsize) s) [
      | panic ↦ panic
      | ok (addr, t) ↦
          let k = min (copied tot m) m in
          let u = write_block addr k (off % bsize) (λ x. src (tot + x)) t in
          let more = next (log_write addr u) in
          if addr == 0 then ok ((tot, off), t) else if ltb k m then ok ((tot, off), u) else more
    ] in
    if ltb tot n then step else ok ((tot, off), s)

abbrev pub extended : ℕ → Inode → Inode
extended off ip =
    if ltb ip.copy.size off then record ip { copy = record (ip.copy) { size = off } } else ip

pub writei : (i off n : ℕ) (src : ℕ → ℕ) (copied : ℕ → ℕ → ℕ) → M ℕ
unfolding writei_from
writei i off n src copied s = elim (get_elem? s.itable i) [
  | none ↦ panic
  | some ip ↦
      let written : Result (ℕ × Fs) = elim (writei_from n 0 off n i src copied s) [
        | panic ↦ panic
        | ok ((tot, off'), t) ↦
            (do iupdate i; (λ u. ok (tot, u))) (on_table (modify i (extended off')) t)
      ] in
      if ltb ip.copy.size off || ltb (add32 off n) off
      then ok (minus_one, s)
      else if ltb ((ndirect + nindirect) * bsize) (add32 off n)
      then ok (minus_one, s)
      else written
]
