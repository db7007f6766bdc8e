-- ===== src/Pipe.antt =====
-- pipe.c. A call holds `pi->lock` from its start, and from each wakeup, to its next sleep or its
-- return; the loops below are what happens in between.
pub mod Contents
pub mod Transfer
pub mod Close
mod Tests
use pplottery.Prelude.{
  ℕ, zero, suc, ◌+◌, ◌%◌, Bool, true, false, ◌&&◌, ◌||◌, not, Option, none, some, List, [], ◌∷◌,
  ◌==◌, if◌then◌else◌, add32, get_or, set,
}

abbrev pub pipesize : ℕ
pipesize = 512

-- `struct pipe`; `nread` and `nwrite` are `uint`s that wrap.
pub record Pipe : Type 0 where
  pub data_bytes : List ℕ
  pub nread : ℕ
  pub nwrite : ℕ
  pub readopen : Bool
  pub writeopen : Bool

-- What `pipealloc` makes of a page of junk, of which the first bytes are the buffer.
pipealloc : List ℕ → Pipe
pipealloc junk = record {
  data_bytes = junk;
  nread = 0;
  nwrite = 0;
  readopen = true;
  writeopen = true;
}

abbrev pub is_full : Pipe → Bool
is_full pi = pi.nwrite == add32 pi.nread pipesize

abbrev pub is_empty : Pipe → Bool
is_empty pi = pi.nread == pi.nwrite

-- `pi->data[pi->nwrite++ % PIPESIZE] = ch`
pub put_byte : ℕ → Pipe → Pipe
put_byte ch pi = record pi {
  data_bytes = set pi.data_bytes (pi.nwrite % pipesize) ch;
  nwrite = add32 pi.nwrite 1;
}

-- `pi->data[pi->nread++ % PIPESIZE]`
pub get_byte : Pipe → ℕ × Pipe
get_byte pi = (get_or pi.data_bytes (pi.nread % pipesize) 0, record pi { nread = add32 pi.nread 1 })

-- How a stretch of `pipewrite` ends: it has failed with -1; it returns a count, having woken the
-- readers; or the pipe is full, and it has woken the readers and sleeps on `&pi->nwrite`.
pub data WriteEnd : Type 0 where
  write_failed : Pipe → WriteEnd
  written : ℕ → Pipe → WriteEnd
  write_sleeps : ℕ → Pipe → WriteEnd

-- The loop of `pipewrite` with `k = n - i` bytes to go. `src i` is what `copyin` gets from
-- `addr + i`, none if it fails; `killed i` is what `killed(pr)` returns in that round.
pub write_loop : (k i : ℕ) (src : ℕ → Option ℕ) (killed : ℕ → Bool) → Pipe → WriteEnd
write_loop zero i src killed pi = written i pi
write_loop (suc k) i src killed pi =
    if not pi.readopen || killed i
    then write_failed pi
    else if is_full pi
    then write_sleeps i pi
    else elim (src i) [
      | none ↦ written i pi
      | some ch ↦ write_loop k (i + 1) src killed (put_byte ch pi)
    ]

-- The copy loop of `piperead` with `k` bytes to go: the bytes copied out, those taken from the
-- pipe and then not copied out, and the pipe. `dst i` is whether `copyout` to `addr + i` succeeds.
pub read_loop : (k i : ℕ) (dst : ℕ → Bool) → Pipe → List ℕ × List ℕ × Pipe
read_loop zero i dst pi = ([], [], pi)
read_loop (suc k) i dst pi =
    let (ch, pi') = get_byte pi in
    let rest = read_loop k (i + 1) dst pi' in
    if is_empty pi
    then ([], [], pi)
    else if dst i
    then (ch ∷ rest.0, rest.1, rest.2)
    else ([], ch ∷ [], pi')

-- How a stretch of `piperead` ends: -1; asleep on `&pi->nread`; or a return of the bytes copied
-- out, their number being the result, with the writers woken.
pub data ReadEnd : Type 0 where
  read_failed : ReadEnd
  read_sleeps : ReadEnd
  got : List ℕ → List ℕ → Pipe → ReadEnd

pub piperead : (n : ℕ) (dst : ℕ → Bool) (killed : Bool) → Pipe → ReadEnd
unfolding read_loop get_byte
piperead n dst killed pi =
    let (out, lost, pi') = read_loop n 0 dst pi in
    if is_empty pi && pi.writeopen
    then (if killed then read_failed else read_sleeps)
    else got out lost pi'

-- Which end `pipeclose` wakes, the pipe, and whether its page is freed.
pub data Wakes : Type 0 where
  readers writers : Wakes

pub pipeclose : (writable : Bool) → Pipe → Wakes × Pipe × Bool
pipeclose writable pi =
    let pi' =
      if writable then record pi { writeopen = false } else record pi { readopen = false } in
    (if writable then readers else writers, pi', not pi'.readopen && not pi'.writeopen)
