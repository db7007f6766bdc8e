-- ===== src/Log.antt =====
-- log.c: the redo log. The disk is the header block of the log, read as the list of the block
-- numbers in it, and the other blocks; `B` is the type of a block's data. A buffer whose data may
-- differ from the disk's is `dirty`; other buffers hold what the disk holds.
pub mod Phases
pub mod Install
pub mod Crash
pub mod Space
pub mod Full
mod Tests
use pplottery.Prelude.{
  ℕ, ◌+◌, ◌-◌, ◌*◌, Bool, true, false, ◌||◌, Option, none, some, List, [], ◌∷◌, ◌++◌, ◌==◌, leb,
  ltb, if◌then◌else◌, length, sub32, slt32, Result, ok, panic,
}

abbrev pub maxopblocks : ℕ
maxopblocks = 10

abbrev pub logsize : ℕ
logsize = 30

pub record Disk (B : Type 0) : Type 0 where
  pub head : List ℕ
  pub block : ℕ → B

-- The disk, the dirty buffers, how often each buffer is pinned, and every state that the disk has
-- gone through, the newest first: a crash leaves one of these.
pub record Store (B : Type 0) : Type 0 where
  pub disk : Disk B
  pub dirty : ℕ → Option B
  pub pins : ℕ → ℕ
  pub past : List (Disk B)

-- `struct log` without its lock: `lh` lists `lh.block[0 .. lh.n)`.
pub record Log : Type 0 where
  pub start : ℕ
  pub size : ℕ
  pub outstanding : ℕ
  pub committing : Bool
  pub lh : List ℕ

abbrev pub put {ℓ} : {A : Type ℓ} → (ℕ → A) → ℕ → A → ℕ → A
put f b v c = if b == c then v else f c

module _ {B : Type 0} where
  -- `bread(dev, b)->data`
  pub bread : ℕ → Store B → B
  bread b st = elim (st.dirty b) [ none ↦ st.disk.block b | some v ↦ v ]

  -- The disk after `bwrite` of block `b` with data `v`, and of the header.
  abbrev with_block : ℕ → B → Disk B → Disk B
  with_block b v d = record d { block = put d.block b v }

  -- `bwrite` of a buffer for block `b` that holds `v`.
  pub bwrite : ℕ → B → Store B → Store B
  bwrite b v st = record st {
    disk = with_block b v st.disk;
    dirty = put st.dirty b none;
    past = with_block b v st.disk ∷ st.past;
  }

  pub write_head : List ℕ → Store B → Store B
  write_head lh st =
      let d = record (st.disk) { head = lh } in record st { disk = d; past = d ∷ st.past }

  -- `bpin` and `bunpin`
  abbrev pub bpin : ℕ → Store B → Store B
  bpin b st = record st { pins = put st.pins b (st.pins b + 1) }

  abbrev pub bunpin : ℕ → Store B → Store B
  bunpin b st = record st { pins = put st.pins b (st.pins b - 1) }

  -- The loops of `write_log` and `install_trans`, from `tail` on; the list is the rest of `lh`.
  pub write_log_from : (start tail : ℕ) → List ℕ → Store B → Store B
  unfolding bread bwrite
  write_log_from start tail [] st = st
  write_log_from start tail (b ∷ bs) st =
      write_log_from start (tail + 1) bs (bwrite (start + tail + 1) (bread b st) st)

  pub install_from : (start tail : ℕ) (recovering : Bool) → List ℕ → Store B → Store B
  unfolding bread bwrite
  install_from start tail recovering [] st = st
  install_from start tail recovering (b ∷ bs) st =
      let st' = bwrite b (bread (start + tail + 1) st) st in
      install_from start (tail + 1) recovering bs (if recovering then st' else bunpin b st')

  -- `commit`: the log and the store after it.
  pub commit : Log → Store B → Log × Store B
  unfolding write_log_from install_from write_head
  commit lg st = elim (lg.lh) [
    | [] ↦ (lg, st)
    | b ∷ bs ↦ (
      record lg { lh = [] },
      write_head [] (
          install_from lg.start 0 false (b ∷ bs)
            (write_head (b ∷ bs) (write_log_from lg.start 0 (b ∷ bs) st))),
    )
  ]

  -- `recover_from_log` after a start with nothing in memory: `read_head`, `install_trans(1)`, and
  -- the cleared header.
  pub recover : (start : ℕ) → Disk B → Store B
  unfolding install_from write_head
  recover start d = write_head [] (
      install_from start 0 true d.head
        (record { disk = d; dirty = λ b. none; pins = λ b. 0; past = [] }))

abbrev pub contains : List ℕ → ℕ → Bool
contains [] b = false
contains (c ∷ cs) b = if c == b then true else contains cs b

-- `log_write` of a buffer for block `b`.
pub log_write : {B : Type 0} → ℕ → Log → Store B → Result (Log × Store B)
log_write b lg st =
    if leb logsize (length lg.lh) || leb (lg.size - 1) (length lg.lh)
    then panic
    else if slt32 lg.outstanding 1
    then panic
    else if contains lg.lh b
    then ok (lg, st)
    else ok (record lg { lh = lg.lh ++ (b ∷ []) }, bpin b st)

-- One round of `begin_op`: none if it goes to sleep.
pub begin_op : Log → Option Log
begin_op lg =
    if lg.committing
    then none
    else if ltb logsize (length lg.lh + (lg.outstanding + 1) * maxopblocks)
    then none
    else some (record lg { outstanding = lg.outstanding + 1 })

-- `end_op`
pub end_op : {B : Type 0} → Log → Store B → Result (Log × Store B)
unfolding commit
end_op lg st =
    let left = sub32 lg.outstanding 1 in
    let lg' = record lg { outstanding = left } in
    let done = commit (record lg' { committing = true }) st in
    if lg.committing
    then panic
    else if left == 0
    then ok (record (done.0) { committing = false }, done.1)
    else ok (lg', st)
