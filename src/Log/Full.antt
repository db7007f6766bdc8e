-- ===== src/Log/Full.antt =====
-- log.c: three operations that `begin_op` has let in, on a log of `LOGSIZE` blocks, as mkfs.c makes it.
use mathlib.Core.List.{append_assoc, append-nil}
use pplottery.Prelude.{
  ℕ, ◌+◌, ◌<◌, ◌≡◌, refl, sym, ap, subst, ◌∙◌, false, Option, none, some, List, [], ◌∷◌, ◌++◌, ◌==◌,
  length, length-append, arith, Result, ok, panic,
}
use pplottery.Log.{Store, Log, logsize, log_write, begin_op, contains, bpin}
use pplottery.Log.Space.{Reserved, Distinct}

-- `begin_op` by three processes, one after the other.
abbrev pub three_begin : Log → Option Log
three_begin lg = elim (begin_op lg) [
  | none ↦ none
  | some lg1 ↦ elim (begin_op lg1) [ none ↦ none | some lg2 ↦ begin_op lg2 ]
]

-- `log_write` of each of the blocks, in order.
abbrev pub write_each : {B : Type 0} → List ℕ → Log → Store B → Result (Log × Store B)
write_each [] lg st = ok (lg, st)
write_each (b ∷ bs) lg st = elim (log_write b lg st) [
  | panic ↦ panic
  | ok (lg', st') ↦ write_each bs lg' st'
]

fresh_block :
    (xs : List ℕ) (b : ℕ) (bs : List ℕ) → Distinct (xs ++ (b ∷ bs)) → contains xs b ≡ false
fresh_block [] b bs d = refl
fresh_block (x ∷ xs) b bs (out, d) =
    let other : (x == b) ≡ false = ground (arith, differ xs x b bs out) in
    rw other (fresh_block xs b bs d)
  where
    differ :
        (ys : List ℕ) (x b : ℕ) (bs : List ℕ)
        → contains (ys ++ (b ∷ bs)) x ≡ false
        → (b == x) ≡ false
    differ [] x b bs out = ground (arith, out)
    differ (y ∷ ys) x b bs out = differ ys x b bs (ground (arith, out))

write_new :
    {B : Type 0} (b : ℕ) (lg : Log) (st : Store B)
    → lg.size ≡ logsize
    → lg.outstanding ≡ 3
    → length lg.lh + 1 < logsize
    → contains lg.lh b ≡ false
    → log_write b lg st ≡ ok (record lg { lh = lg.lh ++ (b ∷ []) }, bpin b st)
unfolding log_write
write_new b lg st size ops room new = ground (arith, size, ops, room, new)

-- With room in the log, distinct blocks are listed one behind the other.
write_each-lists :
    {B : Type 0} (bs : List ℕ) (lg : Log) (st : Store B)
    → lg.size ≡ logsize
    → lg.outstanding ≡ 3
    → length lg.lh + length bs < logsize
    → Distinct (lg.lh ++ bs)
    → (st' : Store B) × (write_each bs lg st ≡ ok (record lg { lh = lg.lh ++ bs }, st'))
write_each-lists [] lg st size ops room d =
    (st, ap (λ l. ok (record lg { lh = l }, st)) (sym (append-nil lg.lh)))
write_each-lists (b ∷ bs) lg st size ops room d =
    let first = write_new b lg st size ops (omega (arith, room)) (fresh_block lg.lh b bs d) in
    let next : Log = record lg { lh = lg.lh ++ (b ∷ []) } in
    let same = append_assoc lg.lh (b ∷ []) bs in
    let (st', run) =
      write_each-lists bs next (bpin b st) size ops
        (omega (arith, room, length-append lg.lh (b ∷ []))) (subst Distinct (sym same) d) in
    (st', rw (first, write_each) (run ∙ ap (λ l. ok (record lg { lh = l }, st')) same))

three_begin-lets_in :
    (lg : Log)
    → lg.lh ≡ []
    → lg.outstanding ≡ 0
    → lg.committing ≡ false
    → three_begin lg ≡ some (record lg { outstanding = 3 })
unfolding begin_op
three_begin-lets_in lg empty ops idle = rw (three_begin, begin_op, empty, ops, idle) refl

-- On an idle, empty log of `LOGSIZE` blocks `begin_op` lets in three operations, with a reservation of
-- thirty blocks between them. After 29 different blocks have been written, one of the thirty is
-- still reserved, but `log_write` panics at the next, whichever block it is.
pub begin_op-log_write-panic :
    {B : Type 0} (bs : List ℕ) (b : ℕ) (lg : Log) (st : Store B)
    → lg.size ≡ logsize
    → lg.lh ≡ []
    → lg.outstanding ≡ 0
    → lg.committing ≡ false
    → Distinct bs
    → length bs ≡ 29
    → (lg3 : Log) × (lg' : Log) × (st' : Store B) × (three_begin lg ≡ some lg3)
      × Reserved lg3 30
      × (write_each bs lg3 st ≡ ok (lg', st'))
      × Reserved lg' 1
      × (log_write b lg' st' ≡ panic)
unfolding log_write
begin_op-log_write-panic bs b lg st size empty ops idle d count =
    let lg3 : Log = record lg { outstanding = 3 } in
    let full : Log = record lg { outstanding = 3; lh = lg.lh ++ bs } in
    let held : length full.lh ≡ 29 = rw empty count in
    let (st', run) =
      write_each-lists bs lg3 st size refl (rw empty (omega (arith, count))) (rw empty d) in
    (
      lg3,
      full,
      st',
      three_begin-lets_in lg empty ops idle,
      record { each = omega arith; room = rw empty (omega arith); few = omega arith },
      run,
      record { each = omega arith; room = omega (arith, held); few = omega arith },
      ground (arith, size, held),
    )
