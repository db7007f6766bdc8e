-- ===== src/Log/Space.antt =====
-- The space of the log: what `begin_op` reserves is enough for `log_write`, if the log has a block
-- more than `LOGSIZE`.
use pplottery.Prelude.{
  ℕ, suc, ◌-◌, sub32, ◌+◌, ◌*◌, ◌<◌, ◌≤◌, ◌≡◌, refl, sym, ap, Bool, true, false, some, List, [],
  ◌∷◌, ◌++◌, ◌==◌, if◌then◌else◌, length, length-append, arith, Bool-cases, inl, inr, ok,
}
use pplottery.Log.{
  Store, Log, logsize, maxopblocks, log_write, begin_op, end_op, commit, contains, bpin,
}

-- The operations under way may still add `left` blocks to the log: at most ten each, and there is
-- room for them. There are at most three.
pub record Reserved (lg : Log) (left : ℕ) : Type 0 where
  pub each : left ≤ maxopblocks * lg.outstanding
  pub room : length lg.lh + left ≤ logsize
  pub few : lg.outstanding * maxopblocks ≤ logsize

-- No block is listed twice.
abbrev pub Distinct : List ℕ → Type 0
Distinct [] = Unit {0}
Distinct (b ∷ bs) = (contains bs b ≡ false) × Distinct bs

contains-append :
    (bs : List ℕ) (b c : ℕ) → contains (bs ++ (b ∷ [])) c ≡ (if contains bs c then true else b == c)
contains-append [] b c = ground arith
contains-append (d ∷ bs) b c = ground (arith, contains-append bs b c)

Distinct-append :
    (bs : List ℕ) (b : ℕ) → Distinct bs → contains bs b ≡ false → Distinct (bs ++ (b ∷ []))
Distinct-append [] b d out = (refl, tt)
Distinct-append (c ∷ bs) b d out =
    (ground (arith, contains-append bs b c), Distinct-append bs b d.1 (ground arith))

-- `begin_op` lets an operation in only if no commit is under way and ten more blocks fit.
begin_op-Reserved :
    (lg lg' : Log) (left : ℕ)
    → Reserved lg left
    → begin_op lg ≡ some lg'
    → Reserved lg' (left + maxopblocks)
      × (lg.committing ≡ false)
      × (lg'.outstanding ≡ lg.outstanding + 1)
unfolding begin_op
begin_op-Reserved lg lg' left v e = ground arith

-- With a log of more than `LOGSIZE` blocks, an operation that is under way and has a block left of
-- its reservation can call `log_write`: it does not panic, the block is listed afterwards, no
-- block is listed twice, and the reservation of the others still holds.
pub log_write-Reserved :
    {B : Type 0} (b : ℕ) (lg : Log) (st : Store B) (left : ℕ)
    → Reserved lg (suc left)
    → logsize < lg.size
    → Distinct lg.lh
    → (lg' : Log) × (st' : Store B) × (log_write b lg st ≡ ok (lg', st'))
      × Reserved lg' left
      × (contains lg'.lh b ≡ true)
      × Distinct lg'.lh
unfolding log_write
log_write-Reserved b lg st left v big d = elim (Bool-cases (contains lg.lh b)) [
  | inl old ↦ (lg, st, ground arith, ground arith, old, d)
  | inr new ↦ (
    record lg { lh = lg.lh ++ (b ∷ []) },
    bpin b st,
    ground arith,
    ground (arith, length-append lg.lh (b ∷ [])),
    ground (arith, contains-append lg.lh b b),
    Distinct-append lg.lh b d new,
  )
]

commit-emptied :
    {B : Type 0} (start size out : ℕ) (c : Bool) (lh : List ℕ) (st : Store B)
    → (commit
        (record { start = start; size = size; outstanding = out; committing = c; lh = lh })
        st).0
      ≡ record { start = start; size = size; outstanding = out; committing = c; lh = [] }
unfolding commit
commit-emptied start size out c [] st = refl
commit-emptied start size out c (b ∷ bs) st = refl

-- When one of the operations under way ends, with `own` of its reservation left, and no commit is
-- under way, `end_op` does not panic. If others are under way their reservation still holds, and
-- the log is as before; if not, the store is the one after the commit and the log is empty.
end_op-Reserved :
    {B : Type 0} (lg : Log) (st : Store B) (own left : ℕ)
    → Reserved lg (own + left)
    → left + maxopblocks ≤ maxopblocks * lg.outstanding
    → lg.committing ≡ false
    → (lg' : Log) × (st' : Store B) × (end_op lg st ≡ ok (lg', st'))
      × Reserved lg' left
      × (lg'.committing ≡ false)
      × (lg'.outstanding ≡ lg.outstanding - 1)
      × (1 < lg.outstanding → (lg'.lh ≡ lg.lh) × (st' ≡ st))
      × (lg.outstanding ≡ 1
          → (lg'.lh ≡ [])
            × (st' ≡ (commit (record lg { outstanding = 0; committing = true }) st).1))
unfolding end_op
end_op-Reserved lg st own left v share idle =
    let one_less : sub32 lg.outstanding 1 ≡ lg.outstanding - 1 = omega (arith, v.few) in
    elim (Bool-cases (lg.outstanding == 1)) [
      | inr others ↦
          let more : (lg.outstanding - 1 == 0) ≡ false = ground arith in
          (
            record lg { outstanding = lg.outstanding - 1 },
            st,
            rw (one_less, idle, more) refl,
            record {
              each = omega (arith, v.each);
              room = omega (arith, v.room);
              few = omega (arith, v.few);
            },
            idle,
            refl,
            (λ h. (refl, refl)),
            (λ h. ground arith),
          )
      | inl last ↦
          let zero_left : lg.outstanding - 1 ≡ 0 = ground arith in
          (
            record lg { outstanding = 0; committing = false; lh = [] },
            (commit (record lg { outstanding = 0; committing = true }) st).1,
            rw (one_less, idle, zero_left)
                (ap
                  (λ l. ok (
                    record l { committing = false },
                    (commit (record lg { outstanding = 0; committing = true }) st).1,
                  ))
                  (commit-emptied lg.start lg.size 0 true lg.lh st)),
            record { each = ground (arith, last); room = ground arith; few = omega arith },
            refl,
            sym zero_left,
            (λ h. ground arith),
            (λ h. (refl, refl)),
          )
    ]
