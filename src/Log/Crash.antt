-- ===== src/Log/Crash.antt =====
-- A commit is atomic: whatever disk state a crash leaves, recovery yields all of the transaction
-- or none of it. Recovery itself may crash and be run again.
use pplottery.Prelude.{
  Bool, sym, ℕ, ◌+◌, ◌<◌, ◌≡◌, refl, ◌∙◌, true, false, none, List, [], ◌∷◌, if◌then◌else◌, length,
  arith, Bool-cases, inl, inr, ◌⊎◌,
}
use pplottery.Log.{
  Log, commit, Disk, Store, bread, write_head, write_log_from, install_from, recover, contains,
}
use pplottery.Log.Phases.{All, IsHome, LogHolds, SameHomes, Logged, write_log_from-Logged}
use pplottery.Log.Install.{Redoing, Redoing-refl, Installed, install_from-Installed}

module _ {B : Type 0} (start size : ℕ) where
  -- The two disks agree outside the log.
  abbrev pub Agrees : (ℕ → B) → Disk B → Type 0
  Agrees f d = (b : ℕ) → IsHome start size b → d.block b ≡ f b

  -- The header lists `bs`, and the log on the disk holds the data of `view` for them.
  abbrev DiskHolds : (tail : ℕ) → List ℕ → (ℕ → B) → Disk B → Type 0
  DiskHolds tail [] view d = Unit {0}
  DiskHolds tail (b ∷ bs) view d =
      (d.block (start + tail + 1) ≡ view b) × DiskHolds (tail + 1) bs view d

  abbrev cold : Disk B → Store B
  cold d = record { disk = d; dirty = λ b. none; pins = λ b. 0; past = [] }

  DiskHolds-LogHolds :
      (tail : ℕ) (bs : List ℕ) (view : ℕ → B) (d : Disk B)
      → DiskHolds tail bs view d
      → LogHolds start size tail bs view (cold d)
  DiskHolds-LogHolds tail [] view d h = tt
  DiskHolds-LogHolds tail (b ∷ bs) view d h =
      (h.0, refl, DiskHolds-LogHolds (tail + 1) bs view d h.1)

  LogHolds-DiskHolds :
      (tail : ℕ) (bs : List ℕ) (view : ℕ → B) (st : Store B)
      → LogHolds start size tail bs view st
      → DiskHolds tail bs view st.disk
  LogHolds-DiskHolds tail [] view st h = tt
  LogHolds-DiskHolds tail (b ∷ bs) view st h = (h.0, LogHolds-DiskHolds (tail + 1) bs view st h.2)

  LogHolds-write_head :
      (tail : ℕ) (bs lh : List ℕ) (view : ℕ → B) (st : Store B)
      → LogHolds start size tail bs view st
      → LogHolds start size tail bs view (write_head lh st)
  unfolding write_head
  LogHolds-write_head tail [] lh view st h = tt
  LogHolds-write_head tail (b ∷ bs) lh view st h =
      (h.0, h.1, LogHolds-write_head (tail + 1) bs lh view st h.2)

  DiskHolds-Redoing :
      (tail : ℕ) (bs cs : List ℕ) (view : ℕ → B) (d d' : Disk B)
      → tail + length cs < size
      → Redoing start size bs d d'
      → DiskHolds tail cs view d
      → DiskHolds tail cs view d'
  DiskHolds-Redoing tail bs [] view d d' fits r h = tt
  DiskHolds-Redoing tail bs (c ∷ cs) view d d' fits r h = (
    r.log tail (omega arith) ∙ h.0,
    DiskHolds-Redoing (tail + 1) bs cs view d d' (omega arith) r h.1,
  )

  -- What recovery makes of a disk whose header lists `bs`.
  recover-installed :
      (bs : List ℕ) (view : ℕ → B) (d : Disk B)
      → d.head ≡ bs
      → length bs < size
      → All (IsHome start size) bs
      → DiskHolds 0 bs view d
      → (b : ℕ) → IsHome start size b
      → (recover start d).disk.block b ≡ (if contains bs b then view b else d.block b)
  unfolding recover write_head
  recover-installed bs view d head fits homes holds b home = simp head (
      (install_from-Installed start size 0 true bs view (cold d) (omega arith) homes
          (DiskHolds-LogHolds 0 bs view d holds)).homes
        b home)

  -- The disk that recovery yields carries the old data, or the new.
  abbrev Recovers : (ℕ → B) → Disk B → Type 0
  Recovers f d = Agrees f (recover start d).disk

  module _ (bs : List ℕ) (st : Store B) (clean : st.disk.head ≡ []) (fits : length bs < size)
      (homes : All (IsHome start size) bs) where
    abbrev pub old : ℕ → B
    old = st.disk.block

    abbrev pub new : ℕ → B
    new b = if contains bs b then bread b st else st.disk.block b

    -- Before the header is written, recovery finds an empty log.
    before-Recovers : (d : Disk B) → SameHomes start size st.disk d → Recovers old d
    before-Recovers d same b home =
        recover-installed [] old d (same.0 ∙ clean) (omega arith) tt tt b home ∙ same.1 b home

    st1 : Store B
    st1 = write_log_from start 0 bs st

    logged : Logged start size 0 bs st st1
    unfolding st1
    logged = write_log_from-Logged start size 0 bs st (omega arith) homes

    st2 : Store B
    st2 = write_head bs st1

    logged2 : LogHolds start size 0 bs (λ c. bread c st) st2
    unfolding st2
    logged2 = LogHolds-write_head 0 bs bs (λ c. bread c st) st1 logged.holds

    unlisted :
        (d : Disk B) (b : ℕ)
        → (contains bs b ≡ false → d.block b ≡ st.disk.block b)
        → (if contains bs b then bread b st else d.block b) ≡ new b
    unlisted d b same = elim (Bool-cases (contains bs b)) [
      | inl listed ↦ rw listed
      | inr out ↦ rw out (same out)
    ]

    -- From then on recovery installs the new data, also over a part of them.
    after-Recovers : (d : Disk B) → Redoing start size bs st2.disk d → Recovers new d
    unfolding st2 write_head
    after-Recovers d r b home =
        recover-installed bs (λ c. bread c st) d r.head fits homes
          (DiskHolds-Redoing 0 bs bs (λ c. bread c st) st2.disk d (omega arith) r
            (LogHolds-DiskHolds 0 bs (λ c. bread c st) st2 logged2))
          b home
        ∙ unlisted d b (λ out. r.rest b home out ∙ logged.homes.1 b home)

    st3 : Store B
    st3 = install_from start 0 false bs st2

    installed : Installed start size bs (λ c. bread c st) st2 st3
    unfolding st3 st2 write_head
    installed =
        install_from-Installed start size 0 false bs (λ c. bread c st) st2 (omega arith) homes
          logged2

    -- The homes once everything is installed.
    st3-new : (b : ℕ) → IsHome start size b → st3.disk.block b ≡ new b
    unfolding st2 write_head
    st3-new b home = installed.homes b home ∙ unlisted st2.disk b (λ out. logged.homes.1 b home)

    abbrev Atomic : Disk B → Type 0
    Atomic d = Recovers old d ⊎ Recovers new d

    done-Recovers : Recovers new (write_head [] st3).disk
    unfolding write_head
    done-Recovers b home =
        recover-installed [] new (write_head [] st3).disk refl (omega arith) tt tt b home
        ∙ st3-new b home

    past-Atomic : All Atomic st.past → All Atomic (write_head [] st3).past
    unfolding write_head st2 st3
    past-Atomic h = (
      inr done-Recovers,
      installed.past Atomic (λ d r. inr (after-Recovers d r))
          (
            inr (after-Recovers st2.disk (Redoing-refl start size bs st2.disk)),
            logged.past Atomic (λ d same. inl (before-Recovers d same)) h,
          ),
    )

    -- The disk after the commit, and every one before it.
    abbrev pub Committed : Log × Store B → Type 0
    Committed (lg', st') =
        All Atomic st'.past × (lg'.lh ≡ []) × (st'.disk.head ≡ []) × Agrees new st'.disk

    done-Committed :
        (lg : Log) → st.past ≡ [] → Committed (record lg { lh = [] }, write_head [] st3)
    unfolding write_head
    done-Committed lg fresh = (past-Atomic (rw fresh tt), refl, refl, st3-new)

  commit-Committed :
      (out : ℕ) (busy : Bool) (bs : List ℕ) (st : Store B)
      → (clean : st.disk.head ≡ []) → (fits : length bs < size)
      → (homes : All (IsHome start size) bs) → st.past ≡ []
      → Committed bs st clean fits homes (
          commit
            (record { start = start; size = size; outstanding = out; committing = busy; lh = bs })
            st)
  unfolding commit st1 st2 st3
  commit-Committed out busy [] st clean fits homes fresh = (rw fresh tt, refl, clean, λ b h. refl)
  commit-Committed out busy (b ∷ bs) st clean fits homes fresh =
      done-Committed (b ∷ bs) st clean fits homes
        (record { start = start; size = size; outstanding = out; committing = busy; lh = b ∷ bs })
        fresh

-- A commit of a transaction that fits the log and has no block of the log in it, on a disk with an
-- empty log: each state that the disk goes through recovers to the data from before or to the
-- data of the transaction, outside the log; the last one holds the transaction and an empty log.
pub commit-Atomic :
    {B : Type 0} (lg : Log) (st : Store B)
    → (clean : st.disk.head ≡ []) → (fits : length lg.lh < lg.size)
    → (homes : All (IsHome lg.start lg.size) lg.lh) → st.past ≡ []
    → Committed lg.start lg.size lg.lh st clean fits homes (commit lg st)
commit-Atomic lg st clean fits homes fresh =
    commit-Committed lg.start lg.size lg.outstanding lg.committing lg.lh st clean fits homes fresh

-- Recovery can be interrupted: each state that the disk goes through during a recovery recovers to
-- the same data outside the log, provided that equal block numbers in the header stand for equal
-- data in the log.
pub recover-idempotent :
    {B : Type 0} (start size : ℕ) (view : ℕ → B) (d : Disk B)
    → length d.head < size
    → All (IsHome start size) d.head
    → DiskHolds start size 0 d.head view d
    → All
        (λ d'. Agrees start size (recover start d).disk.block (recover start d').disk)
        (recover start d).past
unfolding recover write_head
recover-idempotent {B} start size view d fits homes holds = (done, before)
  where
    inst :
        Installed start size d.head view
          (cold start size d)
          (install_from start 0 true d.head (cold start size d))
    inst =
        install_from-Installed start size 0 true d.head view (cold start size d) (omega arith) homes
          (DiskHolds-LogHolds start size 0 d.head view d holds)

    done :
        Agrees start size (recover start d).disk.block (recover start (recover start d).disk).disk
    done b home =
        recover-installed start size [] (recover start d).disk.block (recover start d).disk refl
          (omega arith) tt tt b home

    again :
        (d' : Disk B)
        → Redoing start size d.head d d'
        → Agrees start size (recover start d).disk.block (recover start d').disk
    again d' r b home =
        recover-installed start size d.head view d' r.head fits homes
          (DiskHolds-Redoing start size 0 d.head d.head view d d' (omega arith) r holds) b home
        ∙ left_alone (contains d.head b) refl
        ∙ sym (inst.homes b home)
      where
        left_alone :
            (listed : Bool)
            → contains d.head b ≡ listed
            → (if listed then view b else d'.block b) ≡ (if listed then view b else d.block b)
        left_alone true e = refl
        left_alone false e = r.rest b home e

    before :
        All
          (λ d'. Agrees start size (recover start d).disk.block (recover start d').disk)
          (install_from start 0 true d.head (cold start size d)).past
    before = inst.past _ again tt
