-- ===== src/Log/Phases.antt =====
-- The two loops of a commit, and the disk states that they go through.
use pplottery.Prelude.{
  ℕ, ◌+◌, ◌<◌, ◌≡◌, ◌≢◌, refl, ◌∙◌, Bool, false, ◌&&◌, none, List, [], ◌∷◌, ◌==◌, leb, ltb, length,
  arith,
}
use pplottery.Log.{Disk, Store, bread, bwrite, write_log_from}

-- Every element of a list has the property.
abbrev pub All {ℓ κ} : {A : Type ℓ} → (A → Type κ) → List A → Type κ
All P [] = Unit
All P (x ∷ xs) = P x × All P xs

All-mono {ℓ κ μ} :
    {A : Type ℓ} {P : A → Type κ} {Q : A → Type μ} (xs : List A)
    → ((a : A) → P a → Q a)
    → All P xs
    → All Q xs
All-mono [] f h = tt
All-mono (x ∷ xs) f h = (f x h.0, All-mono xs f h.1)

module _ (start size : ℕ) where
  -- Block `b` is one of the log's own blocks.
  abbrev in_log : ℕ → Bool
  in_log b = leb start b && ltb b (start + size)

  abbrev pub IsHome : ℕ → Type 0
  IsHome b = in_log b ≡ false

  -- A block of the log is no other block.
  pub home_ne : (tail b : ℕ) → tail + 1 < size → IsHome b → (start + tail + 1 == b) ≡ false
  home_ne tail b fits home = ground arith

module _ {B : Type 0} (start size : ℕ) where
  -- The blocks of the log from number `tail` on hold what `view` has for the listed blocks, on the
  -- disk and in memory.
  abbrev pub LogHolds : (tail : ℕ) → List ℕ → (ℕ → B) → Store B → Type 0
  LogHolds tail [] view st = Unit {0}
  LogHolds tail (b ∷ bs) view st =
      (st.disk.block (start + tail + 1) ≡ view b)
      × (st.dirty (start + tail + 1) ≡ none)
      × LogHolds (tail + 1) bs view st

  -- The same header, and the same data outside the log.
  abbrev pub SameHomes : Disk B → Disk B → Type 0
  SameHomes d d' = (d'.head ≡ d.head) × ((b : ℕ) → IsHome start size b → d'.block b ≡ d.block b)

  pub record Logged (tail : ℕ) (bs : List ℕ) (st st' : Store B) : Type 1 where
    pub homes : SameHomes st.disk st'.disk
    pub reads : (b : ℕ) → IsHome start size b → bread b st' ≡ bread b st
    pub earlier :
        (u : ℕ)
        → u < tail
        → (st'.disk.block (start + u + 1) ≡ st.disk.block (start + u + 1))
          × (st'.dirty (start + u + 1) ≡ st.dirty (start + u + 1))
    pub holds : LogHolds tail bs (λ b. bread b st) st'
    pub past :
        (P : Disk B → Type 0)
        → ((d' : Disk B) → SameHomes st.disk d' → P d')
        → All P st.past
        → All P st'.past

  bread-bwrite_ne : (b c : ℕ) (v : B) (st : Store B) → b ≢ c → bread c (bwrite b v st) ≡ bread c st
  unfolding bread bwrite
  bread-bwrite_ne b c v st ne = ground arith

  SameHomes-trans : {d e f : Disk B} → SameHomes d e → SameHomes e f → SameHomes d f
  SameHomes-trans p q = (q.0 ∙ p.0, λ b h. q.1 b h ∙ p.1 b h)

  SameHomes-bwrite :
      (tail : ℕ) (v : B) (st : Store B)
      → tail + 1 < size
      → SameHomes st.disk (bwrite (start + tail + 1) v st).disk
  unfolding bwrite
  SameHomes-bwrite tail v st fits = (refl, λ b h. rw (home_ne start size tail b fits h))

  -- A write of one block shows in its own data alone.
  pub bwrite_fields :
      (b : ℕ) (v : B) (st : Store B) (c : ℕ)
      → b ≢ c
      → ((bwrite b v st).disk.block c ≡ st.disk.block c) × ((bwrite b v st).dirty c ≡ st.dirty c)
  unfolding bwrite
  bwrite_fields b v st c ne = (ground arith, ground arith)

  bwrite_self :
      (b : ℕ) (v : B) (st : Store B)
      → ((bwrite b v st).disk.block b ≡ v) × ((bwrite b v st).dirty b ≡ none)
  unfolding bwrite
  bwrite_self b v st = (ground arith, ground arith)

  pub bwrite-past :
      (b : ℕ) (v : B) (st : Store B) (P : Disk B → Type 0)
      → P (bwrite b v st).disk
      → All P st.past
      → All P (bwrite b v st).past
  unfolding bwrite
  bwrite-past b v st P now before = (now, before)

  LogHolds-view :
      (tail : ℕ) (bs : List ℕ) (view view' : ℕ → B) (st : Store B)
      → All (IsHome start size) bs
      → ((b : ℕ) → IsHome start size b → view b ≡ view' b)
      → LogHolds tail bs view st
      → LogHolds tail bs view' st
  LogHolds-view tail [] view view' st homes same h = tt
  LogHolds-view tail (b ∷ bs) view view' st homes same h =
      (h.0 ∙ same b homes.0, h.1, LogHolds-view (tail + 1) bs view view' st homes.1 same h.2)

  -- `write_log` fills the blocks of the log, and touches nothing else on the disk.
  pub write_log_from-Logged :
      (tail : ℕ) (bs : List ℕ) (st : Store B)
      → tail + length bs < size
      → All (IsHome start size) bs
      → Logged tail bs st (write_log_from start tail bs st)
  unfolding write_log_from
  write_log_from-Logged tail [] st fits homes = record {
    homes = (refl, λ b h. refl);
    reads = λ b h. refl;
    earlier = λ u lt. (refl, refl);
    holds = tt;
    past = λ P f h. h;
  }
  write_log_from-Logged tail (b ∷ bs) st fits homes =
      let pos = start + tail + 1 in
      let st1 = bwrite pos (bread b st) st in
      let rest = write_log_from-Logged (tail + 1) bs st1 (omega arith) homes.1 in
      let first = SameHomes-bwrite tail (bread b st) st (omega arith) in
      let step : (c : ℕ) → IsHome start size c → bread c st1 ≡ bread c st =
        λ c h. bread-bwrite_ne pos c (bread b st) st (ground (arith, home_ne start size tail c)) in
      record {
        homes = SameHomes-trans first rest.homes;
        reads = λ c h. rest.reads c h ∙ step c h;
        earlier = λ u lt.
            ground (arith, rest.earlier u, bwrite_fields pos (bread b st) st (start + u + 1));
        holds = (
          (rest.earlier tail (omega arith)).0 ∙ (bwrite_self pos (bread b st) st).0,
          (rest.earlier tail (omega arith)).1 ∙ (bwrite_self pos (bread b st) st).1,
          LogHolds-view (tail + 1) bs _ _ _ homes.1 step rest.holds,
        );
        past = λ P f h.
            rest.past P (λ d' same. f d' (SameHomes-trans first same))
              (bwrite-past pos (bread b st) st P (f _ first) h);
      }
