-- ===== src/Log/Install.antt =====
-- `install_trans`: the blocks of the log go to their homes.
use pplottery.Prelude.{
  ℕ, suc, ◌+◌, ◌<◌, ◌≡◌, refl, ◌∙◌, Bool, true, false, none, List, [], ◌∷◌, if◌then◌else◌, length,
  arith,
}
use pplottery.Log.{Disk, Store, bread, bwrite, bunpin, install_from, contains}
use pplottery.Log.Phases.{All, IsHome, home_ne, LogHolds, bwrite_fields, bwrite-past}

module _ {B : Type 0} (start size : ℕ) where
  -- The same header, log and data, but for the homes of the listed blocks.
  pub record Redoing (bs : List ℕ) (d d' : Disk B) : Type 0 where
    pub head : d'.head ≡ d.head
    pub log : (u : ℕ) → u + 1 < size → d'.block (start + u + 1) ≡ d.block (start + u + 1)
    pub rest : (b : ℕ) → IsHome start size b → contains bs b ≡ false → d'.block b ≡ d.block b

  pub record Installed (bs : List ℕ) (view : ℕ → B) (st st' : Store B) : Type 1 where
    pub head : st'.disk.head ≡ st.disk.head
    pub log :
        (u : ℕ)
        → u + 1 < size
        → (st'.disk.block (start + u + 1) ≡ st.disk.block (start + u + 1))
          × (st'.dirty (start + u + 1) ≡ st.dirty (start + u + 1))
    pub homes :
        (b : ℕ)
        → IsHome start size b
        → st'.disk.block b ≡ (if contains bs b then view b else st.disk.block b)
    pub past :
        (P : Disk B → Type 0)
        → ((d' : Disk B) → Redoing bs st.disk d' → P d')
        → All P st.past
        → All P st'.past

  pub Redoing-refl : (bs : List ℕ) (d : Disk B) → Redoing bs d d
  Redoing-refl bs d = record { head = refl; log = λ u h. refl; rest = λ b h out. refl }

  -- The write of one listed block.
  Redoing-bwrite :
      (b : ℕ) (bs : List ℕ) (v : B) (st : Store B)
      → IsHome start size b
      → Redoing (b ∷ bs) st.disk (bwrite b v st).disk
  unfolding bwrite
  Redoing-bwrite b bs v st home = record {
    head = refl;
    log = λ u h. ground (arith, home_ne start size u b);
    rest = λ c h out. ground arith;
  }

  Redoing-trans :
      (b : ℕ) (bs : List ℕ) {d e f : Disk B}
      → Redoing (b ∷ bs) d e
      → Redoing bs e f
      → Redoing (b ∷ bs) d f
  Redoing-trans b bs p q = record {
    head = q.head ∙ p.head;
    log = λ u h. q.log u h ∙ p.log u h;
    rest = λ c h out. q.rest c h (ground arith) ∙ p.rest c h out;
  }

  LogHolds-same :
      (tail : ℕ) (bs : List ℕ) (view : ℕ → B) (st st' : Store B)
      → tail + length bs < size
      → ((u : ℕ)
          → u + 1 < size
          → (st'.disk.block (start + u + 1) ≡ st.disk.block (start + u + 1))
            × (st'.dirty (start + u + 1) ≡ st.dirty (start + u + 1)))
      → LogHolds start size tail bs view st
      → LogHolds start size tail bs view st'
  LogHolds-same tail [] view st st' fits same h = tt
  LogHolds-same tail (b ∷ bs) view st st' fits same h =
      let now = same tail (omega arith) in
      (now.0 ∙ h.0, now.1 ∙ h.1, LogHolds-same (tail + 1) bs view st st' (omega arith) same h.2)

  bwrite-log :
      (b : ℕ) (v : B) (st : Store B) (u : ℕ)
      → IsHome start size b
      → u + 1 < size
      → ((bwrite b v st).disk.block (start + u + 1) ≡ st.disk.block (start + u + 1))
        × ((bwrite b v st).dirty (start + u + 1) ≡ st.dirty (start + u + 1))
  bwrite-log b v st u home fits =
      bwrite_fields start size b v st (start + u + 1) (ground (arith, home_ne start size u b))

  homes-bwrite :
      (b : ℕ) (bs : List ℕ) (view : ℕ → B) (st : Store B) (c : ℕ)
      → (if contains bs c then view c else (bwrite b (view b) st).disk.block c)
        ≡ (if contains (b ∷ bs) c then view c else st.disk.block c)
  unfolding bwrite
  homes-bwrite b bs view st c = ground arith

  Installed-cons :
      (b : ℕ) (bs : List ℕ) (view : ℕ → B) (st st' : Store B) (pins : ℕ → ℕ)
      → IsHome start size b
      → Installed bs view (record (bwrite b (view b) st) { pins = pins }) st'
      → Installed (b ∷ bs) view st st'
  Installed-cons b bs view st st' pins home rest =
      let first = Redoing-bwrite b bs (view b) st home in
      record {
        head = rest.head ∙ first.head;
        log = λ u h.
            let now = bwrite-log b (view b) st u home h in
            ((rest.log u h).0 ∙ now.0, (rest.log u h).1 ∙ now.1);
        homes = λ c h. rest.homes c h ∙ homes-bwrite b bs view st c;
        past = λ P f h.
            rest.past P (λ d' r. f d' (Redoing-trans b bs first r))
              (bwrite-past start size b (view b) st P (f _ first) h);
      }

  kept_holds :
      (tail b : ℕ) (bs : List ℕ) (view : ℕ → B) (st : Store B)
      → tail + suc (length bs) < size
      → IsHome start size b
      → LogHolds start size (tail + 1) bs view st
      → LogHolds start size (tail + 1) bs view (bwrite b (view b) st)
  kept_holds tail b bs view st fits home holds =
      LogHolds-same (tail + 1) bs view st (bwrite b (view b) st) (omega arith)
        (λ u h. bwrite-log b (view b) st u home h) holds

  bread-log :
      (b : ℕ) (st : Store B) (v : B) → st.disk.block b ≡ v → st.dirty b ≡ none → bread b st ≡ v
  unfolding bread
  bread-log b st v on_disk clean = rw (clean, bread) on_disk

  -- With the log holding the listed blocks, `install_trans` puts each into its home.
  pub install_from-Installed :
      (tail : ℕ) (recovering : Bool) (bs : List ℕ) (view : ℕ → B) (st : Store B)
      → tail + length bs < size
      → All (IsHome start size) bs
      → LogHolds start size tail bs view st
      → Installed bs view st (install_from start tail recovering bs st)
  unfolding install_from
  install_from-Installed tail recovering [] view st fits homes holds = record {
    head = refl;
    log = λ u h. (refl, refl);
    homes = λ b h. refl;
    past = λ P f h. h;
  }
  install_from-Installed tail true (b ∷ bs) view st fits homes holds =
      let st1 = bwrite b (view b) st in
      rw (bread-log (start + tail + 1) st (view b) holds.0 holds.1) (
        Installed-cons b bs view st _ st1.pins homes.0 (
          install_from-Installed (tail + 1) true bs view st1 (omega arith) homes.1
            (kept_holds tail b bs view st fits homes.0 holds.2)))
  install_from-Installed tail false (b ∷ bs) view st fits homes holds =
      let st1 = bwrite b (view b) st in
      rw (bread-log (start + tail + 1) st (view b) holds.0 holds.1) (
        Installed-cons b bs view st _ (bunpin b st1).pins homes.0 (
          install_from-Installed (tail + 1) false bs view (bunpin b st1) (omega arith) homes.1 (
            LogHolds-same (tail + 1) bs view st1 (bunpin b st1) (omega arith) (λ u h. (refl, refl))
              (kept_holds tail b bs view st fits homes.0 holds.2))))
