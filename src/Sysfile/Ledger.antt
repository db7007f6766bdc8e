-- ===== src/Sysfile/Ledger.antt =====
-- sysfile.c: the account of references that a system call keeps. What it takes it gives back or
-- hands over; the rules below say so of each step.
use pplottery.Prelude.{
  ℕ, ◌+◌, ◌-◌, ◌^◌, ◌≤◌, ◌<◌, ◌≡◌, refl, ap, inl, inr, ◌∙◌, Option, none, some, List, [], ◌∷◌,
  Result, ok, panic, arith, length, Result-cases, Option-cases, ==_iff, get_elem?,
}
use pplottery.Fs.{Fs, Dinode}
use pplottery.Fs.Itable.Refs.{ref_at, at_slot, Bounded, modify-SameRefs}
use pplottery.Fs.Itable.Keeps.{Keeps, Keeps-ok}
use pplottery.Fs.Itable.Gives.{Gives, Finds, FoundAt}
use pplottery.Fs.Itable.{on_table, modify}
use pplottery.Fs.Dirs.Refs.{slot_of}
use pplottery.Sysfile.{Sys, M, lift, begin_op, end_op, inode_at, alter, with_copy}
use pplottery.Sysfile.Runs.{Ends, panics, ends, Runs}

-- The references to slot `k` among those of a list.
abbrev pub count : List ℕ → ℕ → ℕ
count [] k = 0
count (i ∷ h) k = at_slot i k + count h k

pub count-le : (h : List ℕ) (k : ℕ) → count h k ≤ length h
count-le [] k = omega arith
count-le (i ∷ h) k = ground (arith, count-le h k)

abbrev pub held : Option ℕ → List ℕ → List ℕ
held none h = h
held (some i) h = i ∷ h

-- The counts of `s` can grow by eight, and its process holds its directory.
pub record Sound (s : Sys) : Type 0 where
  pub room : (k : ℕ) → ref_at k s.fs.itable + 8 < 2 ^ 31
  pub home : 0 < ref_at s.cwd s.fs.itable

-- `s` is a state that a call reaches from `s0` in `n` operations that have begun, with the
-- references `h` of its own: the files, the descriptors and the directory are those of `s0`.
pub record Owes (s0 : Sys) (n : ℕ) (h : List ℕ) (s : Sys) : Type 0 where
  pub frame : s ≡ record s0 { fs = s.fs; outstanding = s0.outstanding + n }
  pub counts : (k : ℕ) → ref_at k s.fs.itable ≡ ref_at k s0.fs.itable + count h k

-- A result of fs.c with the counts that are due for its value.
abbrev Leads : {A : Type 0} → Sys → (A → List ℕ) → Result (A × Fs) → Type 0
Leads s0 h panic = Unit {0}
Leads s0 h (ok (a, t)) = (k : ℕ) → ref_at k t.itable ≡ ref_at k s0.fs.itable + count (h a) k

lift_lem :
    {A : Type 0} (s0 : Sys) (n : ℕ) (h : List ℕ) (h' : A → List ℕ) (m : Fs → Result (A × Fs))
    (s : Sys)
    → Owes s0 n h s
    → Leads s0 h' (m s.fs)
    → Ends (λ a. Owes s0 n (h' a)) (lift m s)
unfolding lift
lift_lem s0 n h h' m s o due = elim (Result-cases (m s.fs)) [
  | inl e ↦ rw (lift, e) panics
  | inr ((a, t), e) ↦
      let due' : Leads s0 h' (ok (a, t)) = rw e at due in
      rw (lift, e)
        (ends (record { frame = ap (λ (u : Sys). record u { fs = t }) o.frame; counts = due' }))
]

found_lem :
    (s0 : Sys) (i : Option ℕ) (h : List ℕ) (s t : Fs)
    → FoundAt i s t
    → ((k : ℕ) → ref_at k s.itable ≡ ref_at k s0.fs.itable + count h k)
    → (k : ℕ) → ref_at k t.itable ≡ ref_at k s0.fs.itable + count (held i h) k
found_lem s0 none h s t found due k = found k ∙ due k
found_lem s0 (some i) h s t found due k = omega (arith, found k, due k)

module _ {s0 : Sys} {n : ℕ} where
  pub swapped :
      {A : Type 0} {Q : A → Sys → Type 0} {m : M A} {i j : ℕ} {h : List ℕ}
      → Runs (Owes s0 n (j ∷ i ∷ h)) m Q
      → Runs (Owes s0 n (i ∷ j ∷ h)) m Q
  swapped {i = i} {j = j} step s o =
      step s (record { frame = o.frame; counts = (λ k. omega (arith, o.counts k)) })

  pub begins : {h : List ℕ} → Runs (Owes s0 n h) begin_op (λ a. Owes s0 (n + 1) h)
  unfolding begin_op
  begins s o =
      let one_more : s.outstanding + 1 ≡ s0.outstanding + (n + 1) =
        ap (λ (u : Sys). u.outstanding + 1) o.frame ∙ omega arith in
      ends (record {
        frame =
            ap (λ (u : Sys). record u { outstanding = s.outstanding + 1 }) o.frame
            ∙ ap (λ c. record s0 { fs = s.fs; outstanding = c }) one_more;
        counts = o.counts;
      })

  pub ends_op : {h : List ℕ} → Runs (Owes s0 (n + 1) h) end_op (λ a. Owes s0 n h)
  unfolding end_op
  ends_op s o =
      let one_less : s.outstanding - 1 ≡ s0.outstanding + n =
        ap (λ (u : Sys). u.outstanding - 1) o.frame ∙ omega arith in
      ends (record {
        frame =
            ap (λ (u : Sys). record u { outstanding = s.outstanding - 1 }) o.frame
            ∙ ap (λ c. record s0 { fs = s.fs; outstanding = c }) one_less;
        counts = o.counts;
      })

  pub reads : {h : List ℕ} (i : ℕ) → Runs (Owes s0 n h) (inode_at i) (λ ip. Owes s0 n h)
  unfolding inode_at
  reads i s o = elim (Option-cases (get_elem? s.fs.itable i)) [
    | inl e ↦ rw (inode_at, e) panics
    | inr (ip, e) ↦ rw (inode_at, e) (ends o)
  ]

  pub alters :
      {h : List ℕ} (i : ℕ) (f : Dinode → Dinode) → Runs (Owes s0 n h) (alter i f) (λ a. Owes s0 n h)
  unfolding alter
  alters i f s o = ends (record {
    frame = ap (λ (u : Sys). record u { fs = on_table (modify i (with_copy f)) s.fs }) o.frame;
    counts = (λ k. modify-SameRefs i (with_copy f) s.fs (λ p. refl) k ∙ o.counts k);
  })

module _ (s0 : Sys) (sound : Sound s0) {n : ℕ} where
  -- The counts of a state of the call can grow by two.
  owes-Bounded : {h : List ℕ} → length h ≤ 5 → (s : Sys) → Owes s0 n h s → Bounded 2 s.fs
  owes-Bounded {h} few s o k = omega (arith, sound.room k, o.counts k, count-le h k, few)

  pub lift_keeps :
      {A : Type 0} {h : List ℕ} (m : Fs → Result (A × Fs))
      → length h ≤ 5
      → ((t : Fs) → Bounded 2 t → Keeps t (m t))
      → Runs (Owes s0 n h) (lift m) (λ a. Owes s0 n h)
  lift_keeps {h = h} m few keeps s o =
      lift_lem s0 n h (λ a. h) m s o
        (elim (Result-cases (m s.fs)) [
          | inl e ↦ rw e tt
          | inr ((a, t), e) ↦
              let same = Keeps-ok s.fs t (m s.fs) (keeps s.fs (owes-Bounded few s o)) e in
              rw e (λ k. same k ∙ o.counts k)
        ])

  pub lift_gives :
      {h : List ℕ} (i : ℕ) (m : Fs → Result (Unit {0} × Fs))
      → length h ≤ 4
      → ((t : Fs) → Bounded 0 t → 0 < ref_at i t.itable → Gives i t (m t))
      → Runs (Owes s0 n (i ∷ h)) (lift m) (λ a. Owes s0 n h)
  lift_gives {h} i m few gives s o =
      lift_lem s0 n (i ∷ h) (λ a. h) m s o
        (elim (Result-cases (m s.fs)) [
          | inl e ↦ rw e tt
          | inr ((a, t), e) ↦
              let less : Gives i s.fs (ok (a, t)) = rw e at (
                gives s.fs (λ k. omega (arith, owes-Bounded {h = i ∷ h} (omega (arith, few)) s o k))
                  (ground (arith, o.counts i, ==_iff i i))) in
              rw e (λ k. omega (arith, less k, o.counts k))
        ])

  pub lift_finds :
      {A : Type 0} {h : List ℕ} (slot : A → Option ℕ) (m : Fs → Result (A × Fs))
      → length h ≤ 4
      → ((t : Fs) → Bounded 2 t → 0 < ref_at s0.cwd t.itable → Finds slot t (m t))
      → Runs (Owes s0 n h) (lift m) (λ a. Owes s0 n (held (slot a) h))
  lift_finds {h = h} slot m few finds s o =
      lift_lem s0 n h (λ a. held (slot a) h) m s o
        (elim (Result-cases (m s.fs)) [
          | inl e ↦ rw e tt
          | inr ((a, t), e) ↦
              let found : Finds slot s.fs (ok (a, t)) = rw e at (
                finds s.fs (owes-Bounded {h = h} (omega (arith, few)) s o)
                  (omega (arith, sound.home, o.counts s0.cwd))) in
              rw e (found_lem s0 (slot a) h s.fs t found o.counts)
        ])

-- The two ways on from a search.
pub by_held :
    {A : Type 0} {s0 : Sys} {n : ℕ} {h : List ℕ} {Q : A → Sys → Type 0} {m : M A} {f : ℕ → M A}
    (o : Option ℕ)
    → Runs (Owes s0 n h) m Q
    → ((i : ℕ) → Runs (Owes s0 n (i ∷ h)) (f i) Q)
    → Runs (Owes s0 n (held o h)) (elim o as (λ _. M A) [ none ↦ m | some i ↦ f i ]) Q
by_held none absent present = absent
by_held (some i) absent present = present i

pub by_found :
    {A : Type 0} {s0 : Sys} {n : ℕ} {h : List ℕ} {Q : A → Sys → Type 0} {m : M A} {f : ℕ → ℕ → M A}
    (o : Option (ℕ × ℕ))
    → Runs (Owes s0 n h) m Q
    → ((i off : ℕ) → Runs (Owes s0 n (i ∷ h)) (f i off) Q)
    → Runs
        (Owes s0 n (held (slot_of o) h))
        (elim o as (λ _. M A) [ none ↦ m | some (i, off) ↦ f i off ])
        Q
by_found none absent present = absent
by_found (some (i, off)) absent present = present i off
