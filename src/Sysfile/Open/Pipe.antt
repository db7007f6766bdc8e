-- ===== src/Sysfile/Open/Pipe.antt =====
-- sysfile.c: the references to files that sys_pipe takes and gives back.
use pplottery.Prelude.{
  ℕ, ◌+◌, ◌^◌, ◌<◌, ◌≡◌, ◌≢◌, refl, inl, inr, ◌∙◌, sym, Bool, Option, none, some, List, [], ◌∷◌,
  arith, get_elem?, Option-cases, ==_iff, lt-length_of_get_elem?, get_elem?-set_self,
  get_elem?-set_ne,
}
use pplottery.File.{File}
use pplottery.File.Counts.{Clean-set, file_refs-set, file_refs-get_elem?}
use pplottery.Sysproc.{failure}
use pplottery.Sysfile.{Sys, M, ◌>>◌, ret, file_close}
use pplottery.Sysfile.Open.{
  alter_file, read_end, write_end, pipe_files, close_both, pipe_fds, sys_pipe,
}
use pplottery.Sysfile.Runs.{by_option, panics, ends, Runs, bind, next, by_test, done}
use pplottery.Sysfile.Ledger.{count, held}
use pplottery.Sysfile.Shared.{Shares, Shares-swap, Any, allocates, closes, clears, allocates_fd}

-- The files that `pipe_files` hands over.
abbrev pub both : Option (ℕ × ℕ) → List ℕ
both none = []
both (some (f0, f1)) = f1 ∷ f0 ∷ []

-- What is known once the first descriptor is allocated, and once both are.
abbrev FirstFd : (rf fd0 : ℕ) → List (Option ℕ) → Type 0
FirstFd rf fd0 l = get_elem? l fd0 ≡ some (some rf)

abbrev BothFds : (rf wf fd0 fd1 : ℕ) → List (Option ℕ) → Type 0
BothFds rf wf fd0 fd1 l =
    (get_elem? l fd0 ≡ some (some rf)) × (get_elem? l fd1 ≡ some (some wf)) × (fd0 ≢ fd1)

forgets :
    {A : Type 0} {c : ℕ → ℕ} {E : List (Option ℕ) → Type 0} {h : List ℕ} {Q : A → Sys → Type 0}
    {m : M A}
    → Runs (Shares c Any h) m Q
    → Runs (Shares c E h) m Q
forgets step s o = step s (record { balance = o.balance; fds = o.fds; known = tt; clean = o.clean })

module _ {c : ℕ → ℕ} (room : (k : ℕ) → c k + 32 < 2 ^ 31) where
  alters :
      {E : List (Option ℕ) → Type 0} {h : List ℕ} (j : ℕ) (f : File → File)
      → ((g : File) → (f g).ref ≡ g.ref)
      → 0 < count h j
      → Runs (Shares c E h) (alter_file j f) (λ u. Shares c E h)
  unfolding alter_file
  alters j f keep held_file s o = elim (Option-cases (get_elem? s.ftable j)) [
    | inl e ↦ rw (alter_file, e) panics
    | inr (g, e) ↦
        rw (alter_file, e)
          (ends (record {
            balance = (λ k. ground (
              arith,
              o.balance k,
              file_refs-set s.ftable j k (f g) e,
              keep g,
              file_refs-get_elem? s.ftable j e,
              ==_iff j k,
            ));
            fds = o.fds;
            known = o.known;
            clean = Clean-set s.ftable j (f g) o.clean (λ unused. absurd (
                omega (
                  arith,
                  unused,
                  keep g,
                  held_file,
                  o.balance j,
                  file_refs-get_elem? s.ftable j e,
                )));
          }))
  ]

  -- The file that is closed is the second of those held.
  closes_second :
      {A : Type 0} {E : List (Option ℕ) → Type 0} {Q : A → Sys → Type 0} {m : M A} (i j : ℕ)
      → Runs (Shares c E (i ∷ [])) m Q
      → Runs (Shares c E (i ∷ j ∷ [])) (file_close j >> m) Q
  closes_second i j step s o = next (closes room j (omega arith)) step s (Shares-swap s o)

  pipe_files-Shares :
      (page : Option ℕ) → Runs (Shares c Any []) (pipe_files page) (λ o. Shares c Any (both o))
  unfolding pipe_files
  pipe_files-Shares page = bind (allocates room) (λ o.
      by_option (λ x. Shares c Any (held x [])) o (done none)
        (λ f0. bind (allocates room) (λ o'.
          by_option (λ x. Shares c Any (held x (f0 ∷ []))) o'
            (next (closes room f0 (omega arith)) (done none))
            (λ f1.
              by_option (λ x. Shares c Any (f1 ∷ f0 ∷ [])) page
                (closes_second f1 f0 (next (closes room f1 (omega arith)) (done none)))
                (λ p.
                  next
                    (alters {h = f1 ∷ f0 ∷ []} f0 (read_end p) (λ g. refl)
                      (ground (arith, ==_iff f0 f0)))
                    (next
                      (alters {h = f1 ∷ f0 ∷ []} f1 (write_end p) (λ g. refl)
                        (ground (arith, ==_iff f1 f1)))
                      (done (some (f0, f1)))))))))

  close_both-Shares :
      {E : List (Option ℕ) → Type 0} (rf wf : ℕ)
      → Runs (Shares c E (wf ∷ rf ∷ [])) (close_both rf wf) (λ r. Shares c Any [])
  unfolding close_both
  close_both-Shares rf wf =
      closes_second wf rf (next (closes room wf (omega arith)) (forgets (done (failure, none))))

  pipe_fds-Shares :
      (rf wf : ℕ) (copies : Bool)
      → Runs (Shares c Any (wf ∷ rf ∷ [])) (pipe_fds rf wf copies) (λ r. Shares c Any [])
  unfolding pipe_fds
  pipe_fds-Shares rf wf copies s o =
      allocates_fd room _ (FirstFd rf) rf
        (λ l fd0 e free. get_elem?-set_self l fd0 (some rf) (lt-length_of_get_elem? l fd0 free))
        (λ t o'. close_both-Shares rf wf t (Shares-swap t o'))
        (λ fd0.
          allocates_fd room _ (BothFds rf wf fd0) wf
            (λ l fd1 e free.
              let other : fd1 ≢ fd0 = (λ same. cc) in
              (
                get_elem?-set_ne l (some wf) other ∙ e,
                get_elem?-set_self l fd1 (some wf) (lt-length_of_get_elem? l fd1 free),
                λ same. other (sym same),
              ))
            (next (clears room {E' = Any} fd0 rf (λ l e. (e, tt {0})))
              (λ t o'. close_both-Shares rf wf t (Shares-swap t o')))
            (λ fd1. by_test copies (forgets (done (0, some (fd0, fd1)))) (
              next
                (clears room {E' = λ l. get_elem? l fd1 ≡ some (some wf)} fd0 rf
                  (λ l e. (e.0, get_elem?-set_ne l none (e.2) ∙ e.1)))
                (next (clears room {E' = Any} fd1 wf (λ l e. (e, tt {0})))
                  (close_both-Shares rf wf)))))
        s (Shares-swap s o)

  pipes :
      (copies : Bool) (o : Option (ℕ × ℕ))
      → Runs
          (Shares c Any (both o))
          (elim o as (λ _. M (ℕ × Option (ℕ × ℕ))) [
            | none ↦ ret (failure, none)
            | some (rf, wf) ↦ pipe_fds rf wf copies
          ])
          (λ r. Shares c Any [])
  pipes copies none = done (failure, none)
  pipes copies (some (rf, wf)) = pipe_fds-Shares rf wf copies

  pub sys_pipe-Shares :
      (page : Option ℕ) (copies : Bool)
      → Runs (Shares c Any []) (sys_pipe page copies) (λ r. Shares c Any [])
  unfolding sys_pipe
  sys_pipe-Shares page copies = bind (pipe_files-Shares page) (pipes copies)
