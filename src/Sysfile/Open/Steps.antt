-- ===== src/Sysfile/Open/Steps.antt =====
-- sysfile.c: the account of the steps that allocate and close files and descriptors. Such a step
-- changes the state that the account starts from.
use pplottery.Prelude.{
  ℕ, ◌-◌, ◌≡◌, refl, ap, sym, subst, ◌∙◌, inl, inr, Option, none, some, List, ok, arith, get_elem?,
  set, Option-cases,
}
use pplottery.File.{File, Ftable, filealloc, fileclose, fd_none, nothing}
use pplottery.File.Refs.{closed, filealloc-none, filealloc-some, fileclose-last}
use pplottery.Sysfile.{
  Sys, M, ◌>>=◌, ◌>>◌, first_free, fdalloc, file_alloc, file_close, close_table, finish_close,
}
use pplottery.Sysfile.Open.{alter_file}
use pplottery.Sysfile.Runs.{Ends, Runs}
use pplottery.Sysfile.Ledger.{Owes}

abbrev pub with_files : Ftable → Sys → Sys
with_files t s = record s { ftable = t }

abbrev pub with_fds : List (Option ℕ) → Sys → Sys
with_fds o s = record s { ofile = o }

module _ {s0 : Sys} {n : ℕ} {h : List ℕ} where
  files-Owes : (t : Ftable) (s : Sys) → Owes s0 n h s → Owes (with_files t s0) n h (with_files t s)
  files-Owes t s o = record { frame = ap (with_files t) o.frame; counts = o.counts }

  fds-Owes :
      (l : List (Option ℕ)) (s : Sys) → Owes s0 n h s → Owes (with_fds l s0) n h (with_fds l s)
  fds-Owes l s o = record { frame = ap (with_fds l) o.frame; counts = o.counts }

  module _ {A : Type 0} {Q : A → Sys → Type 0} where
    pub allocs_file :
        (f : Option ℕ → M A)
        → ((filealloc 0 s0.ftable).0 ≡ none → Runs (Owes s0 n h) (f none) Q)
        → ((j : ℕ) (g : File)
            → get_elem? s0.ftable j ≡ some g
            → g.ref ≡ 0
            → Runs
                (Owes (with_files (set s0.ftable j (record g { ref = 1 })) s0) n h)
                (f (some j))
                Q)
        → Runs (Owes s0 n h) (file_alloc >>= f) Q
    unfolding ◌>>=◌ file_alloc
    allocs_file f without with_file s o =
        let same : s.ftable ≡ s0.ftable = ap (λ (u : Sys). u.ftable) o.frame in
        elim (Option-cases (filealloc 0 s0.ftable).0) [
          | inl e ↦
              let same' = filealloc-none 0 s0.ftable e in
              subst (λ t. Ends Q (f (filealloc 0 t).0 (with_files (filealloc 0 t).1 s))) (sym same)
                (rw (e, same') (without e (with_files s0.ftable s) (files-Owes s0.ftable s o)))
          | inr (j, e) ↦
              let (g, le, here, unused, e') = filealloc-some 0 j s0.ftable e in
              let at : j - 0 ≡ j = omega arith in
              subst (λ t. Ends Q (f (filealloc 0 t).0 (with_files (filealloc 0 t).1 s))) (sym same)
                (rw (e, e', at)
                  (with_file j g (rw at at here) unused
                    (with_files (set s0.ftable j (record g { ref = 1 })) s)
                    (files-Owes (set s0.ftable j (record g { ref = 1 })) s o)))
        ]

    pub allocs_fd :
        (f : Option ℕ → M A) (j : ℕ)
        → (first_free 0 s0.ofile ≡ none → Runs (Owes s0 n h) (f none) Q)
        → ((fd : ℕ)
            → first_free 0 s0.ofile ≡ some fd
            → Runs (Owes (with_fds (set s0.ofile fd (some j)) s0) n h) (f (some fd)) Q)
        → Runs (Owes s0 n h) (fdalloc j >>= f) Q
    unfolding ◌>>=◌ fdalloc
    allocs_fd f j without with_fd s o =
        let same : s.ofile ≡ s0.ofile = ap (λ (u : Sys). u.ofile) o.frame in
        elim (Option-cases (first_free 0 s0.ofile)) [
          | inl e ↦
              let e' : first_free 0 s.ofile ≡ none = rw same e in
              rw (◌>>=◌, fdalloc, e') (without e s o)
          | inr (fd, e) ↦
              let e' : first_free 0 s.ofile ≡ some fd = rw same e in
              rw (◌>>=◌, fdalloc, e')
                (subst (λ l. Ends Q (f (some fd) (with_fds (set l fd (some j)) s))) (sym same)
                  (with_fd fd e (with_fds (set s0.ofile fd (some j)) s)
                    (fds-Owes (set s0.ofile fd (some j)) s o)))
        ]

    pub alters_file :
        {m : M A} (j : ℕ) (g : File) (f : File → File)
        → get_elem? s0.ftable j ≡ some g
        → Runs (Owes (with_files (set s0.ftable j (f g)) s0) n h) m Q
        → Runs (Owes s0 n h) (alter_file j f >> m) Q
    unfolding ◌>>◌ alter_file
    alters_file {m} j g f here step s o =
        let same : s.ftable ≡ s0.ftable = ap (λ (u : Sys). u.ftable) o.frame in
        let here' : get_elem? s.ftable j ≡ some g = rw same here in
        rw (◌>>◌, alter_file, here')
          (subst (λ t. Ends Q (m (with_files (set t j (f g)) s))) (sym same)
            (step (with_files (set s0.ftable j (f g)) s) (files-Owes (set s0.ftable j (f g)) s o)))

    -- `fileclose` of a file that has one reference and is not set up.
    pub closes_unused :
        {m : M A} (j : ℕ) (g : File)
        → get_elem? s0.ftable j ≡ some g
        → g.ref ≡ 1
        → g.type ≡ fd_none
        → Runs (Owes (with_files (set s0.ftable j (closed g)) s0) n h) m Q
        → Runs (Owes s0 n h) (file_close j >> m) Q
    unfolding ◌>>◌ ◌>>=◌ file_close close_table finish_close
    closes_unused {m} j g here one bare step s o =
        let same : s.ftable ≡ s0.ftable = ap (λ (u : Sys). u.ftable) o.frame in
        let last : fileclose j s0.ftable ≡ ok (nothing, set s0.ftable j (closed g)) =
          fileclose-last j s0.ftable g here one ∙ rw bare refl in
        let last' : fileclose j s.ftable ≡ ok (nothing, set s0.ftable j (closed g)) =
          rw same last in
        rw (◌>>◌, file_close, ◌>>=◌, close_table, last')
          (step (with_files (set s0.ftable j (closed g)) s)
            (files-Owes (set s0.ftable j (closed g)) s o))
