-- ===== src/Sysfile/Shared/Calls.antt =====
-- sysfile.c: sys_dup, sys_close, sys_open and sys_pipe keep the account of references to files.
use pplottery.Prelude.{
  ℕ, zero, suc, ◌+◌, ◌^◌, ◌<◌, ◌≡◌, inl, inr, ap, sym, subst, ◌∙◌, Bool, Option, none, some, List,
  [], ◌∷◌, arith, get_elem?, get_or, leb, Bool-cases, Option-cases, Result-cases, ==_iff,
  length-set,
}
use pplottery.File.{filedup}
use pplottery.File.Counts.{
  Clean-set, Clean-filedup, file_refs-set, file_refs-get_elem?, file_refs-filedup,
}
use pplottery.Sysfile.{
  Sys, ◌>>=◌, ◌>>◌, argfd, nofile, first_free, fdalloc, file_dup, sys_dup, sys_close,
}
use pplottery.Sysfile.Open.{sys_open, sys_pipe}
use pplottery.Sysfile.Open.Refs.{Opens, fails, opens, sys_open-Opens}
use pplottery.Sysfile.Open.Pipe.{sys_pipe-Shares}
use pplottery.Sysfile.Runs.{Ends, panics, ends, Runs, next, done, weakened}
use pplottery.Sysfile.Ledger.{Sound}
use pplottery.Sysfile.Shared.{bounded, Shares, Any, fds_of-set, free_fd, closes, clears}

-- Each file has a reference for each descriptor that stands for it, and `c` that belong to others; no
-- file without references is set up.
abbrev pub Balanced : (c : ℕ → ℕ) → Sys → Type 0
Balanced c = Shares c Any []

get_or_lem :
    {A : Type 0} (l : List (Option A)) (i : ℕ) (a : A)
    → get_or l i none ≡ some a
    → get_elem? l i ≡ some (some a)
get_or_lem [] i a e = cc
get_or_lem (x ∷ l) zero a e = ap some e
get_or_lem (x ∷ l) (suc i) a e = get_or_lem l i a e

argfd_lem :
    (fd j : ℕ) (s : Sys)
    → argfd fd s ≡ some j
    → (fd < nofile) × (get_elem? s.ofile fd ≡ some (some j))
unfolding argfd
argfd_lem fd j s e = elim (Bool-cases (leb nofile fd)) [
  | inl bad ↦ cc (rw (argfd, bad) at e)
  | inr good ↦ (ground arith, get_or_lem s.ofile fd j (rw (argfd, good) at e))
]

module _ {c : ℕ → ℕ} (room : (k : ℕ) → c k + 32 < 2 ^ 31) where
  sys_close-Shares : (fd : ℕ) → Runs (Balanced c) (sys_close fd) (λ r. Balanced c)
  unfolding sys_close
  sys_close-Shares fd s o = elim (Option-cases (argfd fd s)) [
    | inl e ↦ rw (sys_close, e) (ends o)
    | inr (j, e) ↦
        rw (sys_close, e)
          (next
            (clears room {E = λ l. get_elem? l fd ≡ some (some j)} {E' = Any} fd j
              (λ l here. (here, tt)))
            (next (closes room j (omega arith)) (done 0)) s
            (record {
              balance = o.balance;
              fds = o.fds;
              known = (argfd_lem fd j s e).1;
              clean = o.clean;
            }))
  ]

  sys_dup-Shares : (fd : ℕ) → Runs (Balanced c) (sys_dup fd) (λ r. Balanced c)
  unfolding sys_dup fdalloc file_dup ◌>>=◌ ◌>>◌
  sys_dup-Shares fd s o = elim (Option-cases (argfd fd s)) [
    | inl e ↦ rw (sys_dup, e) (ends o)
    | inr (j, e) ↦ elim (Option-cases (first_free 0 s.ofile)) [
      | inl f ↦ rw (sys_dup, e, ◌>>=◌, fdalloc, f) (ends o)
      | inr (fd', f) ↦ elim (Result-cases (filedup j s.ftable)) [
        | inl g ↦ rw (sys_dup, e, ◌>>=◌, fdalloc, f, ◌>>◌, file_dup, g) panics
        | inr (t, g) ↦
            let here = free_fd fd' s.ofile f in
            rw (sys_dup, e, ◌>>=◌, fdalloc, f, ◌>>◌, file_dup, g)
              (ends (record {
                balance = (λ k. omega (
                  arith,
                  o.balance k,
                  fds_of-set s.ofile fd' k none (some j) here,
                  file_refs-filedup s.ftable t j k (bounded room s (omega arith) o j) g,
                ));
                fds = length-set s.ofile fd' (some j) ∙ o.fds;
                known = tt;
                clean = Clean-filedup s.ftable t j o.clean (bounded room s (omega arith) o j) g;
              }))
      ]
    ]
  ]

  Opens-Shares : (omode r : ℕ) (s t : Sys) → Balanced c s → Opens omode s r t → Balanced c t
  Opens-Shares omode r s t o (fails same) =
      subst (Balanced c) (sym same.0)
        (record { balance = o.balance; fds = o.fds; known = tt; clean = o.clean })
  Opens-Shares omode r s t o (opens {fd = fd} i j f g free here unused is frame more) =
      subst (Balanced c) (sym frame) (record {
        balance = (λ k. ground (
          arith,
          o.balance k,
          fds_of-set s.ofile fd k none (some j) (free_fd fd s.ofile free),
          file_refs-set s.ftable j k g here,
          file_refs-get_elem? s.ftable j here,
          unused,
          is.one_ref,
          ==_iff j k,
        ));
        fds = length-set s.ofile fd (some j) ∙ o.fds;
        known = tt;
        clean = Clean-set s.ftable j g o.clean (λ h. absurd (omega (arith, h, is.one_ref)));
      })

-- sys_dup, sys_close, sys_pipe and sys_open, whatever they return, keep the rule that each file has
-- one reference for each descriptor of the process that stands for it, besides those that belong to
-- others, of which there must be few enough for the counts not to overflow; that the process has
-- `NOFILE` descriptors; and that no file without references is set up. The counts of inodes must be
-- able to grow by eight, and the process must hold a reference to its directory. A call may panic.
pub sys_dup-sys_close-sys_pipe-sys_open-Balanced :
    (c : ℕ → ℕ) (me fd omode : ℕ) (page : Option ℕ) (copies : Bool) (path : Option (List ℕ))
    (s : Sys)
    → ((k : ℕ) → c k + 32 < 2 ^ 31)
    → Balanced c s
    → Sound s
    → Ends (λ r. Balanced c) (sys_dup fd s)
      × Ends (λ r. Balanced c) (sys_close fd s)
      × Ends (λ r. Balanced c) (sys_pipe page copies s)
      × Ends (λ r. Balanced c) (sys_open me path omode s)
sys_dup-sys_close-sys_pipe-sys_open-Balanced c me fd omode page copies path s room o sound = (
  sys_dup-Shares room fd s o,
  sys_close-Shares room fd s o,
  sys_pipe-Shares room page copies s o,
  weakened (sys_open me path omode s) (sys_open-Opens me path omode s sound o.clean)
      (λ r t. Opens-Shares room omode r s t o),
)
