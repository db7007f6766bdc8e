-- ===== src/Proc/Life/Pids.antt =====
-- The pids of the table: distinct and below `nextpid`; and what `kill(0)` does, since an UNUSED
-- slot has the pid 0.
use pplottery.Prelude.{
  ℕ, ◌+◌, ◌^◌, ◌≡◌, ◌<◌, refl, ap, sym, ◌∙◌, false, none, some, [], ◌∷◌, ◌==◌, get_elem?, arith,
  Bool-cases, Option-cases, inl, inr, ℕ_discrete, ◌⊎◌, set, get_elem?-set_self, get_elem?-set_ne,
  lt-length_of_get_elem?, some_inj,
}
use mathlib.Core.Option
use pplottery.Proc.{Proc, Table, used, is_unused}
use pplottery.Proc.Services.{Services}
use pplottery.Proc.Signal.{kill}
use pplottery.Proc.Signal.Kill.{find_pid}
use pplottery.Proc.Life.{Kernel, find_unused, allocproc, init_proc}
use pplottery.Proc.Life.Alloc.{init_proc_lem, allocproc-Allocated, find_unused-some}

-- Processes have distinct pids, which are positive and below `next`.
pub record PidsOk (t : Table) (next : ℕ) : Type 0 where
  pub in_range :
      (i : ℕ) (p : Proc)
      → get_elem? t i ≡ some p
      → is_unused p.state ≡ false
      → (0 < p.pid) × (p.pid < next)
  pub distinct :
      (i j : ℕ) (p q : Proc)
      → get_elem? t i ≡ some p
      → get_elem? t j ≡ some q
      → is_unused p.state ≡ false
      → is_unused q.state ≡ false
      → p.pid ≡ q.pid
      → i ≡ j

module _ (sv : Services) where
  open sv use {Rest}

  -- A process after `allocproc` is one from before, or the new one.
  allocproc-cases :
      (forkret : ℕ) (k : Kernel Rest) (j : ℕ) (p : Proc)
      → get_elem? (allocproc sv forkret k).1.table j ≡ some p
      → is_unused p.state ≡ false
      → (get_elem? k.table j ≡ some p)
        ⊎ ((p.pid ≡ k.nextpid) × (Option.map (λ f. f.0) (find_unused 0 k.table) ≡ some j))
  unfolding allocproc
  allocproc-cases forkret k j p got busy = elim (Option-cases (find_unused 0 k.table)) [
    | inl full ↦ inl (rw (full, allocproc) at got)
    | inr ((i, q), found) ↦
        let new = (init_proc sv k.nextpid forkret q k.rest).1 in
        let (i', at, was, free) = find_unused-some k.table 0 i q found in
        let at' : i' ≡ i = omega arith in
        let was' : get_elem? k.table i ≡ some q = rw at' at was in
        let got' : get_elem? (set k.table i new) j ≡ some p = rw (found, allocproc) at got in
        elim (ℕ_discrete i j) [
          | yes same ↦
              let here : get_elem? (set k.table j new) j ≡ some new =
                rw same at
                  (get_elem?-set_self k.table i new (lt-length_of_get_elem? k.table i was')) in
              let there : get_elem? (set k.table j new) j ≡ some p = rw same at got' in
              let facts = init_proc_lem sv k.nextpid forkret q k.rest in
              let isnew : new ≡ p = some_inj (sym here ∙ there) in
              elim (Bool-cases (init_proc sv k.nextpid forkret q k.rest).0) [
                | inl done ↦ inr (
                  sym (ap (λ (x : Proc). x.pid) isnew) ∙ (facts.0 done).1,
                  rw found (ap some same),
                )
                | inr failed ↦
                    absurd (ground (arith, ap (λ (x : Proc). x.state) isnew, (facts.1 failed).0))
              ]
          | no ne ↦ inl (sym (get_elem?-set_ne k.table new ne) ∙ got')
        ]
  ]

  nextpid-allocproc :
      (forkret : ℕ) (k : Kernel Rest)
      → k.nextpid + 1 < 2 ^ 32
      → (allocproc sv forkret k).1.nextpid
        ≡ elim (find_unused 0 k.table) [ none ↦ k.nextpid | some f ↦ k.nextpid + 1 ]
  unfolding allocproc
  nextpid-allocproc forkret k small = elim (Option-cases (find_unused 0 k.table)) [
    | inl full ↦ rw (full, allocproc)
    | inr (f, found) ↦ rw (found, allocproc) (omega arith)
  ]

  -- `allocproc` keeps the pids distinct, positive and below the counter, as long as the counter
  -- does not wrap.
  pub allocproc-PidsOk :
      (forkret : ℕ) (k : Kernel Rest)
      → 0 < k.nextpid
      → k.nextpid + 1 < 2 ^ 32
      → PidsOk k.table k.nextpid
      → PidsOk (allocproc sv forkret k).1.table (allocproc sv forkret k).1.nextpid
  allocproc-PidsOk forkret k pos small v = record {
    in_range = λ i p got busy. elim (allocproc-cases forkret k i p got busy) [
      | inl old ↦ ground (arith, v.in_range i p old busy, nextpid-allocproc forkret k small)
      | inr (pid, at) ↦ ground (arith, nextpid-allocproc forkret k small)
    ];
    distinct = λ i j p q gotp gotq bp bq same. elim (allocproc-cases forkret k i p gotp bp) [
      | inl oldp ↦ elim (allocproc-cases forkret k j q gotq bq) [
        | inl oldq ↦ v.distinct i j p q oldp oldq bp bq same
        | inr (pid, at) ↦ absurd (omega (arith, v.in_range i p oldp bp))
      ]
      | inr (pid, at) ↦ elim (allocproc-cases forkret k j q gotq bq) [
        | inl oldq ↦ absurd (omega (arith, v.in_range j q oldq bq))
        | inr (pid', at') ↦ some_inj (sym at ∙ at')
      ]
    ];
  }

-- A slot is UNUSED exactly if its pid is 0.
abbrev ZeroPids : Table → Type 0
ZeroPids [] = Unit {0}
ZeroPids (p ∷ ps) = ((p.pid == 0) ≡ is_unused p.state) × ZeroPids ps

find_pid-find_unused :
    (t : Table) (k : ℕ)
    → ZeroPids t
    → Option.map (λ i. k + i) (find_pid 0 t) ≡ Option.map (λ f. f.0) (find_unused k t)
unfolding find_unused
find_pid-find_unused [] k z = refl
find_pid-find_unused (p ∷ ps) k z = elim (Bool-cases (is_unused p.state)) [
  | inl free ↦ ground arith
  | inr taken ↦ ground (arith, find_pid-find_unused ps (k + 1) z.1)
]

kill_zero-find_unused :
    (t : Table) (k i : ℕ) (p : Proc)
    → ZeroPids t
    → find_unused k (kill 0 t).1 ≡ some (i, p)
    → ((kill 0 t).0 ≡ 0) × (p.killed ≡ 1)
unfolding find_unused kill
kill_zero-find_unused [] k i p z e = cc
kill_zero-find_unused (q ∷ qs) k i p z e = elim (Bool-cases (is_unused q.state)) [
  | inl free ↦ (ground arith, ground arith)
  | inr taken ↦
      let rest = kill_zero-find_unused qs (k + 1) i p z.1 (ground arith) in
      (ground (arith, rest), rest.1)
]

module _ (sv : Services) where
  open sv use {Rest}

  -- Where exactly the UNUSED slots have the pid 0, `kill(0)` reports success, and the next process
  -- that `allocproc` sets up is born with `killed` set, since `allocproc` does not clear it.
  pub allocproc-kill_zero :
      (forkret : ℕ) (k : Kernel Rest) (i : ℕ)
      → ZeroPids k.table
      → (allocproc sv forkret (record k { table = (kill 0 k.table).1 })).0 ≡ some i
      → ((kill 0 k.table).0 ≡ 0)
        × (new : Proc) × (get_elem?
              (allocproc sv forkret (record k { table = (kill 0 k.table).1 })).1.table
              i
            ≡ some new)
        × (new.state ≡ used)
        × (new.killed ≡ 1)
  allocproc-kill_zero forkret k i z e =
      let made = allocproc-Allocated sv forkret (record k { table = (kill 0 k.table).1 }) i e in
      let (done, doomed) = kill_zero-find_unused k.table 0 i made.old z made.first in
      (done, made.new, made.now, made.now_used, made.same_killed ∙ doomed)
