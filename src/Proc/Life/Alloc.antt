-- ===== src/Proc/Life/Alloc.antt =====
-- `allocproc`: which slot it takes, and the pids it gives out.
use pplottery.Prelude.{
  ℕ, suc, ◌+◌, ◌≡◌, ◌≢◌, ap, ◌∙◌, true, false, some, [], ◌∷◌, get_elem?, arith, Bool-cases,
  Option-cases, inl, inr, get_elem?-set_self, lt-length_of_get_elem?, get_elem?-set_ne, add32,
}
use pplottery.Proc.{Proc, Table, unused, used, is_unused}
use pplottery.Proc.Services.{Services}
use pplottery.Proc.Life.{Kernel, find_unused, init_proc, allocproc}

-- `find_unused` finds the first UNUSED slot.
pub find_unused-some :
    (t : Table) (k j : ℕ) (p : Proc)
    → find_unused k t ≡ some (j, p)
    → (i : ℕ) × (k + i ≡ j) × (get_elem? t i ≡ some p) × (is_unused p.state ≡ true)
unfolding find_unused
find_unused-some [] k j p e = cc
find_unused-some (q ∷ ps) k j p e = elim (Bool-cases (is_unused q.state)) [
  | inl free ↦ (0, ground arith, ground arith, ground arith)
  | inr taken ↦
      let (i, at, got, free) = find_unused-some ps (k + 1) j p (ground arith) in
      (suc i, omega arith, got, free)
]

module _ (sv : Services) where
  open sv use {Rest}

  -- A slot that `init_proc` succeeds on is USED, with the pid and ten tickets; one that it fails on
  -- is UNUSED again, cleared but for the tickets.
  pub init_proc_lem :
      (pid forkret : ℕ) (p : Proc) (r : Rest)
      → let (done, q, r') = init_proc sv pid forkret p r in
        (done ≡ true
          → (q.state ≡ used)
            × (q.pid ≡ pid)
            × (q.tickets ≡ 10)
            × (q.killed ≡ p.killed)
            × (q.parent ≡ p.parent))
        × (done ≡ false → (q.state ≡ unused) × (q.pid ≡ 0) × (q.killed ≡ 0))
  unfolding init_proc
  init_proc_lem pid forkret p r = ((λ h. ground arith), (λ h. ground arith))

  -- The other slots, and the counter of pids.
  allocproc-others :
      (forkret : ℕ) (k : Kernel Rest) (j : ℕ) (p : Proc)
      → get_elem? k.table j ≡ some p
      → is_unused p.state ≡ false
      → get_elem? (allocproc sv forkret k).1.table j ≡ some p
  unfolding allocproc
  allocproc-others forkret k j p got busy = elim (Option-cases (find_unused 0 k.table)) [
    | inl full ↦ rw (full, allocproc) got
    | inr ((i, q), found) ↦
        let (i', at, got', free) = find_unused-some k.table 0 i q found in
        let same : i' ≡ i = omega arith in
        let ne : i ≢ j = λ e. ground (arith, ap (get_elem? k.table) (same ∙ e)) in
        rw (found, allocproc) (get_elem?-set_ne k.table _ ne ∙ got)
  ]

  -- What `allocproc` makes of slot `i` of `k`.
  pub record Allocated (forkret : ℕ) (k : Kernel Rest) (i : ℕ) : Type 0 where
    pub old : Proc
    pub new : Proc
    pub first : find_unused 0 k.table ≡ some (i, old)
    pub was : get_elem? k.table i ≡ some old
    pub was_unused : old.state ≡ unused
    pub now : get_elem? (allocproc sv forkret k).1.table i ≡ some new
    pub now_used : new.state ≡ used
    pub new_pid : new.pid ≡ k.nextpid
    pub ten_tickets : new.tickets ≡ 10
    pub same_killed : new.killed ≡ old.killed
    pub same_parent : new.parent ≡ old.parent
    pub counted : (allocproc sv forkret k).1.nextpid ≡ add32 k.nextpid 1

  allocproc-found :
      (forkret : ℕ) (k : Kernel Rest) (j : ℕ) (old : Proc)
      → find_unused 0 k.table ≡ some (j, old)
      → (init_proc sv k.nextpid forkret old k.rest).0 ≡ true
      → Allocated forkret k j
  unfolding allocproc
  allocproc-found forkret k j old found done =
      let (j', at, got, free) = find_unused-some k.table 0 j old found in
      let at' : j' ≡ j = omega arith in
      let got' : get_elem? k.table j ≡ some old = rw at' at got in
      let (st, pid, tk, kl, pa) = (init_proc_lem k.nextpid forkret old k.rest).0 done in
      record {
        old = old;
        new = (init_proc sv k.nextpid forkret old k.rest).1;
        first = found;
        was = got';
        was_unused = ground arith;
        now =
            rw (found, allocproc)
              (get_elem?-set_self k.table j _ (lt-length_of_get_elem? k.table j got'));
        now_used = st;
        new_pid = pid;
        ten_tickets = tk;
        same_killed = kl;
        same_parent = pa;
        counted = rw (found, allocproc);
      }

  -- A slot that `allocproc` returns was UNUSED and is now USED with the next pid and ten tickets,
  -- its `killed` and `parent` as they were, and the counter of pids has gone up by one.
  pub allocproc-Allocated :
      (forkret : ℕ) (k : Kernel Rest) (i : ℕ)
      → (allocproc sv forkret k).0 ≡ some i
      → Allocated forkret k i
  unfolding allocproc
  allocproc-Allocated forkret k i e = elim (Option-cases (find_unused 0 k.table)) [
    | inl full ↦ absurd (ground arith)
    | inr ((j, old), found) ↦ elim (Bool-cases (init_proc sv k.nextpid forkret old k.rest).0) [
      | inl done ↦
          let ji : j ≡ i = ground arith in rw ji at (allocproc-found forkret k j old found done)
      | inr failed ↦ absurd (ground arith)
    ]
  ]
