-- ===== src/Proc/Life/Wait.antt =====
-- `wait`: it tries to reap the first exited child, fails without children, and otherwise sleeps.
use pplottery.Prelude.{
  ℕ, zero, suc, ◌+◌, ◌≡◌, refl, Bool, true, false, ◌&&◌, ◌||◌, not, Option, none, some, ◌==◌,
  get_elem?, if◌then◌else◌, arith, length, set, Option-cases, inl, inr, ok, minus_one,
}
use pplottery.Proc.{Proc, Table, same_slot, is_zombie}
use pplottery.Proc.Services.{Services}
use pplottery.Proc.Life.{
  Kernel, freeproc, cleared, free_memory, Scan, returns, waits, scan_from, wait_round,
}
use pplottery.Proc.Life.Reparent.{any_child, any_child-none}

-- The first of `n` slots from slot `i` on that holds an exited child of `me`.
abbrev first_zombie : (n i me : ℕ) → Table → Option (ℕ × Proc)
first_zombie zero i me t = none
first_zombie (suc n) i me t = elim (get_elem? t i) [
  | none ↦ none
  | some p ↦
      let rest = first_zombie n (i + 1) me t in
      if same_slot p.parent (some me) && is_zombie p.state then some (i, p) else rest
]

module _ (sv : Services) where
  open sv use {Rest, copyout}

  -- What `wait` makes of the exited child `p` in slot `i`: unless the exit status cannot be copied
  -- out, the slot and what hangs from it are freed, and the pid is the result.
  abbrev pub reap : (addr pt : ℕ) → ℕ × Proc → Kernel Rest → Scan sv
  reap addr pt (i, p) k =
      let (copied, r) = if addr == 0 then (true, k.rest) else copyout pt addr p.xstate k.rest in
      if copied
      then returns p.pid (record k { table = set k.table i (cleared p); rest = free_memory sv p r })
      else returns minus_one (record k { rest = r })

  scan_from-first_zombie :
      (n i me addr pt : ℕ) (kids : Bool) (k : Kernel Rest)
      → (scan_from sv n i me addr pt kids k).0
        ≡ elim (first_zombie n i me k.table) [ none ↦ none | some f ↦ some (reap addr pt f k) ]
  unfolding scan_from freeproc
  scan_from-first_zombie zero i me addr pt kids k = refl
  scan_from-first_zombie (suc n) i me addr pt kids k = elim (Option-cases (get_elem? k.table i)) [
    | inl e ↦ rw (e, scan_from)
    | inr (p, e) ↦
        rw (e, scan_from)
          (ground (
            arith,
            scan_from-first_zombie n (i + 1) me addr pt kids k,
            scan_from-first_zombie n (i + 1) me addr pt true k,
          ))
  ]

  -- With no exited child among the slots, the scan tells whether there is a child.
  scan_from-any_child :
      (n i me addr pt : ℕ) (kids : Bool) (k : Kernel Rest)
      → first_zombie n i me k.table ≡ none
      → (scan_from sv n i me addr pt kids k).1 ≡ (kids || any_child n i me k.table)
  unfolding scan_from freeproc
  scan_from-any_child zero i me addr pt kids k none_found = ground arith
  scan_from-any_child (suc n) i me addr pt kids k none_found =
      elim (Option-cases (get_elem? k.table i)) [
        | inl e ↦ rw (any_child-none (suc n) i me k.table e, e, scan_from) (ground arith)
        | inr (p, e) ↦
            rw (e, scan_from)
              (ground (
                arith,
                scan_from-any_child n (i + 1) me addr pt kids k,
                scan_from-any_child n (i + 1) me addr pt true k,
              ))
      ]

  -- One round of `wait` by the process `p` in slot `me`. If there is an exited child, the first one is
  -- reaped, and its pid returned, when no status is wanted or the status could be copied out; when
  -- that copy fails the call returns -1, and the process table is unchanged: the child stays a
  -- zombie. With no exited child the call fails with -1 if there is no child or the caller is
  -- killed, and otherwise the caller sleeps, with nothing changed.
  pub wait_round-reap :
      (me addr : ℕ) (k : Kernel Rest) (p : Proc)
      → get_elem? k.table me ≡ some p
      → wait_round sv me addr k
        ≡ ok (elim (first_zombie (length k.table) 0 me k.table) [
          | some f ↦ reap addr p.pagetable f k
          | none ↦
              if not (any_child (length k.table) 0 me k.table) || not (p.killed == 0)
              then returns minus_one k
              else waits k
        ])
  unfolding wait_round
  wait_round-reap me addr k p e =
      rw (e, wait_round)
        (elim (Option-cases (first_zombie (length k.table) 0 me k.table)) [
          | inl out ↦
              rw (scan_from-first_zombie (length k.table) 0 me addr p.pagetable false k, out)
                (rw (scan_from-any_child (length k.table) 0 me addr p.pagetable false k out) refl)
          | inr (f, got) ↦
              rw (scan_from-first_zombie (length k.table) 0 me addr p.pagetable false k, got) refl
        ])
