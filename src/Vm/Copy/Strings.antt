-- ===== src/Vm/Copy/Strings.antt =====
-- vm.c: what `copyinstr` and `copyin` write.
use pplottery.Prelude.{
  ℕ, zero, suc, ◌+◌, ◌-◌, ◌<◌, ◌≤◌, ◌≡◌, ◌⊎◌, inl, inr, refl, ◌∙◌, ap, sym, subst, Bool, true,
  false, ◌==◌, ok, minus_one, arith, Bool-cases,
}
use pplottery.Kalloc.{pgsize}
use pplottery.Str.{Memory, store}
use pplottery.Vm.{Vm}
use pplottery.Vm.User.{move_bytes}
use pplottery.Vm.Copy.{
  copy_chars, part, pgrounddown, copyinstr_from, copyinstr, copyin_from, copyin,
}
use pplottery.Vm.View.Lookup.{walkaddr-reads}

-- Nothing is written outside the `n` bytes from `dst` on.
abbrev pub Within : (dst n : ℕ) → Memory → Memory → Type 0
Within dst n m m' = (b : ℕ) → ((b < dst) ⊎ (dst + n ≤ b)) → m' b ≡ m b

-- Another memory, with the page tables and the free pages as they are.
abbrev pub with_mem : Memory → Vm → Vm
with_mem m s = record s { kmem = record (s.kmem) { mem = m } }

-- There is a NUL among the `n` bytes from `p` on.
abbrev pub HasNul : (p n : ℕ) → Memory → Type 0
HasNul p n m = (e : ℕ) × (p ≤ e) × (e < p + n) × (m e ≡ 0)

abbrev Ended : (got_null : Bool) (n dst max dst' max' : ℕ) → Memory → Type 0
Ended true n dst max dst' max' m = HasNul dst n m
Ended false n dst max dst' max' m = (dst' ≡ dst + n) × (max' + n ≡ max)

Ended-suc :
    (b : Bool) (n dst max dst' max' : ℕ) (m : Memory)
    → suc n ≤ max
    → Ended b n (dst + 1) (max - 1) dst' max' m
    → Ended b (suc n) dst max dst' max' m
Ended-suc true n dst max dst' max' m le (e, above, below, nul) =
    (e, omega (arith, above), omega (arith, below), nul)
Ended-suc false n dst max dst' max' m le (at, left) = (omega (arith, at), omega (arith, left, le))

copy_chars-Ended :
    (n p dst max : ℕ) (m : Memory)
    → n ≤ max
    → Ended
        (copy_chars n p dst max m).0
        n
        dst
        max
        (copy_chars n p dst max m).2
        (copy_chars n p dst max m).1
        (copy_chars n p dst max m).3
unfolding copy_chars
copy_chars-Ended zero p dst max m le = (omega arith, omega arith)
copy_chars-Ended (suc n) p dst max m le = elim (Bool-cases (m p == 0)) [
  | inl nul ↦ rw nul (dst, omega arith, omega arith, ground arith)
  | inr char ↦
      let m1 = store dst (m p) m in
      let rest = copy_chars n (p + 1) (dst + 1) (max - 1) m1 in
      rw char (
        Ended-suc rest.0 n dst max rest.2 rest.1 rest.3 le
          (copy_chars-Ended n (p + 1) (dst + 1) (max - 1) m1 (omega (arith, le))))
]

copy_chars-Within : (n p dst max : ℕ) (m : Memory) → Within dst n m (copy_chars n p dst max m).3
unfolding copy_chars
copy_chars-Within zero p dst max m b out = refl
copy_chars-Within (suc n) p dst max m b out =
    let other : (b == dst) ≡ false = ground (arith, out) in
    elim (Bool-cases (m p == 0)) [
      | inl nul ↦ rw (nul, other) refl
      | inr char ↦
          let m1 = store dst (m p) m in
          let rest : (b < dst + 1) ⊎ (dst + 1 + n ≤ b) = ground (arith, out) in
          rw char (copy_chars-Within n (p + 1) (dst + 1) (max - 1) m1 b rest ∙ rw other refl)
    ]

-- What `copyinstr` comes to: it never panics, writes only into the `max` bytes from `dst` on, and
-- if it succeeds, there is a NUL among them.
abbrev pub Copied : (dst max : ℕ) → Vm → ℕ → Vm → Type 0
Copied dst max s r t =
    (t ≡ with_mem t.kmem.mem s)
    × Within dst max s.kmem.mem t.kmem.mem
    × ((r ≡ minus_one) ⊎ ((r ≡ 0) × HasNul dst max t.kmem.mem))

untouched : (dst max : ℕ) (s : Vm) → Copied dst max s minus_one s
untouched dst max s = (refl, (λ b out. refl), inl refl)

Copied-after :
    (n dst max : ℕ) (s u t : Vm) (r : ℕ)
    → n ≤ max
    → u ≡ with_mem u.kmem.mem s
    → Within dst n s.kmem.mem u.kmem.mem
    → Copied (dst + n) (max - n) u r t
    → Copied dst max s r t
Copied-after n dst max s u t r le same wrote (same', wrote', end) = (
  same' ∙ ap (with_mem t.kmem.mem) same,
  (λ b out. wrote' b (ground (arith, out, le)) ∙ wrote b (ground (arith, out, le))),
  elim end [
    | inl failed ↦ inl failed
    | inr (done, (e, above, below, nul)) ↦
        inr (done, (e, omega (arith, above), omega (arith, below, le), nul))
  ],
)

-- How a run of `copy_chars` ends, of which the rest of the loop is known.
found :
    (n p dst max : ℕ) (m : Memory)
    → n ≤ max
    → (copy_chars n p dst max m).0 ≡ true
    → HasNul dst max (copy_chars n p dst max m).3
found n p dst max m le got =
    let out = copy_chars n p dst max m in
    let ended : Ended true n dst max out.2 out.1 out.3 =
      rw got at (copy_chars-Ended n p dst max m le) in
    let (e, above, below, nul) = ended in (e, above, omega (arith, below, le), nul)

goes_on :
    (n p dst max : ℕ) (s u t : Vm) (r : ℕ)
    → n ≤ max
    → (copy_chars n p dst max s.kmem.mem).0 ≡ false
    → u ≡ record s { kmem = record (s.kmem) { mem = (copy_chars n p dst max s.kmem.mem).3 } }
    → Copied (copy_chars n p dst max s.kmem.mem).2 (copy_chars n p dst max s.kmem.mem).1 u r t
    → Copied dst max s r t
goes_on n p dst max s u t r le on eq copied =
    let m = s.kmem.mem in
    let out = copy_chars n p dst max m in
    let (at, left) : Ended false n dst max out.2 out.1 out.3 =
      rw on at (copy_chars-Ended n p dst max m le) in
    let left' : out.1 ≡ max - n = omega (arith, left) in
    Copied-after n dst max s u t r le
      (eq ∙ ap (λ m'. with_mem m' s) (sym (ap (λ (v : Vm). v.kmem.mem) eq)))
      (λ b far. ap (λ (v : Vm). v.kmem.mem b) eq ∙ copy_chars-Within n p dst max m b far)
      (subst (λ d. Copied d (max - n) u r t) at (subst (λ k. Copied out.2 k u r t) left' copied))

copyinstr_from-Copied :
    (fuel table dst srcva max : ℕ) (s : Vm)
    → (r : ℕ) × (t : Vm) × (copyinstr_from fuel table dst srcva max s ≡ ok (r, t))
      × Copied dst max s r t
unfolding copyinstr_from
copyinstr_from-Copied zero table dst srcva max s = (minus_one, s, refl, untouched dst max s)
copyinstr_from-Copied (suc fuel) table dst srcva max s =
    let va0 = pgrounddown srcva in
    let n = part srcva max in
    let (pa0, looked) = walkaddr-reads table va0 s in
    elim (Bool-cases (max == 0)) [
      | inl none_left ↦ (minus_one, s, rw (copyinstr_from, none_left) refl, untouched dst max s)
      | inr more ↦ elim (Bool-cases (pa0 == 0)) [
        | inl unmapped ↦
            (minus_one, s, rw (copyinstr_from, more, looked, unmapped) refl, untouched dst max s)
        | inr mapped ↦
            let p = pa0 + (srcva - va0) in
            let m = s.kmem.mem in
            let out = copy_chars n p dst max m in
            let u : Vm = record s { kmem = record (s.kmem) { mem = out.3 } } in
            let le : n ≤ max = omega arith in
            let wrote = copy_chars-Within n p dst max m in
            elim (Bool-cases out.0) [
              | inl got ↦ (
                0,
                u,
                rw (copyinstr_from, more, looked, mapped, got) refl,
                (
                  refl,
                  (λ b far. wrote b (ground (arith, far, le))),
                  inr (refl, found n p dst max m le got),
                ),
              )
              | inr on ↦
                  let (r, t, run, copied) =
                    copyinstr_from-Copied fuel table out.2 (va0 + pgsize) out.1 u in
                  (
                    r,
                    t,
                    rw (copyinstr_from, more, looked, mapped, on) run,
                    goes_on n p dst max s u t r le on refl copied,
                  )
            ]
      ]
    ]

pub copyinstr-Copied :
    (table dst srcva max : ℕ) (s : Vm)
    → (r : ℕ) × (t : Vm) × (copyinstr table dst srcva max s ≡ ok (r, t)) × Copied dst max s r t
unfolding copyinstr
copyinstr-Copied table dst srcva max s = copyinstr_from-Copied max table dst srcva max s

-- `copyin` does not panic, and writes only to the memory.
copyin_from-Frame :
    (fuel table dst srcva len : ℕ) (s : Vm)
    → (r : ℕ) × (t : Vm) × (copyin_from fuel table dst srcva len s ≡ ok (r, t))
      × (t ≡ with_mem t.kmem.mem s)
unfolding copyin_from
copyin_from-Frame zero table dst srcva len s = (0, s, refl, refl)
copyin_from-Frame (suc fuel) table dst srcva len s =
    let va0 = pgrounddown srcva in
    let n = part srcva len in
    let (pa0, looked) = walkaddr-reads table va0 s in
    elim (Bool-cases (len == 0)) [
      | inl end ↦ (0, s, rw (copyin_from, end) refl, refl)
      | inr more ↦ elim (Bool-cases (pa0 == 0)) [
        | inl unmapped ↦ (minus_one, s, rw (copyin_from, more, looked, unmapped) refl, refl)
        | inr mapped ↦
            let u = move_bytes dst (pa0 + (srcva - va0)) n s in
            let (r, t, run, same) =
              copyin_from-Frame fuel table (dst + n) (va0 + pgsize) (len - n) u in
            (r, t, rw (copyin_from, more, looked, mapped) run, same)
      ]
    ]

pub copyin-Frame :
    (table dst srcva len : ℕ) (s : Vm)
    → (r : ℕ) × (t : Vm) × (copyin table dst srcva len s ≡ ok (r, t)) × (t ≡ with_mem t.kmem.mem s)
unfolding copyin
copyin-Frame table dst srcva len s = copyin_from-Frame len table dst srcva len s
