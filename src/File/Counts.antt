-- ===== src/File/Counts.antt =====
-- file.c: how the operations on the table of files count references.
use pplottery.Prelude.{
  refl, subst, some_inj, ℕ, zero, suc, ◌+◌, ◌-◌, ◌^◌, ◌<◌, ◌≡◌, ap, inl, inr, some, [], ◌∷◌, ◌==◌,
  if◌then◌else◌, ok, arith, get_elem?, set, add32, sub32, slt32, Bool-cases, Option-cases, ==_iff,
  ok_inj,
}
use pplottery.Fs.Itable.Refs.{at_slot}
use pplottery.File.{fd_none, File, Ftable, Closing, filealloc, filedup, fileclose}
use pplottery.File.Refs.{filealloc-some, closed}

-- The count in slot `k`; 0 behind the table.
abbrev pub file_refs : ℕ → Ftable → ℕ
file_refs k [] = 0
file_refs zero (f ∷ fs) = f.ref
file_refs (suc k) (f ∷ fs) = file_refs k fs

pub file_refs-set :
    (t : Ftable) (j k : ℕ) (g : File) {f : File}
    → get_elem? t j ≡ some f
    → file_refs k (set t j g) ≡ (if j == k then g.ref else file_refs k t)
file_refs-set [] j k g e = cc
file_refs-set (h ∷ t) zero zero g e = ground arith
file_refs-set (h ∷ t) zero (suc k) g e = ground arith
file_refs-set (h ∷ t) (suc j) zero g e = ground arith
file_refs-set (h ∷ t) (suc j) (suc k) g e = ground (arith, file_refs-set t j k g e)

pub file_refs-get_elem? :
    (t : Ftable) (j : ℕ) {f : File} → get_elem? t j ≡ some f → file_refs j t ≡ f.ref
file_refs-get_elem? [] j e = cc
file_refs-get_elem? (g ∷ t) zero e = ground arith
file_refs-get_elem? (g ∷ t) (suc j) e = file_refs-get_elem? t j e

pub file_refs-filealloc :
    (t : Ftable) (j k : ℕ)
    → (filealloc 0 t).0 ≡ some j
    → file_refs k (filealloc 0 t).1 ≡ file_refs k t + at_slot j k
file_refs-filealloc t j k e =
    let (f, le, here0, unused, e') = filealloc-some 0 j t e in
    let at : j - 0 ≡ j = omega arith in
    let here : get_elem? t j ≡ some f = rw at at here0 in
    rw (e', at)
      (ground (
        arith,
        file_refs-set t j k (record f { ref = 1 }) here,
        file_refs-get_elem? t j here,
        unused,
        ==_iff j k,
      ))

pub file_refs-filedup :
    (t u : Ftable) (j k : ℕ)
    → file_refs j t + 1 < 2 ^ 31
    → filedup j t ≡ ok u
    → file_refs k u ≡ file_refs k t + at_slot j k
unfolding filedup
file_refs-filedup t u j k small e = elim (Option-cases (get_elem? t j)) [
  | inl absent ↦ cc (rw (filedup, absent) at e)
  | inr (f, here) ↦ elim (Bool-cases (slt32 f.ref 1)) [
    | inl bad ↦ cc (rw (filedup, here, bad) at e)
    | inr good ↦
        let count = file_refs-get_elem? t j here in
        let more : add32 f.ref 1 ≡ f.ref + 1 = omega (arith, small, count) in
        let result : set t j (record f { ref = add32 f.ref 1 }) ≡ u =
          ok_inj (rw (filedup, here, good) at e) in
        rw⁻¹ result (
          ground (
            arith,
            file_refs-set t j k (record f { ref = add32 f.ref 1 }) here,
            count,
            more,
            ==_iff j k,
          ))
  ]
]

pub file_refs-fileclose :
    (t u : Ftable) (j k : ℕ) (c : Closing)
    → file_refs j t < 2 ^ 31
    → fileclose j t ≡ ok (c, u)
    → file_refs k u + at_slot j k ≡ file_refs k t
unfolding fileclose
file_refs-fileclose t u j k c small e = elim (Option-cases (get_elem? t j)) [
  | inl absent ↦ cc (rw (fileclose, absent) at e)
  | inr (f, here) ↦ elim (Bool-cases (slt32 f.ref 1)) [
    | inl bad ↦ cc (rw (fileclose, here, bad) at e)
    | inr good ↦
        let count = file_refs-get_elem? t j here in
        let less : sub32 f.ref 1 ≡ f.ref - 1 = ground (arith, small, count) in
        elim (Bool-cases (slt32 0 (sub32 f.ref 1))) [
          | inl more ↦
              let result : set t j (record f { ref = sub32 f.ref 1 }) ≡ u =
                ap (λ p. p.1) (ok_inj (rw (fileclose, here, good, more) at e)) in
              rw⁻¹ result (
                ground (
                  arith,
                  file_refs-set t j k (record f { ref = sub32 f.ref 1 }) here,
                  count,
                  less,
                  good,
                  ==_iff j k,
                ))
          | inr last ↦
              let result : set t j (closed f) ≡ u =
                ap (λ p. p.1) (ok_inj (rw (fileclose, here, good, last) at e)) in
              rw⁻¹ result (
                ground
                  (arith, file_refs-set t j k (closed f) here, count, less, good, last, ==_iff j k))
        ]
  ]
]

-- No file without references is set up.
abbrev pub Clean : Ftable → Type 0
Clean t = (j : ℕ) (f : File) → get_elem? t j ≡ some f → f.ref ≡ 0 → f.type ≡ fd_none

pub Clean-set :
    (t : Ftable) (j : ℕ) (g : File) → Clean t → (g.ref ≡ 0 → g.type ≡ fd_none) → Clean (set t j g)
Clean-set [] j g clean bare k f e unused = clean k f e unused
Clean-set (h ∷ t) zero g clean bare zero f e unused =
    subst (λ (x : File). x.ref ≡ 0 → x.type ≡ fd_none) (some_inj e) bare unused
Clean-set (h ∷ t) zero g clean bare (suc k) f e unused = clean (suc k) f e unused
Clean-set (h ∷ t) (suc j) g clean bare zero f e unused = clean zero f e unused
Clean-set (h ∷ t) (suc j) g clean bare (suc k) f e unused =
    Clean-set t j g (λ i. clean (suc i)) bare k f e unused

pub Clean-filealloc :
    (t : Ftable) (j : ℕ) → Clean t → (filealloc 0 t).0 ≡ some j → Clean (filealloc 0 t).1
Clean-filealloc t j clean e =
    let (f, le, here, unused, e') = filealloc-some 0 j t e in
    rw e' (Clean-set t (j - 0) (record f { ref = 1 }) clean (λ h. absurd (omega (arith, h))))

pub Clean-filedup :
    (t u : Ftable) (j : ℕ) → Clean t → file_refs j t + 1 < 2 ^ 31 → filedup j t ≡ ok u → Clean u
unfolding filedup
Clean-filedup t u j clean small e = elim (Option-cases (get_elem? t j)) [
  | inl absent ↦ cc (rw (filedup, absent) at e)
  | inr (f, here) ↦ elim (Bool-cases (slt32 f.ref 1)) [
    | inl bad ↦ cc (rw (filedup, here, bad) at e)
    | inr good ↦
        let g = record f { ref = add32 f.ref 1 } in
        let result : set t j g ≡ u = ok_inj (rw (filedup, here, good) at e) in
        let count = file_refs-get_elem? t j here in
        subst Clean result (Clean-set t j g clean (λ h. absurd (omega (arith, h, small, count))))
  ]
]

pub Clean-fileclose :
    (t u : Ftable) (j : ℕ) (c : Closing) → Clean t → fileclose j t ≡ ok (c, u) → Clean u
unfolding fileclose
Clean-fileclose t u j c clean e = elim (Option-cases (get_elem? t j)) [
  | inl absent ↦ cc (rw (fileclose, absent) at e)
  | inr (f, here) ↦ elim (Bool-cases (slt32 f.ref 1)) [
    | inl bad ↦ cc (rw (fileclose, here, bad) at e)
    | inr good ↦ elim (Bool-cases (slt32 0 (sub32 f.ref 1))) [
      | inl more ↦
          let g = record f { ref = sub32 f.ref 1 } in
          let result : set t j g ≡ u =
            ap (λ p. p.1) (ok_inj (rw (fileclose, here, good, more) at e)) in
          subst Clean result (Clean-set t j g clean (λ h. absurd (ground (arith, h, more))))
      | inr last ↦
          let result : set t j (closed f) ≡ u =
            ap (λ p. p.1) (ok_inj (rw (fileclose, here, good, last) at e)) in
          subst Clean result (Clean-set t j (closed f) clean (λ h. refl))
    ]
  ]
]
