-- ===== src/Fs/Names/Fuel.antt =====
-- fs.c: the fuel that the model of `namex` gives its loop is enough.
use pplottery.Prelude.{
  ℕ, zero, suc, ◌<◌, ◌≡◌, inl, inr, refl, sym, ap, ◌∙◌, Bool, true, false, not, ◌&&◌, Option, none,
  some, List, [], ◌∷◌, ◌==◌, Result, ok, panic, arith, get_elem?, Bool-cases, Option-cases,
  Result-cases, length, some_inj,
}
use pplottery.Fs.{Fs, M, ◌>>◌}
use pplottery.Fs.Itable.{ilock, iunlockput}
use pplottery.Fs.Dirs.{dirlookup, t_dir}
use pplottery.Fs.Names.{skipelem, namex_from}
use pplottery.Fs.Names.Elements.{elements, Takes, skipelem-elements}

rest_shorter :
    (es : List (List ℕ)) (path name rest name' : List ℕ)
    → Takes es path name
    → skipelem path name ≡ some (rest, name')
    → length rest < length path
rest_shorter [] path name rest name' takes e = cc
rest_shorter (x ∷ es) path name rest name' (rest', f, is, plain, less) e =
    let same : rest' ≡ rest = ap (λ p. p.0) (some_inj (sym f ∙ e)) in rw same at less

skipelem-shorter :
    (path name rest name' : List ℕ)
    → skipelem path name ≡ some (rest, name')
    → length rest < length path
skipelem-shorter path name rest name' =
    rest_shorter (elements path) path name rest name' (skipelem-elements path name)

-- The walk down from a locked directory, for two ways to go on.
look_fuel :
    (me i : ℕ) (name : List ℕ) (t : Fs) (m n : ℕ → M (Option ℕ × List ℕ))
    → ((j : ℕ) (u : Fs) → m j u ≡ n j u)
    → (elim (dirlookup i name t) as (λ _. Result ((Option ℕ × List ℕ) × Fs)) [
      | panic ↦ panic
      | ok (none, v) ↦ (iunlockput me i >> (λ u. ok ((none, name), u))) v
      | ok (some (j, off), v) ↦ (iunlockput me i >> m j) v
    ])
      ≡ (elim (dirlookup i name t) as (λ _. Result ((Option ℕ × List ℕ) × Fs)) [
        | panic ↦ panic
        | ok (none, v) ↦ (iunlockput me i >> (λ u. ok ((none, name), u))) v
        | ok (some (j, off), v) ↦ (iunlockput me i >> n j) v
      ])
look_fuel me i name t m n same = elim (Result-cases (dirlookup i name t)) [
  | inl e ↦ rw e refl
  | inr ((none, v), e) ↦ rw e refl
  | inr ((some (j, off), v), e) ↦ elim (Result-cases (iunlockput me i v)) [
    | inl f ↦ rw (e, f, ◌>>◌) refl
    | inr ((x, u), f) ↦ rw (e, f, ◌>>◌) (same j u)
  ]
]

-- The loop of `namex` comes to the same on any two amounts of fuel that are above the length of the
-- path: from there on, more fuel changes nothing.
pub namex_from-enough :
    (fuel more me i : ℕ) (parent : Bool) (path name : List ℕ) (s : Fs)
    → length path < fuel
    → length path < more
    → namex_from fuel me i parent path name s ≡ namex_from more me i parent path name s
unfolding namex_from
namex_from-enough zero more me i parent path name s h k = absurd (omega arith)
namex_from-enough (suc fuel) zero me i parent path name s h k = absurd (omega arith)
namex_from-enough (suc fuel) (suc more) me i parent path name s h k =
    elim (Option-cases (skipelem path name)) [
      | inl e ↦ rw (e, namex_from) refl
      | inr ((rest, name'), e) ↦
          let less = skipelem-shorter path name rest name' e in
          elim (Result-cases (ilock me i s)) [
            | inl f ↦ rw (e, f, namex_from) refl
            | inr ((x, t), f) ↦ elim (Option-cases (get_elem? t.itable i)) [
              | inl g ↦ rw (e, f, g, namex_from) refl
              | inr (ip, g) ↦ elim (Bool-cases (not (ip.copy.type == t_dir))) [
                | inl bad ↦ rw (e, f, g, bad, namex_from) refl
                | inr dir ↦
                    elim (Bool-cases (parent && (elim rest [ [] ↦ true | c ∷ cs ↦ false ]))) [
                      | inl end ↦ rw (e, f, g, dir, end, namex_from) refl
                      | inr on ↦
                          rw (e, f, g, dir, on, namex_from)
                            (look_fuel me i name' t (λ j. namex_from fuel me j parent rest name')
                              (λ j. namex_from more me j parent rest name')
                              (λ j u.
                                namex_from-enough fuel more me j parent rest name' u (omega arith)
                                  (omega arith)))
                    ]
              ]
            ]
          ]
    ]
