-- ===== src/Grep/Match.antt =====
-- The matcher decides the language of its expressions.
use pplottery.Prelude.{
  ℕ, ◌≡◌, ◌↔◌, refl, sym, ap, Bool, true, false, ◌&&◌, List, [], ◌∷◌, ◌++◌, ◌==◌, arith, subst,
  Bool-cases, inl, inr,
}
use pplottery.Grep.{one, matchstar, matchhere, match_from, match}

-- Every character of the text is one that `c` stands for.
abbrev AllOne : ℕ → List ℕ → Type 0
AllOne c [] = Unit {0}
AllOne c (a ∷ t) = (one c a ≡ true) × AllOne c t

-- The text is characters that `c` stands for, and then a text with the property.
abbrev Starred : (List ℕ → Type 0) → ℕ → List ℕ → Type 0
Starred P c t = (u v : List ℕ) × (t ≡ u ++ v) × AllOne c u × P v

-- The text is a character that `c` stands for, and then a text with the property.
abbrev Plain : (List ℕ → Type 0) → ℕ → List ℕ → Type 0
Plain P c t = (a : ℕ) × (v : List ℕ) × (t ≡ a ∷ v) × (one c a ≡ true) × P v

abbrev Choice : Bool → Type 0 → Type 0 → Type 0
Choice true P Q = P
Choice false P Q = Q

-- The text begins with a text of the expression.
abbrev Here : List ℕ → List ℕ → Type 0
Here [] t = Unit {0}
Here (c ∷ []) t = Choice (c == b'$') (t ≡ []) (Plain (λ v. Unit {0}) c t)
Here (c ∷ d ∷ re) t = Choice (d == b'*') (Starred (Here re) c t) (Plain (Here (d ∷ re)) c t)

-- A part of the text that starts somewhere, or at its start under ^, begins so.
abbrev Somewhere : List ℕ → List ℕ → Type 0
Somewhere re t = (u v : List ℕ) × (t ≡ u ++ v) × Here re v

abbrev pub Matches : List ℕ → List ℕ → Type 0
Matches [] t = Somewhere [] t
Matches (c ∷ re) t = Choice (c == b'^') (Here re t) (Somewhere (c ∷ re) t)

module _ (here : List ℕ → Bool) (P : List ℕ → Type 0)
    (decides : (t : List ℕ) → (here t ≡ true) ↔ P t) (c : ℕ) where
  matchstar_sound : (t : List ℕ) → matchstar here c t ≡ true → Starred P c t
  unfolding matchstar
  matchstar_sound [] h = ([], [], refl, tt, (decides []).0 h)
  matchstar_sound (a ∷ t) h = elim (Bool-cases (here (a ∷ t))) [
    | inl now ↦ ([], a ∷ t, refl, tt, (decides (a ∷ t)).0 now)
    | inr later ↦
        let (u, v, e, all, p) = matchstar_sound t (ground arith) in
        (a ∷ u, v, ap (λ x. a ∷ x) e, (ground arith, all), p)
  ]

  matchstar_complete : (u v : List ℕ) → AllOne c u → P v → matchstar here c (u ++ v) ≡ true
  unfolding matchstar
  matchstar_complete [] [] all p = (decides []).1 p
  matchstar_complete [] (a ∷ v) all p = rw ((decides (a ∷ v)).1 p)
  matchstar_complete (a ∷ u) v all p = elim (Bool-cases (here (a ∷ (u ++ v)))) [
    | inl now ↦ rw now
    | inr later ↦ rw (later, all.0, matchstar_complete u v all.1 p)
  ]

  Starred-iff : (t : List ℕ) → (matchstar here c t ≡ true) ↔ Starred P c t
  Starred-iff t = (matchstar_sound t, (λ (u, v, e, all, p). rw e (matchstar_complete u v all p)))

  Plain-iff :
      (t : List ℕ)
      → ((elim t as (λ _. Bool) [ [] ↦ false | a ∷ rest ↦ one c a && here rest ]) ≡ true)
        ↔ Plain P c t
  Plain-iff [] = ((λ h. cc), (λ (a, v, e, yes_one, p). cc))
  Plain-iff (a ∷ t) = (
    (λ h. (a, t, refl, ground arith, (decides t).0 (ground arith))),
    (λ (b, v, e, yes_one, p). ground (arith, (decides v).1 p)),
  )

last_iff : (c : ℕ) (t : List ℕ) → (matchhere (c ∷ []) t ≡ true) ↔ Here (c ∷ []) t
unfolding matchhere
last_iff c [] = elim (Bool-cases (c == b'$')) [
  | inl e ↦ rw e ((λ h. refl), (λ h. refl))
  | inr e ↦ rw e ((λ h. cc), (λ (a, v, at, p, u). cc))
]
last_iff c (a ∷ t) = elim (Bool-cases (c == b'$')) [
  | inl e ↦ rw e ((λ h. cc), (λ h. cc))
  | inr e ↦ rw e ((λ h. (a, t, refl, h, tt)), (λ (b, v, at, p, u). ground arith))
]

-- `matchhere` accepts exactly the texts that begin with a text of the expression.
matchhere_iff : (re t : List ℕ) → (matchhere re t ≡ true) ↔ Here re t
unfolding matchhere
matchhere_iff [] t = ((λ h. tt), (λ h. refl))
matchhere_iff (c ∷ []) t = last_iff c t
matchhere_iff (c ∷ d ∷ re) t = elim (Bool-cases (d == b'*')) [
  | inl e ↦ rw e (Starred-iff (matchhere re) (Here re) (matchhere_iff re) c t)
  | inr e ↦ rw e (Plain-iff (matchhere (d ∷ re)) (Here (d ∷ re)) (matchhere_iff (d ∷ re)) c t)
]

nil_suffix : (re u v : List ℕ) → [] ≡ u ++ v → Here re v → Here re []
nil_suffix re [] v e p = subst (Here re) (sym e) p
nil_suffix re (a ∷ u) v e p = cc

match_from_iff : (re t : List ℕ) → (match_from re t ≡ true) ↔ Somewhere re t
unfolding match_from
match_from_iff re [] = (
  (λ h. ([], [], refl, (matchhere_iff re []).0 h)),
  (λ (u, v, e, p). (matchhere_iff re []).1 (nil_suffix re u v e p)),
)
match_from_iff re (a ∷ t) = (
  (λ h. elim (Bool-cases (matchhere re (a ∷ t))) [
    | inl now ↦ ([], a ∷ t, refl, (matchhere_iff re (a ∷ t)).0 now)
    | inr later ↦
        let (u, v, e, p) = (match_from_iff re t).0 (ground arith) in
        (a ∷ u, v, ap (λ x. a ∷ x) e, p)
  ]),
  (λ (u, v, e, p). at_suffix (match_from_iff re t).1 u v e p),
)
  where
    at_suffix :
        (Somewhere re t → match_from re t ≡ true)
        → (u v : List ℕ) → (a ∷ t) ≡ u ++ v
        → Here re v
        → match_from re (a ∷ t) ≡ true
    at_suffix later [] v e p =
        ground (arith, (matchhere_iff re (a ∷ t)).1 (subst (Here re) (sym e) p))
    at_suffix later (b ∷ u) v e p = let e' : t ≡ u ++ v = cc in ground (arith, later (u, v, e', p))

-- `match` returns 1 exactly for the texts of which some part, or under ^ the beginning, is a text
-- of the expression; with $ at its end the part must reach the end of the text.
pub match_iff : (re t : List ℕ) → (match re t ≡ true) ↔ Matches re t
unfolding match
match_iff [] t = match_from_iff [] t
match_iff (c ∷ re) t = elim (Bool-cases (c == b'^')) [
  | inl e ↦ rw e (matchhere_iff re t)
  | inr e ↦ rw e (match_from_iff (c ∷ re) t)
]
