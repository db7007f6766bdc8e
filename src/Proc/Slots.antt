-- ===== src/Proc/Slots.antt =====
-- A slot of the process table after `modify`.
use pplottery.Prelude.{ℕ, zero, suc, ◌≡◌, ◌≢◌, refl, ap, [], ◌∷◌, get_elem?}
use mathlib.Core.Option
use pplottery.Proc.{Proc, Table, modify}

pub get_elem?-modify :
    (t : Table) (i : ℕ) (f : Proc → Proc)
    → get_elem? (modify i f t) i ≡ Option.map f (get_elem? t i)
get_elem?-modify [] i f = refl
get_elem?-modify (p ∷ ps) zero f = refl
get_elem?-modify (p ∷ ps) (suc i) f = get_elem?-modify ps i f

pub get_elem?-modify_ne :
    (t : Table) (i j : ℕ) (f : Proc → Proc) → i ≢ j → get_elem? (modify i f t) j ≡ get_elem? t j
get_elem?-modify_ne [] i j f ne = refl
get_elem?-modify_ne (p ∷ ps) zero zero f ne = absurd (ne refl)
get_elem?-modify_ne (p ∷ ps) zero (suc j) f ne = refl
get_elem?-modify_ne (p ∷ ps) (suc i) zero f ne = refl
get_elem?-modify_ne (p ∷ ps) (suc i) (suc j) f ne =
    get_elem?-modify_ne ps i j f (λ e. ne (ap suc e))
