-- ===== src/Prelude/Keys.antt =====
-- Columns of texts with a unique constraint.
use mathlib.Core.Path.{◌≡◌, refl}
use mathlib.Core.Bool.{Bool, false, ◌||◌}
use mathlib.Core.List.{List, [], ◌∷◌, ◌++◌, map}
use native.Mathlib.Omega.{arith}
use openrep.Prelude.Tests.{is_some}
use openrep.Prelude.Lists.{find}
use openrep.Prelude.Texts.{Text, text_eq, text_eq_iff}

abbrev pub member : Text → List Text → Bool
member k [] = false
member k (x ∷ xs) = text_eq x k || member k xs

-- No two entries are equal.
abbrev pub Distinct : List Text → Type 0
Distinct [] = Unit
Distinct (x ∷ xs) = (member x xs ≡ false) × Distinct xs

pub member-append :
    (k : Text) (xs ys : List Text) → member k (xs ++ ys) ≡ (member k xs || member k ys)
member-append k [] ys = refl
member-append k (x ∷ xs) ys = ground (arith, member-append k xs ys)

pub Distinct-append :
    (xs : List Text) (k : Text) → Distinct xs → member k xs ≡ false → Distinct (xs ++ k ∷ [])
Distinct-append [] k h e = (refl, tt)
Distinct-append (x ∷ xs) k h e = (
  ground (arith, h.0, member-append x xs (k ∷ []), text_eq_iff x k, text_eq_iff k x),
  Distinct-append xs k h.1 (ground arith),
)

-- A lookup by a column finds a row exactly when the column has the value.
pub is_some-find {ℓ} :
    {A : Type ℓ} (f : A → Text) (k : Text) (rows : List A)
    → is_some (find (λ r. text_eq (f r) k) rows) ≡ member k (map f rows)
is_some-find f k [] = refl
is_some-find f k (r ∷ rows) = ground (arith, is_some-find f k rows)
