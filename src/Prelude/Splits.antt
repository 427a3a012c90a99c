-- ===== src/Prelude/Splits.antt =====
-- Texts cut at separators.
use Prim.Native.Nat.{ℕ}
use mathlib.Core.Bool.{Bool, true, false, ◌&&◌}
use mathlib.Core.Path.{◌≡◌, refl}
use native.Mathlib.Omega.{arith}
use mathlib.Core.Option.{Option, none, some}
use mathlib.Core.List.{List, [], ◌∷◌, ◌++◌}
use openrep.Prelude.Tests.{◌==◌, if◌then◌else◌}
use openrep.Prelude.Texts.{Text}

-- `t.startsWith(prefix)` and `t.endsWith("::")`
abbrev pub starts_with : Text → Text → Bool
starts_with [] t = true
starts_with (c ∷ prefix) [] = false
starts_with (c ∷ prefix) (d ∷ t) = (c == d) && starts_with prefix t

abbrev cons_first : ℕ → List Text → List Text
cons_first c [] = (c ∷ []) ∷ []
cons_first c (piece ∷ pieces) = (c ∷ piece) ∷ pieces

-- `t.split(c)` for one character
abbrev pub split : ℕ → Text → List Text
split sep [] = [] ∷ []
split sep (c ∷ t) = let rest = split sep t in if c == sep then [] ∷ rest else cons_first c rest

-- `t.split("::")`
abbrev pub split_colons : Text → List Text
split_colons [] = [] ∷ []
split_colons (a ∷ []) = (a ∷ []) ∷ []
split_colons (a ∷ b ∷ t) = elim ((a == 58) && (b == 58)) [
  | true ↦ [] ∷ split_colons t
  | false ↦ cons_first a (split_colons (b ∷ t))
]

-- `t.endsWith("::")`
abbrev pub ends_in_colons : Text → Bool
ends_in_colons (a ∷ b ∷ []) = (a == 58) && (b == 58)
ends_in_colons (a ∷ b ∷ c ∷ t) = ends_in_colons (b ∷ c ∷ t)
ends_in_colons _ = false

abbrev and_rest {ℓ} : {B : Type ℓ} → Option B → Option (List B) → Option (List B)
and_rest none rest = none
and_rest (some b) none = none
and_rest (some b) (some bs) = some (b ∷ bs)

-- Every result, or none.
abbrev pub traverse {ℓ κ} : {A : Type ℓ} {B : Type κ} → (A → Option B) → List A → Option (List B)
traverse f [] = some []
traverse f (a ∷ xs) = and_rest (f a) (traverse f xs)

module _ (sep : ℕ) where
  -- A piece has no separator.
  abbrev pub IsPiece : Text → Type 0
  IsPiece [] = Unit
  IsPiece (c ∷ t) = ((c == sep) ≡ false) × IsPiece t

  pub split_piece : (t : Text) → IsPiece t → split sep t ≡ t ∷ []
  split_piece [] h = refl
  split_piece (c ∷ t) h = rw (h.0, split_piece t h.1) refl

  pub split_join : (t u : Text) → IsPiece t → split sep (t ++ sep ∷ u) ≡ t ∷ split sep u
  split_join [] u h = ground arith
  split_join (c ∷ t) u h = rw (h.0, split_join t u h.1) refl
