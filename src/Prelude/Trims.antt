-- ===== src/Prelude/Trims.antt =====
-- `trim` of a string.
use Prim.Native.Nat.{ℕ}
use mathlib.Core.List.{List, [], ◌∷◌, reverse}
use openrep.Prelude.Tests.{◌==◌, if◌then◌else◌}
use openrep.Prelude.Lists.{any}
use openrep.Prelude.Texts.{Text}

-- What `trim` drops: white space and line ends.
abbrev white_space : List ℕ
white_space =
    9 ∷ 10 ∷ 11 ∷ 12 ∷ 13 ∷ 32 ∷ 160 ∷ 5760 ∷ 8192 ∷ 8193 ∷ 8194 ∷ 8195 ∷ 8196 ∷ 8197 ∷ 8198 ∷ 8199
    ∷ 8200 ∷ 8201 ∷ 8202 ∷ 8232 ∷ 8233 ∷ 8239 ∷ 8287 ∷ 12288 ∷ 65279 ∷ []

unfoldable pub trim_start : Text → Text
trim_start [] = []
trim_start (c ∷ t) =
    let rest = trim_start t in if any (λ w. w == c) white_space then rest else c ∷ t

unfoldable pub trim : Text → Text
trim t = reverse (trim_start (reverse (trim_start t)))
