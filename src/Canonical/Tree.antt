-- ===== src/Canonical/Tree.antt =====
-- The value that packages/sdk/src/canonical.ts serializes, as a tree without identities: what
-- the canonical text is meant to denote, independent of key order and of sharing.
use openrep.Prelude.{ℕ, Bool, true, false, ◌≢◌, ◌<◌, [], ◌∷◌, ◌++◌, All, Text, text}
use openrep.Canonical.Json.{quote}
use openrep.Canonical.Json.Quoting.{IsUnit}

mutual
  pub data Tree : Type 0 where
    null : Tree
    bool : Bool → Tree
    num : Text → Tree
    str : Text → Tree
    arr : Items → Tree
    obj : Fields → Tree

  pub data Items : Type 0 where
    nil : Items
    cons : Tree → Items → Items

  pub data Fields : Type 0 where
    end : Fields
    field : Text → Tree → Fields → Fields

-- The serialization without errors, identities or sorting. A tail holds what follows the first
-- item, the closing bracket included.
unfoldable mutual
  pub print : Tree → Text
  print null = text "null"
  print (bool true) = text "true"
  print (bool false) = text "false"
  print (num t) = t
  print (str s) = quote s
  print (arr nil) = 91 ∷ 93 ∷ []
  print (arr (cons t ts)) = 91 ∷ (print t ++ items_tail ts)
  print (obj end) = 123 ∷ 125 ∷ []
  print (obj (field k t fs)) = 123 ∷ (quote k ++ 58 ∷ (print t ++ fields_tail fs))

  pub items_tail : Items → Text
  items_tail nil = 93 ∷ []
  items_tail (cons t ts) = 44 ∷ (print t ++ items_tail ts)

  pub fields_tail : Fields → Text
  fields_tail end = 125 ∷ []
  fields_tail (field k t fs) = 44 ∷ (quote k ++ 58 ∷ (print t ++ fields_tail fs))

-- A character that can stand in the text of a number.
abbrev pub IsNumeric : ℕ → Type 0
IsNumeric c = (c ≢ 44) × (c ≢ 93) × (c ≢ 125)

-- The text of a number starts with a digit or a minus sign.
abbrev pub StartsNumeric : Text → Type 0
StartsNumeric [] = ⊥
StartsNumeric (c ∷ t) = (44 < c) × (c < 58)

-- Strings are of 16-bit units, and numbers as `JSON.stringify` prints them.
abbrev mutual
  pub IsWellFormed : Tree → Type 0
  IsWellFormed null = Unit
  IsWellFormed (bool b) = Unit
  IsWellFormed (num t) = StartsNumeric t × All IsNumeric t
  IsWellFormed (str s) = All IsUnit s
  IsWellFormed (arr ts) = AllItems ts
  IsWellFormed (obj fs) = AllFields fs

  pub AllItems : Items → Type 0
  AllItems nil = Unit
  AllItems (cons t ts) = IsWellFormed t × AllItems ts

  pub AllFields : Fields → Type 0
  AllFields end = Unit
  AllFields (field k t fs) = All IsUnit k × IsWellFormed t × AllFields fs
