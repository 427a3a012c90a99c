-- ===== src/Prelude/Maps.antt =====
-- `Map<string, V>` as the list of its entries, in the order of insertion, and entries that expire.
use mathlib.Core.Path.{◌≡◌, refl}
use mathlib.Core.Logic.{inl, inr}
use mathlib.Core.Bool.{Bool, true, false}
use mathlib.Core.Option.{Option, none, some}
use mathlib.Core.List.{List, [], ◌∷◌}
use native.Mathlib.Omega.{arith}
use openrep.Prelude.Tests.{if◌then◌else◌, Bool-cases}
use openrep.Prelude.Texts.{Text, text_eq, text_eq_iff, text_eq_refl}
use openrep.Prelude.Keys.{member, Distinct}

text_eq_flip : (a b : Text) → text_eq a b ≡ false → text_eq b a ≡ false
text_eq_flip a b h = elim (Bool-cases (text_eq b a)) [
  | inl e ↦ absurd (clash (rw ((text_eq_iff b a).0 e) (text_eq_refl a)))
  | inr e ↦ e
]
  where
    clash : ¬ (text_eq a b ≡ true)
    clash e = cc

module _ {V : Type 0} where
  abbrev pub get_entry : Text → List (Text × V) → Option V
  get_entry k [] = none
  get_entry k ((j, v) ∷ m) = if text_eq j k then some v else get_entry k m

  abbrev pub set_entry : Text → V → List (Text × V) → List (Text × V)
  set_entry k v [] = (k, v) ∷ []
  set_entry k v ((j, w) ∷ m) = if text_eq j k then (j, v) ∷ m else (j, w) ∷ set_entry k v m

  abbrev pub delete_entry : Text → List (Text × V) → List (Text × V)
  delete_entry k [] = []
  delete_entry k ((j, w) ∷ m) = if text_eq j k then m else (j, w) ∷ delete_entry k m

  -- The loop that deletes the entries of the values that do not pass.
  abbrev pub keep_entries : (V → Bool) → List (Text × V) → List (Text × V)
  keep_entries p [] = []
  keep_entries p ((j, w) ∷ m) = if p w then (j, w) ∷ keep_entries p m else keep_entries p m

  abbrev pub keys : List (Text × V) → List Text
  keys [] = []
  keys ((j, w) ∷ m) = j ∷ keys m

  abbrev pub sift : (V → Bool) → Option V → Option V
  sift p none = none
  sift p (some v) = if p v then some v else none

  pub get_entry-set_entry :
      (k : Text) (v : V) (m : List (Text × V)) → get_entry k (set_entry k v m) ≡ some v
  get_entry-set_entry k v [] = ground (arith, text_eq_refl k)
  get_entry-set_entry k v ((j, w) ∷ m) = ground (arith, get_entry-set_entry k v m)

  pub get_entry-set_entry_other :
      (j k : Text) (v : V) (m : List (Text × V))
      → text_eq k j ≡ false
      → get_entry j (set_entry k v m) ≡ get_entry j m
  get_entry-set_entry_other j k v [] h = ground (arith, h)
  get_entry-set_entry_other j k v ((i, w) ∷ m) h =
      ground (arith, same, get_entry-set_entry_other j k v m h)
    where
      same : text_eq i k ≡ true → text_eq i j ≡ false
      same e = rw ((text_eq_iff i k).0 e) h

  pub member-set_entry :
      (j k : Text) (v : V) (m : List (Text × V))
      → member j (keys m) ≡ false
      → text_eq k j ≡ false
      → member j (keys (set_entry k v m)) ≡ false
  member-set_entry j k v [] h e = ground (arith, e)
  member-set_entry j k v ((i, w) ∷ m) h e = ground (arith, h, e, member-set_entry j k v m)

  pub set_entry-Distinct :
      (k : Text) (v : V) (m : List (Text × V))
      → Distinct (keys m)
      → Distinct (keys (set_entry k v m))
  set_entry-Distinct k v [] d = (refl, tt)
  set_entry-Distinct k v ((i, w) ∷ m) d = elim (Bool-cases (text_eq i k)) [
    | inl e ↦ rw e d
    | inr e ↦ rw e (member-set_entry i k v m d.0 (text_eq_flip i k e), set_entry-Distinct k v m d.1)
  ]

  pub member-keep_entries :
      (p : V → Bool) (j : Text) (m : List (Text × V))
      → member j (keys m) ≡ false
      → member j (keys (keep_entries p m)) ≡ false
  member-keep_entries p j [] h = refl
  member-keep_entries p j ((i, w) ∷ m) h = ground (arith, h, member-keep_entries p j m)

  pub keep_entries-Distinct :
      (p : V → Bool) (m : List (Text × V)) → Distinct (keys m) → Distinct (keys (keep_entries p m))
  keep_entries-Distinct p [] d = tt
  keep_entries-Distinct p ((i, w) ∷ m) d = elim (Bool-cases (p w)) [
    | inl e ↦ rw e (member-keep_entries p i m d.0, keep_entries-Distinct p m d.1)
    | inr e ↦ rw e (keep_entries-Distinct p m d.1)
  ]

  get_entry-none :
      (k : Text) (m : List (Text × V)) → member k (keys m) ≡ false → get_entry k m ≡ none
  get_entry-none k [] h = refl
  get_entry-none k ((i, w) ∷ m) h = ground (arith, h, get_entry-none k m)

  pub get_entry-keep_entries :
      (p : V → Bool) (k : Text) (m : List (Text × V))
      → Distinct (keys m)
      → get_entry k (keep_entries p m) ≡ sift p (get_entry k m)
  get_entry-keep_entries p k [] d = refl
  get_entry-keep_entries p k ((i, w) ∷ m) d = ground (arith, get_entry-keep_entries p k m d.1, gone)
    where
      gone : text_eq i k ≡ true → get_entry k (keep_entries p m) ≡ none
      gone e =
          get_entry-none k (keep_entries p m)
            (member-keep_entries p k m (rw ((text_eq_iff i k).0 e) at d.0))

  member-delete_entry :
      (k j : Text) (m : List (Text × V))
      → member j (keys m) ≡ false
      → member j (keys (delete_entry k m)) ≡ false
  member-delete_entry k j [] h = refl
  member-delete_entry k j ((i, w) ∷ m) h = ground (arith, h, member-delete_entry k j m)

  pub delete_entry-Distinct :
      (k : Text) (m : List (Text × V)) → Distinct (keys m) → Distinct (keys (delete_entry k m))
  delete_entry-Distinct k [] d = tt
  delete_entry-Distinct k ((i, w) ∷ m) d = elim (Bool-cases (text_eq i k)) [
    | inl e ↦ rw e d.1
    | inr e ↦ rw e (member-delete_entry k i m d.0, delete_entry-Distinct k m d.1)
  ]

  pub get_entry-delete_entry :
      (k : Text) (m : List (Text × V)) → Distinct (keys m) → get_entry k (delete_entry k m) ≡ none
  get_entry-delete_entry k [] d = refl
  get_entry-delete_entry k ((i, w) ∷ m) d = elim (Bool-cases (text_eq i k)) [
    | inl e ↦ rw e (get_entry-none k m (rw ((text_eq_iff i k).0 e) at d.0))
    | inr e ↦ rw (e, e) (get_entry-delete_entry k m d.1)
  ]

  pub get_entry-delete_entry_other :
      (j k : Text) (m : List (Text × V))
      → text_eq k j ≡ false
      → get_entry j (delete_entry k m) ≡ get_entry j m
  get_entry-delete_entry_other j k [] h = refl
  get_entry-delete_entry_other j k ((i, w) ∷ m) h =
      ground (arith, same, get_entry-delete_entry_other j k m h)
    where
      same : text_eq i k ≡ true → text_eq i j ≡ false
      same e = rw ((text_eq_iff i k).0 e) h
