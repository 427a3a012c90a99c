-- ===== src/RunLoop/History/Bounds.antt =====
-- What `normalizeHistory` keeps.
use openrep.Prelude.{
  sym, append-nil, text, inr, text_eq, All, inl, true, ltb, Bool-cases, ◌≢◌, if◌then◌else◌, refl,
  ◌∙◌, false, reverse-cons, ◌==◌, zero, ap, ◌-◌, suc, ◌+◌, trim, ◌≡◌, arith, length, ◌≤◌, drop,
  ◌++◌, Option, reverse, Bool, List, ℕ, none, some, [], ◌∷◌,
}
use mathlib.Core.List.{Sublistᴰ}
use mathlib.Core.List.Sublistᴰ
use openrep.RunLoop.History.{
  cons_turn, turn_by, turn_of, turns_of, turn_of_role, max_history_turn_length,
  max_history_total_characters, content_length, keep_fitting, Turn, turn_with,
}
use openrep.RunLoop.Arguments.{empty_array, item, JsonItems, json_object, string, Json}
use openrep.RunLoop.{Text}

abbrev pub total : List Turn → ℕ
total [] = 0
total (t ∷ ts) = content_length t + total ts

abbrev pub first : List Turn → Option Turn
first [] = none
first (t ∷ ts) = some t

-- The last turn of a conversation.
abbrev pub newest_turn : List Turn → Option Turn
newest_turn ts = first (reverse ts)

pub record IsUsable (t : Turn) : Type 0 where
  pub has_text : (length (trim t.content) == 0) ≡ false
  pub is_short : content_length t ≤ max_history_turn_length

total-append : (ts us : List Turn) → total (ts ++ us) ≡ total ts + total us
total-append [] us = omega arith
total-append (t ∷ ts) us = omega (arith, total-append ts us)

pub total-reverse : (ts : List Turn) → total (reverse ts) ≡ total ts
total-reverse [] = refl
total-reverse (t ∷ ts) =
    ap total (reverse-cons t ts)
    ∙ total-append (reverse ts) (t ∷ [])
    ∙ omega (arith, total-reverse ts)

pub total-keep_fitting :
    (ts : List Turn) (used : ℕ)
    → used ≤ max_history_total_characters
    → used + total (keep_fitting used ts) ≤ max_history_total_characters
unfolding keep_fitting
total-keep_fitting [] used h = omega (arith, h)
total-keep_fitting (t ∷ older) used h =
    ground (
      arith,
      h,
      total-keep_fitting older used h,
      total-keep_fitting older (used + content_length t),
    )

pub along : {ts us vs ws : List Turn} → ts ≡ us → vs ≡ ws → Sublistᴰ ts vs → Sublistᴰ us ws
along e e' s = rw (← e, ← e') s

pub reverse-Sublistᴰ : {ts us : List Turn} → Sublistᴰ ts us → Sublistᴰ (reverse ts) (reverse us)
reverse-Sublistᴰ Sublistᴰ.slnil = Sublistᴰ.slnil
reverse-Sublistᴰ (Sublistᴰ.cons {a} {l₁} {l₂} s) =
    along (append-nil (reverse l₁)) (sym (reverse-cons a l₂))
      (Sublistᴰ.append (reverse-Sublistᴰ s) (Sublistᴰ.cons {a = a} Sublistᴰ.slnil))
reverse-Sublistᴰ (Sublistᴰ.cons-cons {a} {b} {l₁} {l₂} e s) =
    along (sym (reverse-cons a l₁)) (sym (reverse-cons b l₂))
      (Sublistᴰ.append (reverse-Sublistᴰ s) (Sublistᴰ.cons-cons e Sublistᴰ.slnil))

pub keep_fitting-Sublistᴰ : (ts : List Turn) (used : ℕ) → Sublistᴰ (keep_fitting used ts) ts
unfolding keep_fitting
keep_fitting-Sublistᴰ [] used = Sublistᴰ.slnil
keep_fitting-Sublistᴰ (t ∷ older) used =
    elim (Bool-cases (ltb max_history_total_characters (used + content_length t))) [
      | inl over ↦ rw over (Sublistᴰ.cons (keep_fitting-Sublistᴰ older used))
      | inr fits ↦
          rw fits (Sublistᴰ.cons-cons refl (keep_fitting-Sublistᴰ older (used + content_length t)))
    ]

pub drop-Sublistᴰ : (n : ℕ) (ts : List Turn) → Sublistᴰ (drop n ts) ts
drop-Sublistᴰ zero ts = Sublistᴰ.refl ts
drop-Sublistᴰ (suc n) [] = Sublistᴰ.slnil
drop-Sublistᴰ (suc n) (t ∷ ts) = Sublistᴰ.cons (drop-Sublistᴰ n ts)

pub length-drop : (n : ℕ) (ts : List Turn) → length (drop n ts) ≡ length ts - n
length-drop zero ts = omega arith
length-drop (suc n) [] = omega arith
length-drop (suc n) (t ∷ ts) = omega (arith, length-drop n ts)

pub length-keep_fitting : (ts : List Turn) (used : ℕ) → length (keep_fitting used ts) ≤ length ts
unfolding keep_fitting
length-keep_fitting [] used = omega arith
length-keep_fitting (t ∷ older) used =
    ground
      (arith, length-keep_fitting older used, length-keep_fitting older (used + content_length t))

pub inj : {A : Type 0} {a b : A} → some a ≡ some b → a ≡ b
inj h = cc

pub both_pass :
    (x y : Bool) (u t : Turn)
    → (if x then none else if y then none else some u) ≡ some t
    → (x ≡ false) × (y ≡ false) × (u ≡ t)
both_pass true y u t h = absurd cc
both_pass false true u t h = absurd cc
both_pass false false u t h = (refl, refl, inj h)

no_turn : (t : Turn) → none ≢ some t
no_turn t h = cc

turn_with-IsUsable :
    (b : Bool) (content : Json) (t : Turn) → turn_with b content ≡ some t → IsUsable t
unfolding turn_with
turn_with-IsUsable b (string c) t h =
    let (x, y, e) =
      both_pass (length (trim c) == 0) (ltb max_history_turn_length (length c))
        (record { by_assistant = b; content = c }) t h in
    rw (← e) (record { has_text = x; is_short = ground (arith, y) })
turn_with-IsUsable b _ t h = absurd (no_turn t h)

turn_by-IsUsable :
    (role : Text) (content : Json) (t : Turn) → turn_by role content ≡ some t → IsUsable t
turn_by-IsUsable role content t h =
    by_role (text_eq role (text "user")) (text_eq role (text "assistant")) h
  where
    by_role :
        (x y : Bool)
        → (if x then turn_with false content else if y then turn_with true content else none)
          ≡ some t
        → IsUsable t
    by_role true y h = turn_with-IsUsable false content t h
    by_role false true h = turn_with-IsUsable true content t h
    by_role false false h = absurd (no_turn t h)

turn_of_role-IsUsable :
    (role content : Json) (t : Turn) → turn_of_role role content ≡ some t → IsUsable t
unfolding turn_of_role
turn_of_role-IsUsable (string role) content t h = turn_by-IsUsable role content t h
turn_of_role-IsUsable _ content t h = absurd (no_turn t h)

turn_of-IsUsable : (entry : Json) (t : Turn) → turn_of entry ≡ some t → IsUsable t
unfolding turn_of
turn_of-IsUsable (json_object entry) t h = turn_of_role-IsUsable _ _ t h
turn_of-IsUsable _ t h = absurd (no_turn t h)

pub turns_of-All :
    (entries : JsonItems) (ts : List Turn) → turns_of entries ≡ some ts → All IsUsable ts
unfolding turns_of cons_turn
turns_of-All empty_array ts h = let e : [] ≡ ts = inj h in rw (← e) tt
turns_of-All (item entry entries) ts h =
    go (turn_of entry) (turns_of entries) (turn_of-IsUsable entry) (turns_of-All entries) h
  where
    go :
        (o : Option Turn) (os : Option (List Turn))
        → ((t : Turn) → o ≡ some t → IsUsable t)
        → ((us : List Turn) → os ≡ some us → All IsUsable us)
        → cons_turn o os ≡ some ts
        → All IsUsable ts
    go (some t) (some us) k k' h = let e : (t ∷ us) ≡ ts = inj h in rw (← e) (k t refl, k' us refl)
    go none os k k' h = absurd cc
    go (some t) none k k' h = absurd cc
