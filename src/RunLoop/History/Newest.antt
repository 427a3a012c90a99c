-- ===== src/RunLoop/History/Newest.antt =====
-- The newest turn is kept, and the whole of what `normalizeHistory` promises.
use openrep.Prelude.{
  ◌==◌, trim, text_eq_iff, true, text_eq, if◌then◌else◌, text, Bool, take-drop, reverse-append, ap,
  ◌∙◌, false, take, ◌+◌, sym, reverse-reverse, ltb, length-reverse, zero, All-append, Option, refl,
  ◌-◌, ◌++◌, reverse-cons, arith, suc, ◌≤◌, drop, ◌≡◌, reverse, length, All, ◌<◌, List, ℕ, none,
  some, [], ◌∷◌,
}
use mathlib.Core.List.{Sublistᴰ}
use mathlib.Core.List.Sublistᴰ
use openrep.RunLoop.History.{
  turn_of_role, turn_with, turn_of, cons_turn, max_history_total_characters,
  max_history_turn_length, content_length, max_history_turns, turns_of, last_of, bounded, Turn,
  keep_fitting, bound_history, normalize_history,
}
use openrep.RunLoop.Arguments.{
  empty_array, get_property, JsonFields, string, json_object, item, Json, json_array, JsonItems,
}
use openrep.RunLoop.History.Bounds.{
  both_pass, total-keep_fitting, total-reverse, length-keep_fitting, drop-Sublistᴰ,
  keep_fitting-Sublistᴰ, reverse-Sublistᴰ, turns_of-All, inj, length-drop, along, total, first,
  IsUsable,
}
use openrep.RunLoop.History.Bounds.{newest_turn}

first-append : (ts us : List Turn) → 0 < length ts → first (ts ++ us) ≡ first ts
first-append [] us h = absurd (omega (arith, h))
first-append (t ∷ ts) us h = refl

newest_turn-drop :
    (n : ℕ) (ts : List Turn) → n < length ts → newest_turn (drop n ts) ≡ newest_turn ts
newest_turn-drop n ts h =
    sym (first-append (reverse (drop n ts)) (reverse (take n ts)) some_left)
    ∙ ap first (sym (reverse-append (take n ts) (drop n ts)))
    ∙ ap newest_turn (take-drop n ts)
  where
    some_left : 0 < length (reverse (drop n ts))
    some_left = omega (arith, length-reverse (drop n ts), length-drop n ts, h)

none_before : (n : ℕ) → 0 - n ≡ 0
none_before n = omega arith

newest_turn-last_of : (n : ℕ) (ts : List Turn) → 0 < n → newest_turn (last_of n ts) ≡ newest_turn ts
newest_turn-last_of n [] h = ap (λ k. newest_turn (drop k [])) (none_before n)
newest_turn-last_of n (t ∷ ts) h =
    newest_turn-drop (length (t ∷ ts) - n) (t ∷ ts) (omega (arith, h))

first-keep_fitting : (ts : List Turn) → All IsUsable ts → first (keep_fitting 0 ts) ≡ first ts
unfolding keep_fitting
first-keep_fitting [] h = refl
first-keep_fitting (t ∷ older) (usable, h) = rw (fits usable.is_short) refl
  where
    fits :
        content_length t ≤ max_history_turn_length
        → ltb max_history_total_characters (0 + content_length t) ≡ false
    fits k = ground (arith, k)

All-drop : (n : ℕ) (ts : List Turn) → All IsUsable ts → All IsUsable (drop n ts)
All-drop zero ts h = h
All-drop (suc n) [] h = h
All-drop (suc n) (t ∷ ts) h = All-drop n ts h.1

All-reverse : (ts : List Turn) → All IsUsable ts → All IsUsable (reverse ts)
All-reverse [] h = tt
All-reverse (t ∷ ts) h =
    rw (reverse-cons t ts)
      (All-append IsUsable (reverse ts) (t ∷ []) (All-reverse ts h.1) (h.0, tt))

-- What is kept of these turns.
pub record IsRecent (turns kept : List Turn) : Type 0 where
  pub in_order : Sublistᴰ kept turns
  pub usable : All IsUsable turns
  pub few : length kept ≤ max_history_turns
  pub short : total kept ≤ max_history_total_characters
  pub with_newest : newest_turn kept ≡ newest_turn turns

bound_history-IsRecent :
    (turns : List Turn) → All IsUsable turns → IsRecent turns (bound_history turns)
unfolding bound_history
bound_history-IsRecent turns usable = record {
  in_order =
      Sublistᴰ.trans
        (along refl (reverse-reverse recent)
          (reverse-Sublistᴰ (keep_fitting-Sublistᴰ (reverse recent) 0)))
        (drop-Sublistᴰ _ turns);
  usable = usable;
  few = omega (
    arith,
    length-reverse kept,
    length-keep_fitting (reverse recent) 0,
    length-reverse recent,
    length-drop (length turns - max_history_turns) turns,
  );
  short = omega (arith, total-reverse kept, total-keep_fitting (reverse recent) 0 (omega arith));
  with_newest =
      ap first (reverse-reverse kept)
      ∙ first-keep_fitting (reverse recent) (All-reverse recent (All-drop _ turns usable))
      ∙ newest_turn-last_of max_history_turns turns (omega arith);
}
  where
    recent : List Turn
    recent = last_of max_history_turns turns

    kept : List Turn
    kept = keep_fitting 0 (reverse recent)

-- An entry is an object, with one of the two roles, and the text of the turn.
pub record IsEntry (v : Json) (t : Turn) : Type 0 where
  pub fields : JsonFields
  pub is_object : v ≡ json_object fields
  pub role :
      get_property (text "role") fields
      ≡ string (if t.by_assistant then text "assistant" else text "user")
  pub content : get_property (text "content") fields ≡ string t.content

-- The entries are these turns, one for one.
abbrev pub AreEntries : JsonItems → List Turn → Type 0
AreEntries empty_array [] = Unit
AreEntries (item v entries) (t ∷ turns) = IsEntry v t × AreEntries entries turns
AreEntries _ _ = ⊥

abbrev Said : Bool → Json → Turn → Type 0
Said b v t = (t.by_assistant ≡ b) × (v ≡ string t.content)

turn_with-Said : (b : Bool) (v : Json) (t : Turn) → turn_with b v ≡ some t → Said b v t
unfolding turn_with
turn_with-Said b (string c) t h =
    let (x, y, e) =
      both_pass (length (trim c) == 0) (ltb max_history_turn_length (length c))
        (record { by_assistant = b; content = c }) t h in
    rw (← e) (refl, refl)
turn_with-Said b _ t h = absurd cc

turn_of_role-IsEntry :
    (fields : JsonFields) (role content : Json) (t : Turn)
    → get_property (text "role") fields ≡ role
    → get_property (text "content") fields ≡ content
    → turn_of_role role content ≡ some t
    → IsEntry (json_object fields) t
unfolding turn_of_role
turn_of_role-IsEntry fields (string role) content t e e' h =
    by_role (text_eq role (text "user")) (text_eq role (text "assistant")) refl refl h
  where
    entry :
        (b : Bool)
        → Said b content t
        → role ≡ (if b then text "assistant" else text "user")
        → IsEntry (json_object fields) t
    entry b (who, what) named = record {
      fields = fields;
      is_object = refl;
      role =
          e ∙ ap string (named ∙ ap (λ x. if x then text "assistant" else text "user") (sym who));
      content = e' ∙ what;
    }

    by_role :
        (x y : Bool)
        → text_eq role (text "user") ≡ x
        → text_eq role (text "assistant") ≡ y
        → (if x then turn_with false content else if y then turn_with true content else none)
          ≡ some t
        → IsEntry (json_object fields) t
    by_role true y u a h = entry false (turn_with-Said false content t h) ((text_eq_iff _ _).0 u)
    by_role false true u a h = entry true (turn_with-Said true content t h) ((text_eq_iff _ _).0 a)
    by_role false false u a h = absurd cc
turn_of_role-IsEntry fields _ content t e e' h = absurd cc

turn_of-IsEntry : (v : Json) (t : Turn) → turn_of v ≡ some t → IsEntry v t
unfolding turn_of
turn_of-IsEntry (json_object fields) t h = turn_of_role-IsEntry fields _ _ t refl refl h
turn_of-IsEntry _ t h = absurd cc

turns_of-AreEntries :
    (entries : JsonItems) (ts : List Turn) → turns_of entries ≡ some ts → AreEntries entries ts
unfolding turns_of cons_turn
turns_of-AreEntries empty_array ts h = let e : [] ≡ ts = inj h in rw (← e) tt
turns_of-AreEntries (item v entries) ts h =
    go (turn_of v) (turns_of entries) (turn_of-IsEntry v) (turns_of-AreEntries entries) h
  where
    go :
        (o : Option Turn) (os : Option (List Turn))
        → ((t : Turn) → o ≡ some t → IsEntry v t)
        → ((us : List Turn) → os ≡ some us → AreEntries entries us)
        → cons_turn o os ≡ some ts
        → AreEntries (item v entries) ts
    go (some t) (some us) k k' h = let e : (t ∷ us) ≡ ts = inj h in rw (← e) (k t refl, k' us refl)
    go none os k k' h = absurd cc
    go (some t) none k k' h = absurd cc

-- When normalizeHistory accepts an array, its entries are turns, one for one: objects with the role
-- of a user or an assistant, and text that is not blank and not too long; and what it keeps is some of these turns in their order, at most 20 of
-- them, of at most 16000 characters together, the newest one among them.
pub normalize_history-IsRecent :
    (entries : JsonItems) (kept : List Turn)
    → normalize_history (json_array entries) ≡ some kept
    → (turns : List Turn) × AreEntries entries turns × IsRecent turns kept
unfolding normalize_history bounded
normalize_history-IsRecent entries kept h = go (turns_of entries) refl h
  where
    go :
        (o : Option (List Turn))
        → turns_of entries ≡ o
        → bounded o ≡ some kept
        → (turns : List Turn) × AreEntries entries turns × IsRecent turns kept
    go none e h = absurd cc
    go (some turns) e h =
        let same : bound_history turns ≡ kept = inj h in
        (
          turns,
          turns_of-AreEntries entries turns e,
          rw (← same) (bound_history-IsRecent turns (turns_of-All entries turns e)),
        )
