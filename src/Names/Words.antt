-- ===== src/Names/Words.antt =====
-- packages/sdk/src/names.ts: words and names of them, drawn at random.
pub mod Apart
pub mod Shuffle
pub mod Batch
use openrep.Prelude.{
  ℕ, zero, suc, ◌+◌, ◌*◌, ◌%◌, ◌-◌, ◌&&◌, ◌^◌, List, [], ◌∷◌, ◌++◌, Text, text, Option, some, none,
  get_elem?, or_else, length, take, leb, if◌then◌else◌,
}

abbrev pub adjectives : List Text
adjectives =
    text "beautiful"
    ∷ text "brave"
    ∷ text "bright"
    ∷ text "calm"
    ∷ text "clever"
    ∷ text "curious"
    ∷ text "eager"
    ∷ text "faithful"
    ∷ text "gentle"
    ∷ text "graceful"
    ∷ text "happy"
    ∷ text "honest"
    ∷ text "humble"
    ∷ text "kind"
    ∷ text "lively"
    ∷ text "loyal"
    ∷ text "lucky"
    ∷ text "mighty"
    ∷ text "noble"
    ∷ text "patient"
    ∷ text "peaceful"
    ∷ text "playful"
    ∷ text "proud"
    ∷ text "quick"
    ∷ text "quiet"
    ∷ text "radiant"
    ∷ text "rapid"
    ∷ text "serene"
    ∷ text "sharp"
    ∷ text "silent"
    ∷ text "sincere"
    ∷ text "swift"
    ∷ text "tall"
    ∷ text "wise"
    ∷ text "young"
    ∷ text "zealous"
    ∷ []

abbrev pub nouns : List Text
nouns =
    text "ant"
    ∷ text "beaver"
    ∷ text "bee"
    ∷ text "bird"
    ∷ text "boar"
    ∷ text "bunny"
    ∷ text "cat"
    ∷ text "crab"
    ∷ text "deer"
    ∷ text "dog"
    ∷ text "dolphin"
    ∷ text "duck"
    ∷ text "eagle"
    ∷ text "falcon"
    ∷ text "fox"
    ∷ text "frog"
    ∷ text "goat"
    ∷ text "hawk"
    ∷ text "horse"
    ∷ text "lion"
    ∷ text "lynx"
    ∷ text "mole"
    ∷ text "monkey"
    ∷ text "mouse"
    ∷ text "otter"
    ∷ text "owl"
    ∷ text "panda"
    ∷ text "pig"
    ∷ text "rabbit"
    ∷ text "raven"
    ∷ text "seal"
    ∷ text "shark"
    ∷ text "skunk"
    ∷ text "snake"
    ∷ text "turtle"
    ∷ text "wolf"
    ∷ []

abbrev pub colors : List Text
colors =
    text "amber"
    ∷ text "aqua"
    ∷ text "beige"
    ∷ text "black"
    ∷ text "blue"
    ∷ text "bronze"
    ∷ text "brown"
    ∷ text "crimson"
    ∷ text "cyan"
    ∷ text "emerald"
    ∷ text "gold"
    ∷ text "gray"
    ∷ text "green"
    ∷ text "indigo"
    ∷ text "ivory"
    ∷ text "lavender"
    ∷ text "lilac"
    ∷ text "magenta"
    ∷ text "maroon"
    ∷ text "navy"
    ∷ text "olive"
    ∷ text "orange"
    ∷ text "peach"
    ∷ text "pink"
    ∷ text "plum"
    ∷ text "purple"
    ∷ text "red"
    ∷ text "rose"
    ∷ text "ruby"
    ∷ text "sapphire"
    ∷ text "scarlet"
    ∷ text "silver"
    ∷ text "tan"
    ∷ text "teal"
    ∷ text "violet"
    ∷ text "yellow"
    ∷ []

-- Four bytes of the secure generator, the lowest first.
pub record FourBytes : Type 0 where
  pub first : ℕ
  pub second : ℕ
  pub third : ℕ
  pub fourth : ℕ

-- The shifts and ors of bytes are sums; `>>> 0` reads them without a sign.
abbrev pub unsigned : FourBytes → ℕ
unsigned b = (b.first + b.second * 256 + b.third * 65536 + b.fourth * 16777216) % 2 ^ 32

unfoldable pub pick_index : FourBytes → ℕ → ℕ
pick_index bytes limit = unsigned bytes % limit

-- `list[i]` in a template, where a missing element is spelled.
unfoldable pub word_at : List Text → ℕ → Text
word_at list i = or_else (get_elem? list i) (text "undefined")

unfoldable pub set_elem : List Text → ℕ → Text → List Text
set_elem [] i w = []
set_elem (v ∷ list) zero w = w ∷ list
set_elem (v ∷ list) (suc i) w = v ∷ set_elem list i w

-- `[copy[i], copy[j]] = [copy[j], copy[i]]`
abbrev pub swap : List Text → ℕ → ℕ → List Text
swap copy i j = set_elem (set_elem copy i (word_at copy j)) j (word_at copy i)

unfoldable pub name_of : Text → Text → Text → Text
name_of adjective noun color = adjective ++ text "-" ++ noun ++ text "-" ++ color ++ text ".agent"

abbrev pub min : ℕ → ℕ → ℕ
min a b = if leb a b then a else b

abbrev pub max_batch : ℕ
max_batch = min (min (length adjectives) (length nouns)) (length colors)

abbrev pub names_from : ℕ → List Text → List Text → List Text → List Text
names_from i [] ns cs = []
names_from i (a ∷ rest) ns cs =
    name_of a (word_at ns i) (word_at cs i) ∷ names_from (suc i) rest ns cs

-- `draws t` is what the generator gives the t-th time.
module _ (draws : ℕ → FourBytes) where
  unfoldable pub pick_word : ℕ → List Text → Text
  pick_word t list = word_at list (pick_index (draws t) (length list))

  unfoldable pub generate_name : ℕ → Text
  generate_name t =
      name_of (pick_word t adjectives) (pick_word (t + 1) nouns) (pick_word (t + 2) colors)

  -- The rounds from index `i` down to 1, and the number of the next draw.
  unfoldable pub shuffle_down : ℕ → ℕ → List Text → List Text × ℕ
  shuffle_down zero t copy = (copy, t)
  shuffle_down (suc i) t copy =
      shuffle_down i (suc t) (swap copy (suc i) (pick_index (draws t) (suc i + 1)))

  unfoldable pub shuffle : ℕ → List Text → List Text × ℕ
  shuffle t list = shuffle_down (length list - 1) t list

  abbrev pub batch : ℕ → ℕ → List Text
  batch t count =
      let a = shuffle t adjectives in
      let n = shuffle a.1 nouns in
      let c = shuffle n.1 colors in names_from 0 (take count a.0) (take count n.0) (take count c.0)

  -- `none` is the `RangeError`. A count that is not a whole number, or a negative one, is `none`.
  unfoldable pub generate_name_batch : ℕ → Option ℕ → Option (List Text)
  generate_name_batch t none = none
  generate_name_batch t (some count) =
      if leb 1 count && leb count max_batch then some (batch t count) else none
