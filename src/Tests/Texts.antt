-- ===== src/Tests/Texts.antt =====
-- One object, stored with its keys in two orders.
use openrep.Prelude.{All, arith, true, length, Text, text, [], ◌∷◌, ◌≡◌, refl, some}
use openrep.Canonical.{
  value, map_attempt, field_text, object_text, text_le, node_text, insert_field, sort_fields,
  leaf_text, finite, canonicalize_inner, Heap, object, Value, canonicalize,
}
use openrep.Canonical.Tree
use openrep.Hex.RoundTrip.{bytes_to_hex-hex_to_bytes, hex_to_bytes-bytes_to_hex}
use openrep.Canonical.Tree.{IsWellFormed}
use openrep.Canonical.Refinement.{canonicalize_unambiguous}
use openrep.Canonical.Reify.{reify, reify_leaf, reify_node, reify_items, reify_fields}
use openrep.Hex.{is_hex_code, IsByte, is_lowercase_hex_of_length, bytes_to_hex, hex_to_bytes}
use openrep.Canonical.Injective.{print-injective}
use openrep.Canonical.Json.{hex4, encode_unit, encode_units, quote}

abbrev one_order : Heap
one_order address =
    object ((text "b", Value.num (finite (text "1"))) ∷ (text "a", Value.str (text "x\n")) ∷ [])

abbrev other_order : Heap
other_order address =
    object ((text "a", Value.str (text "x\n")) ∷ (text "b", Value.num (finite (text "1"))) ∷ [])

abbrev tree : Tree.Tree
tree = Tree.obj (
    Tree.field (text "a") (Tree.str (text "x\n"))
      (Tree.field (text "b") (Tree.num (text "1")) Tree.end))

abbrev json : Text
json = text "{\"a\":\"x\\n\",\"b\":1}"

one_text : canonicalize one_order (Value.ref 1) ≡ value json
unfolding canonicalize canonicalize_inner leaf_text node_text object_text field_text sort_fields
    insert_field text_le map_attempt quote encode_units encode_unit hex4
one_text = refl

other_text : canonicalize other_order (Value.ref 2) ≡ value json
unfolding canonicalize canonicalize_inner leaf_text node_text object_text field_text sort_fields
    insert_field text_le map_attempt quote encode_units encode_unit hex4
other_text = refl

one_tree : reify one_order 6 (Value.ref 1) ≡ some tree
unfolding reify reify_leaf reify_node reify_items reify_fields sort_fields insert_field text_le
one_tree = refl

other_tree : reify other_order 6 (Value.ref 2) ≡ some tree
unfolding reify reify_leaf reify_node reify_items reify_fields sort_fields insert_field text_le
other_tree = refl

tree_formed : IsWellFormed tree
tree_formed = (
  (ground arith, tt),
  (ground arith, (ground arith, tt)),
  (
    (ground arith, tt),
    ((ground arith, ground arith), ((ground arith, ground arith, ground arith), tt)),
    tt,
  ),
)

canonicalize_unambiguous_example : tree ≡ tree
canonicalize_unambiguous_example =
    canonicalize_unambiguous one_order other_order (Value.ref 1) (Value.ref 2) tree tree one_tree
      other_tree tree_formed tree_formed one_text other_text

print-injective_example : tree ≡ tree
print-injective_example = print-injective tree tree tree_formed tree_formed refl

bytes_example : hex_to_bytes (bytes_to_hex (0 ∷ 255 ∷ [])) ≡ 0 ∷ 255 ∷ []
bytes_example = hex_to_bytes-bytes_to_hex (0 ∷ 255 ∷ []) (ground arith, (ground arith, tt))

hex_shape : is_lowercase_hex_of_length (text "0aff") 2 ≡ true
unfolding is_lowercase_hex_of_length is_hex_code
hex_shape = refl

hex_example :
    (bytes_to_hex (hex_to_bytes (text "0aff")) ≡ text "0aff")
    × (length (hex_to_bytes (text "0aff")) ≡ 2)
    × All IsByte (hex_to_bytes (text "0aff"))
hex_example = bytes_to_hex-hex_to_bytes 2 (text "0aff") hex_shape
