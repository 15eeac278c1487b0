-- ===== src/Cmd/Pairs.antt =====
-- The flags that hold `<key>=<value>` pairs: `parseNodeSelectorLabels` and `populateResourceList` of
-- cmd/preflight/cmd/helper.go, `parseLabelSelector` of cmd/log-collector/cmd/helper.go.
pub mod RoundTrip
use Prim.Native.Char.{Char}
use tvk_plugins.Base.{String, ◌<>◌, Option, none, some, List, [], ◌∷◌}
use tvk_plugins.Base.Dict.{Dict, insert}
use tvk_plugins.Action.{Error, Result, ok, err, failure}
use tvk_plugins.Text.{split, trim}

-- The test `len(tokens) != 2`.
abbrev pub pair_of : List String → Option (String × String)
pair_of (k ∷ v ∷ []) = some (k, v)
pair_of _ = none

unfoldable pub parse_pairs : Error → List String → Dict String → Result (Dict String)
parse_pairs e [] m = ok m
parse_pairs e (kv ∷ rest) m = elim (pair_of (split "=" kv)) [
  | none ↦ err e
  | some (k, v) ↦ parse_pairs e rest (insert k v m)
]

abbrev pub syntax_error : Error
syntax_error = failure "invalid argument syntax, expected format <key>=<value>"

unfoldable pub parse_node_selector_labels : String → Result (Dict String)
unfolding parse_pairs
parse_node_selector_labels labels = parse_pairs syntax_error (split "," labels) []

abbrev pub labels_error : Error
labels_error = failure " Error Parsing Labels "

-- `parseLabelSelector`: each text gives one selector, a map of labels that all have to match.
unfoldable pub parse_label_selector : List String → Result (List (Dict String))
unfolding parse_pairs
parse_label_selector [] = ok []
parse_label_selector (s ∷ rest) = elim (parse_pairs labels_error (split "|" s) []) [
  | err e ↦ err e
  | ok m ↦ elim (parse_label_selector rest) [ err e ↦ err e | ok ms ↦ ok (m ∷ ms) ]
]

module _ {Quantity : Type 0} (parse_quantity : String → Result Quantity) where
  unfoldable pub populate_pairs : List String → Dict Quantity → Result (Dict Quantity)
  populate_pairs [] rs = ok rs
  populate_pairs (kv ∷ rest) rs = elim (pair_of (split "=" kv)) [
    | none ↦ err syntax_error
    | some (k, v) ↦ elim (parse_quantity (trim v)) [
      | err e ↦ err e
      | ok q ↦ populate_pairs rest (insert (trim k) q rs)
    ]
  ]

  unfoldable pub populate_resource_list : String → Result (Dict Quantity)
  unfolding populate_pairs
  populate_resource_list s = populate_pairs (split "," s) []
