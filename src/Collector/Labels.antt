-- ===== src/Collector/Labels.antt =====
-- Labels and selectors: `checkLabelExist`, `MatchLabelSelectors`, `MatchLabels` and
-- `MatchExpressions` of tools/log-collector/helper.go.
pub mod Matched
use tvk_plugins.Base.{
  String, ◌==◌, Bool, true, false, ◌||◌, ◌&&◌, if◌then◌else◌, Option, none, some, List, [], ◌∷◌,
}
use tvk_plugins.Base.Dict.{Dict, lookup}

-- `metav1.LabelSelectorRequirement` and `metav1.LabelSelector`
pub record Requirement : Type 0 where
  pub key : String
  pub operator : String
  pub values : List String

pub record LabelSelector : Type 0 where
  pub match_labels : Dict String
  pub match_expressions : List Requirement

-- `GroupVersionKind` of log_collector.go
pub record GroupVersionKind : Type 0 where
  pub group : String
  pub version : String
  pub kind : String

-- The value of a key that is there, compared.
abbrev pub has_value : Option String → String → Bool
has_value none v = false
has_value (some w) v = w == v

-- A key that is there decides anew.
abbrev pub decided : Bool → Option String → String → Bool
decided exist none v = exist
decided exist (some w) v = w == v

-- The last key that both maps have decides. The maps that the code gives have one key.
unfoldable pub label_exists : Bool → Dict String → Dict String → Bool
label_exists exist [] labels = exist
label_exists exist ((k, v) ∷ given) labels =
    label_exists (decided exist (lookup k labels) v) given labels

unfoldable pub check_label_exist : Dict String → Dict String → Bool
unfolding label_exists
check_label_exist given labels = label_exists false given labels

unfoldable pub match_labels : Dict String → Dict String → Bool
match_labels labels [] = true
match_labels labels ((k, v) ∷ wanted) = has_value (lookup k labels) v && match_labels labels wanted

-- `labels.NewRequirement` and `Requirement.Matches`: whether the labels match, or nothing where the
-- requirement is not valid. The code logs that and calls `Matches` on nil, which panics.
module _ (requirement_matches : Requirement → Dict String → Option Bool) where
  -- none is the panic
  unfoldable pub match_expressions : Dict String → List Requirement → Option Bool
  match_expressions labels [] = some true
  match_expressions labels (r ∷ rs) = elim (requirement_matches r labels) [
    | none ↦ none
    | some false ↦ some false
    | some true ↦ match_expressions labels rs
  ]

  abbrev or_else : Option Bool → Option Bool → Option Bool
  or_else none rest = none
  or_else (some true) rest = some true
  or_else (some false) rest = rest

  unfoldable pub match_selector : Dict String → LabelSelector → Option Bool
  unfolding match_labels match_expressions
  match_selector labels s =
      if match_labels labels s.match_labels
      then match_expressions labels s.match_expressions
      else some false

  unfoldable pub match_any : Dict String → List LabelSelector → Option Bool
  unfolding match_selector
  match_any labels [] = some false
  match_any labels (s ∷ ss) = or_else (match_selector labels s) (match_any labels ss)

  -- Any of the selectors; without one, everything matches.
  unfoldable pub match_label_selectors : Dict String → List LabelSelector → Option Bool
  unfolding match_any
  match_label_selectors labels [] = some true
  match_label_selectors labels (s ∷ ss) = match_any labels (s ∷ ss)
