-- ===== src/Collector/Gather/Events.antt =====
-- `aggregateEvents` of tools/log-collector/helper.go: the events of the objects that were collected,
-- by namespace.
pub mod Aggregated
use tvk_plugins.Base.{
  String, ◌<>◌, ◌==◌, ◌||◌, Bool, if◌then◌else◌, Option, none, some, List, [], ◌∷◌, ◌++◌,
  starts_with,
}
use tvk_plugins.Base.Dict.{Dict, lookup, insert, get_or}
use tvk_plugins.Action.{Result, ok, err}
use tvk_plugins.Text.{to_lower}
use tvk_plugins.Collector.Host.{Objects, NamespacedName}
use tvk_plugins.Collector.Filters.{has_name, text_or_empty}

-- `involvedObject`
pub record Involved : Type 0 where
  pub api_version : String
  pub namespace : String
  pub kind : String
  pub name : String

abbrev pub collected_names : Option (List NamespacedName) → List NamespacedName
collected_names none = []
collected_names (some names) = names

-- An event is kept if its object is one of the product's, or was collected.
unfoldable pub is_collected : Dict (List NamespacedName) → Involved → Bool
is_collected collected i =
    starts_with i.api_version "triliovault.trilio.io"
    || has_name (record { namespace = i.namespace; name = i.name })
        (collected_names (lookup i.kind collected))

module _ (O : Objects) where
  abbrev or_default : String → String
  or_default ns = if ns == "" then "default" else ns

  unfoldable pub involved_of : O.Map → Result Involved
  involved_of m = elim (O.nested_string ("involvedObject" ∷ "apiVersion" ∷ []) m) [
    | err e ↦ err e
    | ok version ↦ elim (O.nested_string ("involvedObject" ∷ "namespace" ∷ []) m) [
      | err e ↦ err e
      | ok ns ↦ elim (O.nested_string ("involvedObject" ∷ "kind" ∷ []) m) [
        | err e ↦ err e
        | ok kind ↦ elim (O.nested_string ("involvedObject" ∷ "name" ∷ []) m) [
          | err e ↦ err e
          | ok name ↦ ok (record {
            api_version = text_or_empty O version;
            namespace = or_default (text_or_empty O ns);
            kind = text_or_empty O kind;
            name = text_or_empty O name;
          })
        ]
      ]
    ]
  ]

  -- What is written of an event.
  abbrev pub trimmed_event : O.Map → O.Map
  trimmed_event m =
      O.remove_nested_field ("involvedObject" ∷ []) (O.remove_nested_field ("metadata" ∷ []) m)

  abbrev pub add_event :
      Involved → O.Map → Dict (List (String × O.Map)) → Dict (List (String × O.Map))
  add_event i m found =
      insert i.namespace
        (get_or i.namespace [] found ++ ((to_lower i.kind <> "/" <> i.name, trimmed_event m) ∷ []))
        found

  unfoldable pub aggregate_from :
      Dict (List NamespacedName)
      → List O.Map
      → Dict (List (String × O.Map))
      → Result (Dict (List (String × O.Map)))
  unfolding involved_of is_collected to_lower
  aggregate_from collected [] found = ok found
  aggregate_from collected (m ∷ ms) found = elim (involved_of m) [
    | err e ↦ err e
    | ok i ↦
        aggregate_from collected ms
          (if is_collected collected i then add_event i m found else found)
  ]

  unfoldable pub aggregate_events :
      List O.Map → Dict (List NamespacedName) → Result (Dict (List (String × O.Map)))
  unfolding aggregate_from
  aggregate_events ms collected = aggregate_from collected ms []
