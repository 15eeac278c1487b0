-- ===== src/Cmd/CollectInputs.antt =====
-- The inputs of the log collector, from its config file and its flags: `manageFileInputs` behind the
-- file's decoder, `overrideFileInputsFromCLI`, `deDuplicateAndFixGVKs`, and the test of `preRun`
-- (cmd/log-collector/cmd/helper.go and root.go).
pub mod Overridden
use tvk_plugins.Base.{
  String, ◌==◌, Bool, true, false, not, ◌||◌, ◌&&◌, if◌then◌else◌, Option, none, some, List, [],
  ◌∷◌, map,
}
use tvk_plugins.Base.Dict.{Dict}
use tvk_plugins.Action.{Error, Result, ok, err, is_discovery_failed}
use tvk_plugins.Cmd.Pairs.{parse_label_selector}
use tvk_plugins.Cmd.Gvks.{
  ApiGroupVersion, Parsed, parsed, failed, panicked, parse_gvk, unique_gvks,
  needs_preferred_version, de_duplicate_label_selector,
}
use tvk_plugins.Collector.Labels.{GroupVersionKind, LabelSelector}

-- The variables of the flags, and `cmd.Flags().Changed`.
pub record Flags : Type 0 where
  pub namespaces : List String
  pub kube_config : String
  pub keep_source : Bool
  pub log_level : String
  pub gvks : List String
  pub labels : List String
  pub changed : String → Bool

-- `LogCollector`, the fields that the config file holds
pub record Inputs : Type 0 where
  pub clean_output : Bool
  pub clustered : Bool
  pub namespaces : List String
  pub log_level : String
  pub kube_config : String
  pub label_selectors : List LabelSelector
  pub gvks : List GroupVersionKind

abbrev pub given {ℓ} : {A : Type ℓ} → List A → Bool
given [] = false
given (x ∷ xs) = true

abbrev of_labels : Dict String → LabelSelector
of_labels d = record { match_labels = d; match_expressions = [] }

abbrev pub of_result {ℓ} : {A : Type ℓ} → Result A → Parsed A
of_result (ok a) = parsed a
of_result (err e) = failed e

infixl 10 ◌>>=◌
unfoldable pub ◌>>=◌ {ℓ κ} : {A : Type ℓ} {B : Type κ} → Parsed A → (A → Parsed B) → Parsed B
parsed a >>= f = f a
failed e >>= f = failed e
panicked >>= f = panicked

-- The calls of the cluster and of other projects: `InitializeKubeClients`, `ServerGroups`, which may
-- give a list beside its error, and `LabelSelector.String`.
pub record Calls : Type 0 where
  pub initialize_kube_clients : String → Result (Unit {0})
  pub server_groups : Option (List ApiGroupVersion) × Option Error
  pub selector_text : LabelSelector → String

module _ (C : Calls) where
  -- The list of groups that `deDuplicateAndFixGVKs` works with.
  abbrev usable_groups :
      Option (List ApiGroupVersion) × Option Error → Result (Option (List ApiGroupVersion))
  usable_groups (groups, none) = ok groups
  usable_groups (groups, some e) = if is_discovery_failed e then ok groups else err e

  unfoldable pub de_duplicate_and_fix_gvks : List GroupVersionKind → Result (List GroupVersionKind)
  unfolding unique_gvks
  de_duplicate_and_fix_gvks gvks =
      elim (if needs_preferred_version gvks then usable_groups C.server_groups else ok none) [
        | err e ↦ err e
        | ok groups ↦ unique_gvks groups [] gvks
      ]

  abbrev selectors_of : Result (List (Dict String)) → Parsed (List LabelSelector)
  selectors_of (ok ds) = parsed (map of_labels ds)
  selectors_of (err e) = failed e

  unfoldable pub override_file_inputs_from_cli : Flags → Inputs → Parsed Inputs
  unfolding parse_gvk parse_label_selector de_duplicate_and_fix_gvks de_duplicate_label_selector
  override_file_inputs_from_cli f i =
      let clustered = not (given f.namespaces || given i.namespaces) in
      let kube_config =
        if f.changed "kubeconfig" || i.kube_config == "" then f.kube_config else i.kube_config in
      let log_level =
        if f.changed "log-level" || i.log_level == "" then f.log_level else i.log_level in
      let namespaces =
        if f.changed "namespaces" || not clustered then f.namespaces else i.namespaces in
      let clean_output = if f.changed "keep-source-folder" then f.keep_source else i.clean_output in
      of_result (C.initialize_kube_clients kube_config) >>= λ _.
      (if f.changed "gvks" then parse_gvk f.gvks else parsed i.gvks) >>= λ gvks.
      of_result (de_duplicate_and_fix_gvks gvks) >>= λ gvks.
      (if f.changed "labels"
        then selectors_of (parse_label_selector f.labels)
        else parsed i.label_selectors)
      >>= λ selectors. parsed (record {
        clean_output = clean_output;
        clustered = clustered;
        namespaces = namespaces;
        log_level = log_level;
        kube_config = kube_config;
        label_selectors = de_duplicate_label_selector C.selector_text selectors;
        gvks = gvks;
      })

-- The test of `preRun` that ends the program.
unfoldable pub is_contradictory : Inputs → Bool
is_contradictory i = given i.namespaces && i.clustered
