-- ===== src/Tests/Commands.antt =====
-- The theorems on the command lines, applied to small values.
use tvk_plugins.Base.{ℕ, false, not, ◌||◌, ◌≡◌, ◌≢◌, ◌↔◌, refl, none, some, [], ◌∷◌, map, All}
use tvk_plugins.Base.Dict.{Dict}
use tvk_plugins.Action.{Result, ok, err, failure, api, not_found}
use tvk_plugins.Collector.Labels.{GroupVersionKind}
use tvk_plugins.Cmd.Pairs.{parse_node_selector_labels}
use tvk_plugins.Cmd.Pairs.RoundTrip.{print_pairs, parse_node_selector_labels-print_pairs}
use tvk_plugins.Cmd.Gvks.{ApiGroupVersion, parsed, parse_gvk, unique_gvks}
use tvk_plugins.Cmd.Gvks.RoundTrip.{print_gvk, IsGvk, parse_gvk-print_gvk}
use tvk_plugins.Cmd.CollectInputs
use tvk_plugins.Cmd.CollectInputs.{given, is_contradictory, override_file_inputs_from_cli}
use tvk_plugins.Cmd.CollectInputs.Overridden.{override_file_inputs_from_cli-namespaces}
use tvk_plugins.Cmd.PreflightInputs
use tvk_plugins.Cmd.PreflightInputs.{
  Quantities, validate_run_options, validate_cleanup_fields, update_common_inputs_from_cli,
}
use tvk_plugins.Cmd.PreflightInputs.Validated.{
  validate_run_options-eq-ok, create_resource_name_suffix-validates,
}
use tvk_plugins.Preflight.Suffix.{create_resource_name_suffix}
use tvk_plugins.Tests.Sample.{plain, kube, kube-IsBounded, start}
use tvk_plugins.Tests.Collecting.{all_volumes, two_labels}

parse_node_selector_labels-print_pairs_example :
    parse_node_selector_labels (print_pairs "," two_labels) ≡ ok two_labels
parse_node_selector_labels-print_pairs_example =
    parse_node_selector_labels-print_pairs two_labels (cc) (search) (search)

parse_gvk-print_gvk_example :
    (parse_gvk ("/v1/PersistentVolume" ∷ []) ≡ parsed (all_volumes ∷ [])) ↔ (
      (("/v1/PersistentVolume" ∷ []) ≡ map print_gvk (all_volumes ∷ []))
      × All IsGvk (all_volumes ∷ []))
parse_gvk-print_gvk_example = parse_gvk-print_gvk ("/v1/PersistentVolume" ∷ []) (all_volumes ∷ [])

abbrev core_group : ApiGroupVersion
core_group = record { name = ""; preferred = "v1" }

abbrev no_version : GroupVersionKind
no_version = record { group = ""; version = ""; kind = "PersistentVolume" }

fixed :
    unique_gvks (some (core_group ∷ [])) [] (no_version ∷ no_version ∷ []) ≡ ok (all_volumes ∷ [])
unfolding unique_gvks tvk_plugins.Text.equal_fold
fixed = refl

abbrev pub collect_flags : CollectInputs.Flags
collect_flags = record {
  namespaces = [];
  kube_config = "config";
  keep_source = false;
  log_level = "info";
  gvks = [];
  labels = [];
  changed = λ flag. false;
}

abbrev pub collect_file : CollectInputs.Inputs
collect_file = record {
  clean_output = false;
  clustered = false;
  namespaces = "shop" ∷ [];
  log_level = "info";
  kube_config = "config";
  label_selectors = [];
  gvks = [];
}

abbrev collect_merged : CollectInputs.Inputs
collect_merged = record collect_file { namespaces = [] }

abbrev pub calls : CollectInputs.Calls
calls = record {
  initialize_kube_clients = λ path. ok tt;
  server_groups = (none, none);
  selector_text = λ s. "";
}

merged : override_file_inputs_from_cli calls collect_flags collect_file ≡ parsed collect_merged
unfolding override_file_inputs_from_cli CollectInputs.◌>>=◌
merged = refl

override_file_inputs_from_cli-namespaces_example :
    ([] ≡ collect_flags.namespaces)
    × (false ≡ not (given collect_flags.namespaces || given collect_file.namespaces))
    × (is_contradictory collect_merged ≡ false)
override_file_inputs_from_cli-namespaces_example =
    override_file_inputs_from_cli-namespaces calls collect_flags collect_file collect_merged merged

abbrev common : PreflightInputs.Common
common = record {
  namespace = "tvk";
  kubeconfig = "config";
  log_level = "info";
  in_cluster = false;
  scope = "cluster";
}

abbrev pub preflight_flags : PreflightInputs.Flags
preflight_flags = record {
  common = common;
  storage_class = "";
  snapshot_class = "";
  local_registry = "";
  image_pull_secret = "";
  service_account = "";
  cleanup_on_failure = false;
  pvc_storage_request = "";
  node_selector = "";
  pod_requests = "";
  pod_limits = "";
  cleanup_uid = "";
  changed = λ flag. false;
}

abbrev pub cleanup_inputs : PreflightInputs.CleanupInputs
cleanup_inputs = record { common = common; uid = "abcdef" }

drawn_suffix : (create_resource_name_suffix kube start).0 ≡ ok "zzzzzz"
unfolding create_resource_name_suffix tvk_plugins.Action.◌>>=◌ tvk_plugins.Kube.ask
drawn_suffix = refl

create_resource_name_suffix-validates_example :
    validate_cleanup_fields (record cleanup_inputs { uid = "zzzzzz" }) ≡ ok tt
create_resource_name_suffix-validates_example =
    create_resource_name_suffix-validates kube kube-IsBounded start "zzzzzz" cleanup_inputs
      drawn_suffix (cc)

abbrev pub numbers : Quantities plain
numbers = record {
  parse = λ s. ok 1;
  is_zero = λ q. false;
  exceeds = λ p q. false;
  exceeds_float = λ p q. false;
}

abbrev small : Dict ℕ
small = ("cpu", 1) ∷ ("memory", 1) ∷ []

abbrev pub run_inputs : PreflightInputs.RunInputs plain
run_inputs = record {
  common = common;
  storage_class = "csi";
  snapshot_class = "";
  local_registry = "";
  image_pull_secret = "";
  service_account_name = "";
  perform_cleanup_on_fail = false;
  pvc_storage_request = 1;
  resources = record { requests = small; limits = small };
  scheduling = record { node_selector = []; affinity = none; tolerations = [] };
}

validate_run_options-eq-ok_example : (validate_run_options numbers run_inputs ≡ ok tt) ↔ (
    (run_inputs.common.namespace ≢ "")
    × (run_inputs.storage_class ≢ "")
    × (run_inputs.image_pull_secret ≢ "" → run_inputs.local_registry ≢ "")
    × (false ≡ false)
    × (false ≡ false))
validate_run_options-eq-ok_example = validate_run_options-eq-ok numbers run_inputs
