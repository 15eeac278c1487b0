-- ===== src/Preflight/Options.antt =====
-- The options of a run and the constants of tools/preflight/helper.go. The snapshot class is not
-- here: a run changes it, so it is a field of the world.
use tvk_plugins.Base.{String, Bool, Option, List, [], ◌∷◌}
use tvk_plugins.Kube.{Externals, Labels, Resources, Backoff}

-- `podSchedulingOptions`
pub record Scheduling (X : Externals) : Type 0 where
  pub node_selector : Labels
  pub affinity : Option X.Affinity
  pub tolerations : List X.Toleration

-- `Run`: `RunOptions` and `CommonOptions`
pub record Run (X : Externals) : Type 0 where
  pub storage_class : String
  pub local_registry : String
  pub image_pull_secret : String
  pub service_account_name : String
  pub perform_cleanup_on_fail : Bool
  pub pvc_storage_request : X.Quantity
  pub resources : Resources X
  pub scheduling : Scheduling X
  pub namespace : String
  pub kubeconfig : String
  pub log_level : String
  pub in_cluster : Bool
  pub scope : String

abbrev pub storage_snapshot_group : String
storage_snapshot_group = "snapshot.storage.k8s.io"

abbrev pub label_k8s_part_of : String
label_k8s_part_of = "app.kubernetes.io/part-of"

abbrev pub label_k8s_name : String
label_k8s_name = "app.kubernetes.io/name"

abbrev pub label_trilio_key : String
label_trilio_key = "trilio"

abbrev pub label_tvk_preflight_value : String
label_tvk_preflight_value = "tvk-preflight"

abbrev pub label_preflight_run_key : String
label_preflight_run_key = "preflight-run"

abbrev pub backup_namespace_prefix : String
backup_namespace_prefix = "preflight-backup-ns-"

abbrev pub source_pvc_name_prefix : String
source_pvc_name_prefix = "source-pvc-"

abbrev pub backup_pvc_name_prefix : String
backup_pvc_name_prefix = "backup-pvc-"

abbrev pub snapshot_source_prefix : String
snapshot_source_prefix = "snapshot-source-pvc-"

abbrev pub snapshot_backup_prefix : String
snapshot_backup_prefix = "snapshot-backup-pvc-"

abbrev pub source_pod_name_prefix : String
source_pod_name_prefix = "source-pod-"

abbrev pub dns_utils : String
dns_utils = "dnsutils-"

abbrev pub pod_capability_prefix : String
pod_capability_prefix = "pod-capability-"

abbrev pub default_vsc_name_prefix : String
default_vsc_name_prefix = "preflight-generated-snapshot-class-"

abbrev pub volume_snapshot_kind : String
volume_snapshot_kind = "VolumeSnapshot"

abbrev pub command_sleep : List String
command_sleep = "sleep" ∷ "3600" ∷ []

abbrev pub command_bin_sh : List String
command_bin_sh = "bin/sh" ∷ "-c" ∷ []

abbrev pub data_file_path : String
data_file_path = "/demo/data/sample-file.txt"

abbrev pub data_file_text : String
data_file_text = "pod preflight data"

-- `fmt.Sprintf("echo '%s' > %s && sync %s && sleep 3000", …)`
abbrev pub touch_data_file : List String
touch_data_file =
    "echo 'pod preflight data' > /demo/data/sample-file.txt && sync /demo/data/sample-file.txt && sleep 3000"
    ∷ []

abbrev pub data_check_command : List String
data_check_command =
    "/bin/sh" ∷ "-c"
    ∷ "dat=$(cat \"/demo/data/sample-file.txt\"); echo \"${dat}\"; if [[ \"${dat}\" == \"pod preflight data\" ]]; then exit 0; else exit 1; fi"
    ∷ []

-- `getDefaultRetryBackoffParams`: 120 steps of 5 seconds, factor 1.0, jitter 0.1
unfoldable pub default_retry_backoff_params : Backoff
default_retry_backoff_params = record { steps = 120; duration = 5; factor = 10; jitter = 1 }
