-- ===== src/Tests/Checks.antt =====
-- The theorems on the checks of a run, applied to the small cluster.
use tvk_plugins.Base.{
  String, ◌<>◌, true, false, ◌≡◌, ◌≢◌, ◌↔◌, ◌⊎◌, refl, none, some, [], ◌∷◌, ℕ, All,
}
use tvk_plugins.Action.{Result, ok, err, failure}
use tvk_plugins.Kube.{Externals, Request, SnapshotClass, World}
use tvk_plugins.Preflight.Specs.{Capability, preflight_resource_labels, pod_spec_with_capability}
use tvk_plugins.Preflight.Suffix.{create_resource_name_suffix}
use tvk_plugins.Preflight.SnapshotClasses.{choose_class}
use tvk_plugins.Preflight.Checks.{rbac_loop}
use tvk_plugins.Preflight.Options.{
  storage_snapshot_group, volume_snapshot_kind, default_retry_backoff_params,
}
use tvk_plugins.Preflight.Wait.{wait_until_pod_condition, wait_until_snapshot_ready, exec_in_pod}
use tvk_plugins.Preflight.Wait.Reached.{
  Holds, wait_until_pod_condition-reached, wait_until_snapshot_ready-reached, exec_in_pod-eq-ok,
}
use tvk_plugins.Preflight.Crds.{volume_snapshot_crds, preferred_crd_version, check_and_create_crds}
use tvk_plugins.Preflight.Crds.Installed.{IsInstalled, check_and_create_crds-IsInstalled}
use tvk_plugins.Preflight.SnapshotClasses.{validate_storage_snapshot_class}
use tvk_plugins.Preflight.SnapshotClasses.Found.{IsFound}
use tvk_plugins.Preflight.SnapshotClasses.Matched.{IsOfDriver, validate_storage_snapshot_class-fits}
use tvk_plugins.Kube.{ExecOptions, Pod, Pvc}
use tvk_plugins.Preflight.Options.{
  snapshot_source_prefix, snapshot_backup_prefix, backup_namespace_prefix,
}
use tvk_plugins.Preflight.Volumes.{
  validate_cluster_scope_volume_snapshot, validate_namespace_scope_volume_snapshot,
}
use tvk_plugins.Preflight.Volumes.Seen.{WasSaved, WasCloned, WasRestored, WasRead}
use tvk_plugins.Preflight.Volumes.Restored.{
  validate_cluster_scope_volume_snapshot-restores,
  validate_namespace_scope_volume_snapshot-restores,
}
use tvk_plugins.Preflight.Pods.{
  validation_cases, validate_dns_resolution, validate_required_pod_capabilities,
}
use tvk_plugins.Preflight.Pods.Resolved.{
  WasSeenReady, WasResolved, validate_dns_resolution-resolves,
  validate_required_pod_capabilities-WasSeenReady,
}
use tvk_plugins.Tests.Sample.{plain, kube, kube-IsBackoff, options, start}

pod_waited : (wait_until_pod_condition kube "tvk" "dnsutils-abcdef" "Ready" start).0 ≡ ok tt
unfolding wait_until_pod_condition tvk_plugins.Action.◌>>=◌ tvk_plugins.Kube.ask
pod_waited = refl

wait_until_pod_condition-reached_example :
    (s : ℕ) × ((p : Pod plain) × ((kube.get_pod "tvk" "dnsutils-abcdef" s).0 ≡ ok p)
      × Holds "Ready" p.conditions)
wait_until_pod_condition-reached_example =
    wait_until_pod_condition-reached kube kube-IsBackoff "tvk" "dnsutils-abcdef" "Ready" start
      pod_waited

snapshot_waited :
    (wait_until_snapshot_ready kube "tvk" "snapshot" "v1" default_retry_backoff_params start).0
    ≡ ok tt
unfolding wait_until_snapshot_ready tvk_plugins.Action.◌>>=◌ tvk_plugins.Kube.ask
snapshot_waited = refl

wait_until_snapshot_ready-reached_example :
    (s : ℕ) × ((kube.get_ready
        (record { group = storage_snapshot_group; version = "v1"; kind = volume_snapshot_kind })
        "tvk"
        "snapshot"
        s).0
      ≡ ok (ok (some true)))
wait_until_snapshot_ready-reached_example =
    wait_until_snapshot_ready-reached kube kube-IsBackoff "tvk" "snapshot" "v1"
      default_retry_backoff_params start snapshot_waited

abbrev command : ExecOptions
command = record {
  namespace = "tvk";
  command = "nslookup" ∷ [];
  pod_name = "dnsutils-abcdef";
  container_name = "dnsutils";
}

exec_in_pod-eq-ok_example : ((exec_in_pod kube command start).0 ≡ ok tt) ↔ (
    (kube.timed_out start.cluster ≡ false)
    × (command.pod_name ≢ "")
    × (command.container_name ≢ "")
    × ((kube.stream command start.cluster).0.error ≡ none))
exec_in_pod-eq-ok_example = exec_in_pod-eq-ok kube command start

crds_checked : (check_and_create_crds kube "v1.31.0" start).0 ≡ ok tt
unfolding check_and_create_crds tvk_plugins.Action.◌>>=◌ tvk_plugins.Kube.ask
crds_checked = refl

check_and_create_crds-IsInstalled_example :
    (version : String) × (preferred_crd_version plain "v1.31.0" ≡ ok version)
    × All (IsInstalled kube version) volume_snapshot_crds
check_and_create_crds-IsInstalled_example =
    check_and_create_crds-IsInstalled kube "v1.31.0" start crds_checked

class_checked : (validate_storage_snapshot_class kube "csi.example.com" "v1" start).0 ≡ ok tt
unfolding validate_storage_snapshot_class tvk_plugins.Action.◌>>=◌
    tvk_plugins.Preflight.SnapshotClasses.check_and_create_snapshot_class tvk_plugins.Kube.ask
    tvk_plugins.Preflight.Checks.map_error create_resource_name_suffix tvk_plugins.Kube.send
class_checked = refl

abbrev class_in_use : String
class_in_use = (validate_storage_snapshot_class kube "csi.example.com" "v1" start).1.vol_snap_class

validate_storage_snapshot_class-fits_example :
    ((start.snapshot_class ≢ "")
      × (class_in_use ≡ start.snapshot_class)
      × IsOfDriver kube "csi.example.com" class_in_use)
    ⊎ ((start.snapshot_class ≡ "") × IsFound kube "csi.example.com" "v1" class_in_use)
validate_storage_snapshot_class-fits_example =
    validate_storage_snapshot_class-fits kube "csi.example.com" "v1" start class_checked

cluster_checked : (validate_cluster_scope_volume_snapshot kube options "zzzzzz" start).0 ≡ ok tt
unfolding validate_cluster_scope_volume_snapshot tvk_plugins.Action.◌>>=◌ tvk_plugins.Kube.ask
    tvk_plugins.Kube.send tvk_plugins.Preflight.Checks.preferred_version_for_group
    tvk_plugins.Preflight.Pods.create_pod wait_until_pod_condition wait_until_snapshot_ready
    exec_in_pod tvk_plugins.Preflight.Specs.pvc_data_reader_pod_spec
    tvk_plugins.Preflight.Volumes.first_container
cluster_checked = refl

namespace_checked : (validate_namespace_scope_volume_snapshot kube options "zzzzzz" start).0 ≡ ok tt
unfolding validate_namespace_scope_volume_snapshot tvk_plugins.Action.◌>>=◌ tvk_plugins.Kube.ask
    tvk_plugins.Kube.send tvk_plugins.Preflight.Checks.preferred_version_for_group
    tvk_plugins.Preflight.Pods.create_pod wait_until_pod_condition wait_until_snapshot_ready
    exec_in_pod tvk_plugins.Preflight.Specs.pvc_data_reader_pod_spec
    tvk_plugins.Preflight.Volumes.first_container
namespace_checked = refl

validate_cluster_scope_volume_snapshot-restores_example :
    (pvc : Pvc plain) × WasSaved kube options "zzzzzz" (backup_namespace_prefix <> "zzzzzz") pvc
    × WasCloned kube
        (record {
          namespace = backup_namespace_prefix <> "zzzzzz";
          name = snapshot_source_prefix <> "zzzzzz";
        })
        "tvk"
        (snapshot_backup_prefix <> "zzzzzz")
    × WasRestored kube options "zzzzzz" (snapshot_backup_prefix <> "zzzzzz") pvc
    × WasRead kube options "zzzzzz"
validate_cluster_scope_volume_snapshot-restores_example =
    validate_cluster_scope_volume_snapshot-restores kube options "zzzzzz" kube-IsBackoff start
      cluster_checked

validate_namespace_scope_volume_snapshot-restores_example :
    (pvc : Pvc plain) × WasSaved kube options "zzzzzz" "tvk" pvc
    × WasRestored kube options "zzzzzz" (snapshot_source_prefix <> "zzzzzz") pvc
    × WasRead kube options "zzzzzz"
validate_namespace_scope_volume_snapshot-restores_example =
    validate_namespace_scope_volume_snapshot-restores kube options "zzzzzz" kube-IsBackoff start
      namespace_checked

dns_checked : (validate_dns_resolution kube options "zzzzzz" start).0 ≡ ok tt
unfolding validate_dns_resolution tvk_plugins.Action.◌>>=◌ tvk_plugins.Kube.ask
    tvk_plugins.Kube.send wait_until_pod_condition exec_in_pod
    tvk_plugins.Preflight.Specs.dns_pod_spec
dns_checked = refl

capabilities_checked : (validate_required_pod_capabilities kube options "zzzzzz" start).0 ≡ ok tt
unfolding validate_required_pod_capabilities tvk_plugins.Action.◌>>=◌ tvk_plugins.Kube.ask
    tvk_plugins.Kube.send wait_until_pod_condition
capabilities_checked = refl

validate_dns_resolution-resolves_example :
    WasSeenReady kube options "zzzzzz" "dnsutils-zzzzzz" × WasResolved kube options "zzzzzz"
validate_dns_resolution-resolves_example =
    validate_dns_resolution-resolves kube options "zzzzzz" kube-IsBackoff start dns_checked

validate_required_pod_capabilities-WasSeenReady_example :
    All
      (λ c. WasSeenReady kube options "zzzzzz" ("pod-capability-" <> (c.0 <> "-" <> "zzzzzz")))
      validation_cases
validate_required_pod_capabilities-WasSeenReady_example =
    validate_required_pod_capabilities-WasSeenReady kube options "zzzzzz" kube-IsBackoff start
      capabilities_checked
