-- ===== src/Tests.antt =====
-- Runs of the model on a small cluster, and the theorems applied to it.
mod Sample
mod Checks
mod Trees
mod Collecting
mod Commands
mod Processes
mod Events
mod Shelf
mod Cleaning
use Prim.Native.String.{len}
use tvk_plugins.Base.{
  String, ◌<>◌, Bool, true, false, ◌≡◌, ◌≢◌, ◌↔◌, ◌⊎◌, refl, none, some, List, [], ◌∷◌, ◌++◌,
  length, ℕ, All, Any, map,
}
use tvk_plugins.Base.Dict.{lookup}
use tvk_plugins.Action.{Result, ok, err, failure}
use tvk_plugins.Program.{done, panicked}
use tvk_plugins.Utils.{generate_random_string, check_if_api_version_kind_available}
use tvk_plugins.Kube.{Externals, Request, SnapshotClass, World}
use tvk_plugins.Kube.Trace.{Extends}
use tvk_plugins.Preflight.Specs.{Capability, preflight_resource_labels, pod_spec_with_capability}
use tvk_plugins.Preflight.Cleanup.{Cleanup, selector, cleanup_preflight_resources}
use tvk_plugins.Preflight.Cleanup.Safety.{
  Selects, IsCleanupRequest, cleanup_preflight_resources-IsCleanupRequest,
}
use tvk_plugins.Preflight.Cleanup.Success.{IsCleanedUp, cleanup_preflight_resources-eq-ok}
use tvk_plugins.Preflight.Cleanup.Reach.{
  run_labels, preflight_resource_labels-Selects, run_labels-Selects,
  pod_spec_with_capability-not-Selects,
}
use tvk_plugins.Preflight.Suffix.{letters, letter_at, create_resource_name_suffix}
use tvk_plugins.Preflight.Suffix.Drawn.{IsLetters, create_resource_name_suffix-len}
use tvk_plugins.Preflight.SnapshotClasses.{choose_class}
use tvk_plugins.Preflight.SnapshotClasses.Chosen.{described, of_driver, choose_class-described}
use tvk_plugins.Preflight.Checks.{rbac_loop}
use tvk_plugins.Preflight.Checks.Groups.{IsEnough, rbac_loop-eq-ok}
use tvk_plugins.Preflight.Run.{all_checks, perform_preflight_checks}
use tvk_plugins.Preflight.Run.Requests.{IsRunRequest}
use tvk_plugins.Preflight.Run.Safety.{all_checks-IsRunRequest}
use tvk_plugins.Preflight.Run.Expected.{Verdicts, expected_report, all_passed}
use tvk_plugins.Preflight.Run.Whole.{
  IsWholeRequest, checked, outcome, cleaned, perform_preflight_checks-IsWholeRequest,
  perform_preflight_checks-ends, perform_preflight_checks-err,
}
use tvk_plugins.Preflight.Options.{
  storage_snapshot_group, volume_snapshot_kind, default_retry_backoff_params,
}
use tvk_plugins.Preflight.Wait.{wait_until_pod_condition, wait_until_snapshot_ready, exec_in_pod}
use tvk_plugins.Preflight.Wait.Reached.{
  Holds, wait_until_pod_condition-reached, wait_until_snapshot_ready-reached, exec_in_pod-eq-ok,
}
use tvk_plugins.Preflight.Crds.{volume_snapshot_crds, preferred_crd_version, check_and_create_crds}
use tvk_plugins.Preflight.Crds.Installed.{IsInstalled, check_and_create_crds-IsInstalled}
use tvk_plugins.Preflight.SnapshotClasses.{validate_storage_snapshot_class}
use tvk_plugins.Preflight.SnapshotClasses.Found.{IsFound}
use tvk_plugins.Preflight.SnapshotClasses.Matched.{IsOfDriver, validate_storage_snapshot_class-fits}
use tvk_plugins.Kube.{ExecOptions, Pod}
use tvk_plugins.Preflight.Options.{snapshot_source_prefix, backup_namespace_prefix}
use tvk_plugins.Preflight.Volumes.{
  validate_cluster_scope_volume_snapshot, validate_namespace_scope_volume_snapshot,
}
use tvk_plugins.Preflight.Volumes.Restored.{
  validate_cluster_scope_volume_snapshot-restores,
  validate_namespace_scope_volume_snapshot-restores,
}
use tvk_plugins.Preflight.Pods.{
  validation_cases, validate_dns_resolution, validate_required_pod_capabilities,
}
use tvk_plugins.Preflight.Pods.Resolved.{
  WasSeenReady, WasResolved, validate_dns_resolution-resolves,
  validate_required_pod_capabilities-WasSeenReady,
}
use tvk_plugins.Tests.Sample.{
  plain, kube, broken, kube-IsHonest, kube-IsNaming, kube-IsBounded, kube-IsBackoff, options, start,
  start_broken, classes,
}

abbrev cleanup : Cleanup
cleanup = record { uid = "abcdef"; namespace = "tvk" }

-- The cleanup of run "abcdef" deletes its pod and its backup namespace, and patches the pod.
cleanup_requests : length (cleanup_preflight_resources kube cleanup start).1.trace ≡ 3
unfolding cleanup_preflight_resources tvk_plugins.Action.◌>>=◌
    tvk_plugins.Preflight.Cleanup.cleanup_gvks tvk_plugins.Kube.ask
    tvk_plugins.Preflight.Cleanup.sweep selector tvk_plugins.Base.Dict.insert lookup
    preflight_resource_labels tvk_plugins.Preflight.Cleanup.delete_namespace
    tvk_plugins.Preflight.Cleanup.finish_cleanup tvk_plugins.Preflight.Cleanup.sweep_namespaces
    tvk_plugins.Preflight.Cleanup.delete_backup_namespaces
    tvk_plugins.Preflight.Cleanup.delete_if_backup tvk_plugins.Preflight.Delete.delete_k8s_resource
    tvk_plugins.Kube.send tvk_plugins.Preflight.Delete.remove_finalizer
    tvk_plugins.Preflight.Delete.drop_finalizers
cleanup_requests = refl

cleanup_succeeds : (cleanup_preflight_resources kube cleanup start).0 ≡ ok tt
unfolding cleanup_preflight_resources tvk_plugins.Action.◌>>=◌
    tvk_plugins.Preflight.Cleanup.cleanup_gvks tvk_plugins.Kube.ask
    tvk_plugins.Preflight.Cleanup.sweep selector tvk_plugins.Base.Dict.insert lookup
    preflight_resource_labels tvk_plugins.Preflight.Cleanup.delete_namespace
    tvk_plugins.Preflight.Cleanup.finish_cleanup tvk_plugins.Preflight.Cleanup.sweep_namespaces
    tvk_plugins.Preflight.Cleanup.delete_backup_namespaces
    tvk_plugins.Preflight.Cleanup.delete_if_backup tvk_plugins.Preflight.Delete.delete_k8s_resource
    tvk_plugins.Kube.send tvk_plugins.Preflight.Delete.remove_finalizer
    tvk_plugins.Preflight.Delete.drop_finalizers
cleanup_succeeds = refl

suffix_drawn : (create_resource_name_suffix kube start).0 ≡ ok "zzzzzz"
unfolding create_resource_name_suffix tvk_plugins.Action.◌>>=◌ tvk_plugins.Kube.ask
suffix_drawn = refl

no_suffix : (create_resource_name_suffix broken start_broken).0 ≡ err (failure "no entropy")
unfolding create_resource_name_suffix tvk_plugins.Action.◌>>=◌ tvk_plugins.Kube.ask
no_suffix = refl

cleanup_preflight_resources-IsCleanupRequest_example :
    Extends
      (IsCleanupRequest cleanup)
      start.trace
      (cleanup_preflight_resources kube cleanup start).1
cleanup_preflight_resources-IsCleanupRequest_example =
    cleanup_preflight_resources-IsCleanupRequest kube kube-IsHonest cleanup start

cleanup_preflight_resources-eq-ok_example :
    ((cleanup_preflight_resources kube cleanup start).0 ≡ ok tt) ↔ IsCleanedUp kube cleanup start
cleanup_preflight_resources-eq-ok_example = cleanup_preflight_resources-eq-ok kube cleanup start

run_labels-Selects_example :
    All
      (λ labels.
        Selects (selector cleanup) labels ↔ ((cleanup.uid ≡ "") ⊎ (cleanup.uid ≡ "abcdef")))
      (run_labels options "abcdef" "pod" (record { namespace = "tvk"; name = "claim" }))
run_labels-Selects_example =
    run_labels-Selects options "abcdef" "pod" (record { namespace = "tvk"; name = "claim" }) cleanup

abbrev capability : Capability
capability = record { user_id = 0; allow_privilege_escalation = true; privileged = true }

abbrev Nonempty : String → Type 0
Nonempty s = s ≢ ""

abcdef-Nonempty : Nonempty "abcdef"
abcdef-Nonempty h = cc h

pod_spec_with_capability-not-Selects_example :
    ¬ Selects
      (selector cleanup)
      (pod_spec_with_capability options ("0" <> "-" <> "abcdef") capability).metadata.labels
pod_spec_with_capability-not-Selects_example =
    pod_spec_with_capability-not-Selects options "abcdef" "0" capability "tvk" abcdef-Nonempty

create_resource_name_suffix-len_example :
    IsLetters kube kube-IsBounded 6 "zzzzzz" × (len "zzzzzz" ≡ 6)
create_resource_name_suffix-len_example =
    create_resource_name_suffix-len kube kube-IsBounded start "zzzzzz" suffix_drawn

choose_class-described_example :
    choose_class "csi.example.com" "" classes ≡ described "" (of_driver "csi.example.com" classes)
choose_class-described_example = choose_class-described "csi.example.com" "" classes

perform_preflight_checks-IsWholeRequest_example :
    (suffix : String) × Extends
      (IsWholeRequest kube options suffix)
      start.trace
      (perform_preflight_checks kube options start).1
perform_preflight_checks-IsWholeRequest_example =
    perform_preflight_checks-IsWholeRequest kube options kube-IsNaming kube-IsHonest start

perform_preflight_checks-ends_example :
    (v : Verdicts) × ((checked kube options "zzzzzz" start).report
      ≡ [] ++ expected_report options v)
    × (perform_preflight_checks kube options start ≡ (
      outcome kube options (all_passed (expected_report options v)),
      cleaned kube options "zzzzzz"
          (all_passed (expected_report options v))
          (checked kube options "zzzzzz" start),
    ))
perform_preflight_checks-ends_example =
    perform_preflight_checks-ends kube options start "zzzzzz" suffix_drawn

-- A random string of letters only, one from a machine without random numbers, and a kind that is
-- asked for where its group version is not served.
random_texts :
    ((generate_random_string kube.rand_int 3 true 0).0 ≡ done "zzz")
    × ((generate_random_string broken.rand_int 3 false 0).0 ≡ panicked)
    × ((check_if_api_version_kind_available kube.server_resources
          (λ g. g.version)
          (record { group = ""; version = "v1"; kind = "Pod" })
          0).0
        ≡ false)
unfolding generate_random_string tvk_plugins.Program.◌>>=◌ check_if_api_version_kind_available
random_texts = (refl, refl, refl)
