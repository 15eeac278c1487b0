-- ===== src/Preflight/Run.antt =====
-- `PerformPreflightChecks` of tools/preflight/preflight.go: all checks, one after the other.
pub mod Simple
pub mod Classes
pub mod Requests
pub mod Probes
pub mod Restores
pub mod Safety
pub mod Judges
pub mod Expected
pub mod Report
pub mod Whole
pub mod Left
use tvk_plugins.Base.{
  String, Bool, true, false, ◌&&◌, ◌||◌, Option, none, some, ◌==◌, if◌then◌else◌,
}
use tvk_plugins.Action.{failure, ok, err, is_ok, Action, pure, raise, attempt, ◌>>=◌, ◌>>◌}
use tvk_plugins.Kube.{
  Externals, Cluster, World, Check, kubectl, access, helm, kubernetes_version, rbac, snapshot_crds,
  snapshot_class_found, pod_capability, storage_snapshot_class, dns, namespace_permissions,
  cluster_volume, namespace_volume, ask, verdict,
}
use tvk_plugins.Preflight.Options.{Run, storage_snapshot_group}
use tvk_plugins.Preflight.Cleanup.{cleanup_preflight_resources}
use tvk_plugins.Preflight.Checks.{
  min_k8s_version, validate_binary, validate_cluster_access, validate_namespace_permissions,
  validate_system_helm_version, validate_kubernetes_version, validate_kubernetes_rbac,
  preferred_version_for_group,
}
use tvk_plugins.Preflight.Suffix.{create_resource_name_suffix}
use tvk_plugins.Preflight.SnapshotClasses.{validate_storage_snapshot_class}
use tvk_plugins.Preflight.Crds.{check_and_create_crds}
use tvk_plugins.Preflight.Pods.{validate_required_pod_capabilities, validate_dns_resolution}
use tvk_plugins.Preflight.Volumes.{
  validate_cluster_scope_volume_snapshot, validate_namespace_scope_volume_snapshot,
}

module _ {X : Externals} (K : Cluster X) where
  -- A check with its verdict; the answer is whether it passed.
  module _ {A : Type 0} where
    unfoldable pub judged : Check → Action (World K) A → Action (World K) Bool
    judged c m = do r ← attempt m; verdict K c (is_ok r); pure (is_ok r)

    -- The same where the rest of the run uses the value.
    unfoldable pub judged_value : Check → Action (World K) A → Action (World K) (Option A)
    judged_value c m = do
      r ← attempt m
      verdict K c (is_ok r)
      pure (elim r [ ok a ↦ some a | err _ ↦ none ])

  -- The server's version, and then the CRDs for it.
  unfoldable pub check_snapshot_crds : Action (World K) (Unit {0})
  check_snapshot_crds = do v ← ask K K.server_version; check_and_create_crds K v.text

  -- The preferred version of the snapshot group, and then the class in that version.
  unfoldable pub check_storage_snapshot_class : String → Action (World K) (Unit {0})
  check_storage_snapshot_class provisioner = do
    version ← preferred_version_for_group K storage_snapshot_group
    validate_storage_snapshot_class K provisioner version

  -- Skipped without a provisioner; the answer is `storageSnapshotSuccess`.
  unfoldable pub snapshot_class_stage : Option String → Action (World K) Bool
  snapshot_class_stage none = pure false
  snapshot_class_stage (some provisioner) =
      judged storage_snapshot_class (check_storage_snapshot_class provisioner)

  module _ (o : Run X) where
    -- The checks of the local tools, which a run inside the cluster skips.
    unfoldable pub tool_stage : Check → Action (World K) (Unit {0}) → Action (World K) Bool
    tool_stage c m = if o.in_cluster then pure true else judged c m

    -- The checks up to the CRDs.
    unfoldable pub basic_stage : Action (World K) Bool
    unfolding judged tool_stage
    basic_stage = do
      a ← tool_stage kubectl (validate_binary K "kubectl")
      b ← judged access (validate_cluster_access K "default")
      c ← tool_stage helm (validate_system_helm_version K)
      d ← judged kubernetes_version (validate_kubernetes_version K min_k8s_version)
      e ← judged rbac (validate_kubernetes_rbac K "rbac.authorization.k8s.io" "v1")
      f ← judged snapshot_crds check_snapshot_crds
      pure (a && b && c && d && e && f)

    unfoldable pub scope_stage : String → Action (World K) Bool
    scope_stage suffix =
        if o.scope == "cluster"
        then judged cluster_volume (validate_cluster_scope_volume_snapshot K o suffix)
        else if o.scope == "namespace"
        then judged namespace_volume (validate_namespace_scope_volume_snapshot K o suffix)
        else pure true

    -- Skipped where the snapshot class check did not pass, which has failed the run already.
    unfoldable pub volume_stage : String → Bool → Action (World K) Bool
    unfolding scope_stage
    volume_stage suffix false = pure true
    volume_stage suffix true = do
      a ← judged namespace_permissions (validate_namespace_permissions K)
      b ← scope_stage suffix
      pure (a && b)

    -- The storage class, the pod capabilities, the snapshot class, DNS and the volumes.
    unfoldable pub storage_stage : String → Action (World K) Bool
    unfolding judged judged_value snapshot_class_stage volume_stage
    storage_stage suffix = do
      sc ← judged_value snapshot_class_found (ask K (K.get_provisioner o.storage_class))
      a ← judged pod_capability (validate_required_pod_capabilities K o suffix)
      storage ← snapshot_class_stage sc
      b ← judged dns (validate_dns_resolution K o suffix)
      c ← volume_stage suffix storage
      pure (a && storage && b && c)

    -- The cleanup of this run's resources; its failure is only logged.
    unfoldable pub cleanup_stage : String → Bool → Action (World K) (Unit {0})
    cleanup_stage suffix status =
        if status || o.perform_cleanup_on_fail
        then (do
          _ ←
              attempt
                (cleanup_preflight_resources K (record { uid = suffix; namespace = o.namespace }))
          pure tt)
        else pure tt

    unfoldable pub all_checks : String → Action (World K) Bool
    unfolding basic_stage storage_stage
    all_checks suffix = do a ← basic_stage; b ← storage_stage suffix; pure (a && b)

    unfoldable pub perform_preflight_checks : Action (World K) (Unit {0})
    unfolding all_checks cleanup_stage
    perform_preflight_checks = do
      suffix ← create_resource_name_suffix K
      status ← all_checks suffix
      cleanup_stage suffix status
      if status
          then pure tt
          else raise (failure "some preflight checks failed. Check logs for more details")
