-- ===== src/Preflight/Run/Simple.antt =====
-- The checks that only read keep every closed invariant.
use tvk_plugins.Base.{String}
use tvk_plugins.Action.Keeps.{Keeps, keeps_rules}
use tvk_plugins.Kube.{Externals, Cluster, World, Request}
use tvk_plugins.Kube.Closed.{IsClosed}
use tvk_plugins.Preflight.Checks.{
  validate_binary, validate_cluster_access, validate_namespace_permissions, require_permission,
  validate_system_helm_version, check_helm, helm_version, validate_kubernetes_version,
  validate_kubernetes_rbac, preferred_version_for_group,
}

module _ {X : Externals} {K : Cluster X} {Q : Request X → Type 0} {P : World K → Type 0}
    (closed : IsClosed Q P) where
  pub validate_binary-Keeps : (name : String) → Keeps P (validate_binary K name)
  unfolding validate_binary
  validate_binary-Keeps name = search (keeps_rules, closed.asks)

  pub validate_cluster_access-Keeps : (ns : String) → Keeps P (validate_cluster_access K ns)
  unfolding validate_cluster_access
  validate_cluster_access-Keeps ns = search (keeps_rules, closed.asks)

  require_permission-Keeps : (verb : String) → Keeps P (require_permission K verb)
  unfolding require_permission
  require_permission-Keeps verb = search (keeps_rules, closed.asks)

  pub validate_namespace_permissions-Keeps : Keeps P (validate_namespace_permissions K)
  unfolding validate_namespace_permissions
  validate_namespace_permissions-Keeps = search (keeps_rules, require_permission-Keeps)

  pub helm_version-Keeps : (binary : String) → Keeps P (helm_version K binary)
  unfolding helm_version
  helm_version-Keeps binary = search (keeps_rules, closed.asks)

  pub check_helm-Keeps : Keeps P (check_helm K)
  unfolding check_helm
  check_helm-Keeps = search (keeps_rules, validate_binary-Keeps, helm_version-Keeps)

  pub validate_system_helm_version-Keeps : Keeps P (validate_system_helm_version K)
  unfolding validate_system_helm_version
  validate_system_helm_version-Keeps = search (keeps_rules, closed.asks, check_helm-Keeps)

  pub validate_kubernetes_version-Keeps :
      (minimum : String) → Keeps P (validate_kubernetes_version K minimum)
  unfolding validate_kubernetes_version
  validate_kubernetes_version-Keeps minimum = search (keeps_rules, closed.asks)

  pub validate_kubernetes_rbac-Keeps :
      (group version : String) → Keeps P (validate_kubernetes_rbac K group version)
  unfolding validate_kubernetes_rbac
  validate_kubernetes_rbac-Keeps group version = search (keeps_rules, closed.asks)

  pub preferred_version_for_group-Keeps :
      (grp : String) → Keeps P (preferred_version_for_group K grp)
  unfolding preferred_version_for_group
  preferred_version_for_group-Keeps grp = search (keeps_rules, closed.asks)
