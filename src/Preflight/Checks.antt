-- ===== src/Preflight/Checks.antt =====
-- The checks of tools/preflight/preflight.go that create nothing: binaries, access, versions, RBAC.
pub mod Groups
use tvk_plugins.Base.{
  String, ◌<>◌, Bool, true, not, ◌&&◌, Option, none, some, List, [], ◌∷◌, ◌==◌, if◌then◌else◌,
}
use tvk_plugins.Action.{
  Error, failure, message, is_not_found, is_forbidden, is_unauthorized, is_discovery_failed, Result,
  ok, err, Action, pure, raise, lift, attempt, ◌>>=◌, ◌>>◌,
}
use tvk_plugins.Kube.{Externals, Gvk, ApiGroup, Cluster, World, ask}
use tvk_plugins.Preflight.Cleanup.{or_error}
use tvk_plugins.Preflight.HelmVersion.{extract_version_from_string}

abbrev pub min_helm_version : String
min_helm_version = "3.0.0"

abbrev pub min_k8s_version : String
min_k8s_version = "1.29"

-- The error that `validateClusterAccess` makes of a failed get.
unfoldable pub access_error : String → Error → Error
access_error ns e =
    if is_not_found e
    then failure ("namespace '" <> ns <> "' not found :: " <> message e)
    else if is_forbidden e
    then failure ("forbidden: unable to access namespace '" <> ns <> "' :: " <> message e)
    else if is_unauthorized e
    then failure ("unauthorized: unable to access namespace '" <> ns <> "' :: " <> message e)
    else failure ("unable to access default namespace of cluster :: " <> message e)

unfoldable pub map_error {ℓ} : {A : Type ℓ} → (Error → Error) → Result A → Result A
map_error f (ok a) = ok a
map_error f (err e) = err (f e)

-- `CheckIsOpenshift` of internal/utils.go: only "not found" says no.
unfoldable pub is_openshift : Result (List String) → Bool
is_openshift (ok _) = true
is_openshift (err e) = not (is_not_found e)

abbrev namespaces_gvr : Gvk
namespaces_gvr = record { group = ""; version = "v1"; kind = "namespaces" }

-- The loop of `validateKubernetesRBAC`. A version that does not parse ends the check without an
-- error.
unfoldable pub rbac_loop :
    (String → Result (String × String)) → String → String → List String → Result (Unit {0})
rbac_loop parse group version [] = err (failure "not enabled kubernetes RBAC")
rbac_loop parse group version (v ∷ vs) =
    let rest = rbac_loop parse group version vs in
    elim (parse v) [
      | err _ ↦ ok tt
      | ok (g, w) ↦ if g == group && w == version then ok tt else rest
    ]

-- The groups and the error as `validateKubernetesRBAC` takes them.
abbrev groups_despite : List ApiGroup × Option Error → Result (List ApiGroup)
groups_despite (gs, none) = ok gs
groups_despite (gs, some e) = if is_discovery_failed e then ok gs else err e

-- The loop of `GetServerPreferredVersionForGroup`: the first group of the name.
unfoldable pub preferred_version : String → List ApiGroup → String
preferred_version grp [] = ""
preferred_version grp (g ∷ gs) =
    if g.name == grp then g.preferred.version else preferred_version grp gs

module _ (X : Externals) where
  -- `v2.LessThan(v1)` after both texts are parsed, the minimum first.
  unfoldable pub is_below : String → String → Result Bool
  is_below minimum current = elim (X.new_version minimum) [
    | err e ↦ err e
    | ok v1 ↦ elim (X.new_version current) [ err e ↦ err e | ok v2 ↦ ok (X.less_than v2 v1) ]
  ]

  unfoldable pub validate_helm_version : String → Result (Unit {0})
  unfolding is_below
  validate_helm_version current = elim (is_below min_helm_version current) [
    | err e ↦ err e
    | ok below ↦
        if below
        then err (
            failure (
              "helm does not meet minimum version requirement.\nUpgrade helm to minimum version - "
              <> min_helm_version))
        else ok tt
  ]

  -- The warning of `validateKubernetesVersion`, empty where there is none.
  unfoldable pub version_warning : String → String → Result String
  unfolding is_below
  version_warning minimum current = elim (is_below minimum current) [
    | err e ↦ err e
    | ok below ↦ ok (
        if below
        then "Kubernetes server version " <> current <> " is below the recommended minimum version "
          <> minimum <> ". Please consider upgrading your cluster for optimal compatibility."
        else "")
  ]

module _ {X : Externals} (K : Cluster X) where
  -- `validateKubectl` and `validateHelmBinary`
  unfoldable pub validate_binary : String → Action (World K) (Unit {0})
  unfolding map_error
  validate_binary name = do
    r ← attempt (ask K (K.look_path name))
    _ ← lift (
        map_error
          (λ e.
            failure
              ("error finding '" <> name <> "' binary in $PATH of the system :: " <> message e))
          r)
    pure tt

  unfoldable pub validate_cluster_access : String → Action (World K) (Unit {0})
  unfolding access_error map_error
  validate_cluster_access ns = do
    r ← attempt (ask K (K.get_namespace ns))
    _ ← lift (map_error (access_error ns) r)
    pure tt

  -- One half of `validateNamespacePermissions`; the verb is that of the messages.
  unfoldable pub require_permission : String → Action (World K) (Unit {0})
  unfolding map_error
  require_permission verb = do
    r ← attempt (ask K (K.review_access "" verb namespaces_gvr))
    (allowed, reason) ←
        lift
          (map_error (λ e. failure (verb <> " namespace permission check failed: " <> message e)) r)
    if allowed then pure tt else raise (failure (verb <> " namespace not allowed: " <> reason))

  unfoldable pub validate_namespace_permissions : Action (World K) (Unit {0})
  unfolding require_permission
  validate_namespace_permissions = do require_permission "create"; require_permission "delete"

  -- `GetHelmVersion`; `shell.RunCmd` splits the command at blanks and runs it.
  unfoldable pub helm_version : String → Action (World K) String
  helm_version binary = do
    out ← ask K (K.run_command binary ("version" ∷ "--template" ∷ "'{{.Version}}'" ∷ []))
    lift (extract_version_from_string out.out)

  unfoldable pub check_helm : Action (World K) (Unit {0})
  unfolding helm_version validate_helm_version
  check_helm = do
    validate_binary "helm"
    current ← helm_version "helm"
    lift (validate_helm_version X current)

  unfoldable pub validate_system_helm_version : Action (World K) (Unit {0})
  unfolding is_openshift check_helm
  validate_system_helm_version = do
    r ← attempt (ask K (K.server_resources "security.openshift.io/v1"))
    if is_openshift r then pure tt else check_helm

  unfoldable pub validate_kubernetes_version : String → Action (World K) String
  unfolding version_warning
  validate_kubernetes_version minimum = do
    v ← ask K K.server_version
    lift (version_warning X minimum v.git_version)

  unfoldable pub validate_kubernetes_rbac : String → String → Action (World K) (Unit {0})
  unfolding rbac_loop
  validate_kubernetes_rbac group version = do
    groups ← ask K (λ s. let (r, s') = K.server_groups s in (groups_despite r, s'))
    lift (rbac_loop X.parse_group_version group version (X.extract_group_versions groups))

  unfoldable pub preferred_version_for_group : String → Action (World K) String
  unfolding preferred_version
  preferred_version_for_group grp = do
    groups ← ask K (λ s. let (r, s') = K.server_groups s in (or_error r, s'))
    let version = preferred_version grp groups
    if version == ""
        then raise (failure ("no preferred version for group - " <> grp <> " found on cluster"))
        else pure version
