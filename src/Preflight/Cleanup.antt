-- ===== src/Preflight/Cleanup.antt =====
-- tools/preflight/cleanup.go: deletes what earlier runs have created, or what one run has.
pub mod Safety
pub mod Success
pub mod Store
pub mod Gone
pub mod Reach
use tvk_plugins.Base.{
  String, Bool, true, false, ◌&&◌, Option, none, some, List, [], ◌∷◌, ◌++◌, map, ◌==◌, starts_with,
  if◌then◌else◌,
}
use tvk_plugins.Base.Dict.{insert}
use tvk_plugins.Action.{
  Error, failure, is_not_found, Result, ok, err, Action, pure, raise, attempt, ◌>>=◌,
}
use tvk_plugins.Kube.{Externals, Labels, Gvk, ApiGroup, ApiVersion, Target, Cluster, World, ask}
use tvk_plugins.Preflight.Options.{
  storage_snapshot_group, label_trilio_key, label_tvk_preflight_value, label_preflight_run_key,
  backup_namespace_prefix, volume_snapshot_kind,
}
use tvk_plugins.Preflight.Delete.{delete_k8s_resource}

-- `Cleanup`; the other common options are only logged.
pub record Cleanup : Type 0 where
  pub uid : String
  pub namespace : String

-- The loop of `getVersionsOfGroup`: every group of the name adds its versions.
unfoldable pub versions_in : String → List ApiGroup → List String
versions_in grp [] = []
versions_in grp (g ∷ gs) =
    let rest = versions_in grp gs in
    if g.name == grp then map (λ (v : ApiVersion). v.version) g.versions ++ rest else rest

-- `resLabels`
unfoldable pub selector : Cleanup → Labels
selector c =
    let base : Labels = (label_trilio_key, label_tvk_preflight_value) ∷ [] in
    if c.uid == "" then base else insert label_preflight_run_key c.uid base

-- `deleteNs`
unfoldable pub delete_namespace : Cleanup → String
delete_namespace c = if c.namespace == "" then "default" else c.namespace

abbrev core_gvk : String → Gvk
core_gvk kind = record { group = ""; version = "v1"; kind = kind }

unfoldable pub gvks_of_versions : List String → List Gvk
gvks_of_versions versions =
    map
      (λ (v : String). record {
        group = storage_snapshot_group;
        version = v;
        kind = volume_snapshot_kind;
      })
      versions
    ++ (core_gvk "PersistentVolumeClaim" ∷ core_gvk "Pod" ∷ [])

-- The result of `ServerGroups` as Go reads it: an error, or the list.
abbrev pub or_error {ℓ} : {A : Type ℓ} → A × Option Error → Result A
or_error (a, none) = ok a
or_error (a, some e) = err e

-- A delete went well for the loop when it succeeded or found nothing to delete.
abbrev pub is_gone : Result (Unit {0}) → Bool
is_gone (ok _) = true
is_gone (err e) = is_not_found e

module _ {X : Externals} (K : Cluster X) where
  unfoldable pub versions_of_group : String → Action (World K) (List String)
  unfolding versions_in
  versions_of_group grp = do
    groups ← ask K (λ s. let (r, s') = K.server_groups s in (or_error r, s'))
    pure (versions_in grp groups)

  unfoldable pub cleanup_gvks : Action (World K) (List Gvk)
  unfolding versions_of_group gvks_of_versions
  cleanup_gvks = do
    versions ← versions_of_group storage_snapshot_group
    pure (gvks_of_versions versions)

  -- The items of one list, with `allSuccess` so far.
  unfoldable pub delete_all : List Target → Bool → Action (World K) Bool
  delete_all [] good = pure good
  delete_all (t ∷ ts) good = do
    r ← attempt (delete_k8s_resource K t)
    delete_all ts (good && is_gone r)

  unfoldable pub delete_listed : Result (List Target) → Bool → Action (World K) Bool
  delete_listed (err e) good = pure false
  delete_listed (ok ts) good = delete_all ts good

  -- The loop over the kinds; a kind that cannot be listed is skipped.
  unfoldable pub sweep : Labels → String → List Gvk → Bool → Action (World K) Bool
  unfolding delete_listed delete_all
  sweep labels ns [] good = pure good
  sweep labels ns (g ∷ gs) good = do
    r ← attempt (ask K (K.list_targets g labels ns))
    good' ← delete_listed r good
    sweep labels ns gs good'

  -- The loop over the labelled namespaces: only backup namespaces are deleted.
  unfoldable pub delete_if_backup : Target → Bool → Action (World K) Bool
  delete_if_backup t good =
      if starts_with t.metadata.name backup_namespace_prefix
      then delete_all (t ∷ []) good
      else pure good

  unfoldable pub delete_backup_namespaces : List Target → Bool → Action (World K) Bool
  delete_backup_namespaces [] good = pure good
  delete_backup_namespaces (t ∷ ts) good = do
    good' ← delete_if_backup t good
    delete_backup_namespaces ts good'

  unfoldable pub sweep_namespaces : Result (List Target) → Bool → Action (World K) Bool
  sweep_namespaces (err e) good = pure false
  sweep_namespaces (ok ts) good = delete_backup_namespaces ts good

  -- From the list of the labelled namespaces to the end.
  unfoldable pub finish_cleanup : Cleanup → Bool → Action (World K) (Unit {0})
  finish_cleanup c good = do
    listed ← attempt (ask K (K.list_namespaces (selector c)))
    good' ← sweep_namespaces listed good
    if good'
        then pure tt
        else raise (failure "deletion of some resources failed in cleanup process")

  unfoldable pub cleanup_preflight_resources : Cleanup → Action (World K) (Unit {0})
  cleanup_preflight_resources c = do
    gvks ← cleanup_gvks
    good ← sweep (selector c) (delete_namespace c) gvks true
    finish_cleanup c good
