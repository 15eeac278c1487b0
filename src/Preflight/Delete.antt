-- ===== src/Preflight/Delete.antt =====
-- `deleteK8sResource`, `removeFinalizer` and `GetObjGVKFromStructuredType` of
-- tools/preflight/helper.go.
use tvk_plugins.Base.{ℕ, String, Bool, Option, none, some, List, ◌&&◌, ◌==◌, if◌then◌else◌}
use tvk_plugins.Action.{Action, pure, ◌>>=◌, ◌>>◌}
use tvk_plugins.Kube.{
  Externals, Gvk, Target, GoType, go_pod, go_pvc, go_other, Cluster, World, deleted, patched, ask,
  send,
}

abbrev pub deletion_grace_period : ℕ
deletion_grace_period = 5

unfoldable pub gvk_of_structured_type : GoType → Gvk
gvk_of_structured_type go_pod = record { group = ""; version = "v1"; kind = "Pod" }
gvk_of_structured_type go_pvc = record {
  group = "";
  version = "v1";
  kind = "PersistentVolumeClaim";
}
gvk_of_structured_type go_other = record { group = ""; version = ""; kind = "" }

-- `GroupVersionKind.Empty`
abbrev is_empty : Gvk → Bool
is_empty g = g.group == "" && g.version == "" && g.kind == ""

unfoldable pub target_gvk : Target → Gvk
target_gvk t = if is_empty t.gvk then gvk_of_structured_type t.go_type else t.gvk

abbrev pub remove_finalizers_patch : String
remove_finalizers_patch = "[{\"op\":\"remove\",\"path\":\"/metadata/finalizers\"}]"

module _ {X : Externals} (K : Cluster X) where
  -- The latest version of the object is fetched, and that is patched.
  unfoldable pub drop_finalizers : Target → Option (List String) → Action (World K) (Unit {0})
  drop_finalizers t none = pure tt
  drop_finalizers t (some _) = do
    latest ← ask K (K.get_target (target_gvk t) t.metadata.namespace t.metadata.name)
    send K (patched latest) (K.patch latest remove_finalizers_patch)

  unfoldable pub remove_finalizer : Target → Action (World K) (Unit {0})
  unfolding drop_finalizers
  remove_finalizer t = drop_finalizers t t.metadata.finalizers

  unfoldable pub delete_k8s_resource : Target → Action (World K) (Unit {0})
  delete_k8s_resource t = do
    send K (deleted t) (K.delete t deletion_grace_period)
    remove_finalizer t
