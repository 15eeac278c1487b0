-- ===== src/Preflight/SnapshotClasses.antt =====
-- The choice of a volume snapshot class: `validateStorageSnapshotClass` and what it calls in
-- tools/preflight/preflight.go and helper.go.
pub mod Chosen
pub mod Found
pub mod Matched
use tvk_plugins.Base.{
  String, ◌<>◌, Bool, true, false, none, some, List, [], ◌∷◌, ◌==◌, if◌then◌else◌,
}
use tvk_plugins.Action.{
  failure, message, is_not_found, ok, err, Action, pure, raise, lift, attempt, ◌>>=◌, ◌>>◌,
}
use tvk_plugins.Kube.{Externals, SnapshotClass, class_object, Cluster, World, created, ask, send}
use tvk_plugins.Preflight.Options.{storage_snapshot_group, default_vsc_name_prefix}
use tvk_plugins.Preflight.Checks.{preferred_version_for_group, map_error}
use tvk_plugins.Preflight.Suffix.{create_resource_name_suffix}

-- The annotation reads, is there and says "true".
unfoldable pub is_default_class : SnapshotClass → Bool
is_default_class c = elim c.is_default [
  | ok (some v) ↦ v == "true"
  | ok none ↦ false
  | err _ ↦ false
]

-- How the loop over the classes ends: by a default class, or with the last class of the driver
-- (empty if there was none).
pub data Choice : Type 0 where
  default_class : String → Choice
  last_class : String → Choice

unfoldable pub choose_class : String → String → List SnapshotClass → Choice
unfolding is_default_class
choose_class provisioner seen [] = last_class seen
choose_class provisioner seen (c ∷ cs) = elim (c.driver == provisioner) [
  | false ↦ choose_class provisioner seen cs
  | true ↦ elim (is_default_class c) [
    | true ↦ default_class c.metadata.name
    | false ↦ choose_class provisioner c.metadata.name cs
  ]
]

abbrev snapshot_class_kind : String
snapshot_class_kind = "VolumeSnapshotClass"

unfoldable pub snapshot_class_spec : String → String → String → SnapshotClass
snapshot_class_spec name driver version = record {
  gvk = record { group = storage_snapshot_group; version = version; kind = snapshot_class_kind };
  metadata = record { name = name; namespace = ""; labels = []; finalizers = none };
  driver = driver;
  deletion_policy = "Delete";
  is_default = ok none;
}

module _ {X : Externals} (K : Cluster X) where
  unfoldable pub create_volume_snapshot_class : String → String → Action (World K) String
  unfolding snapshot_class_spec
  create_volume_snapshot_class driver version = do
    r ← attempt (create_resource_name_suffix K)
    suffix ←
        lift (map_error (λ e. failure ("error generating resource name suffix: " <> message e)) r)
    let class = snapshot_class_spec (default_vsc_name_prefix <> suffix) driver version
    send K (created (class_object class)) (K.create (class_object class))
    pure (default_vsc_name_prefix <> suffix)

  unfoldable pub create_class_or_explain : String → String → Action (World K) String
  unfolding create_volume_snapshot_class
  create_class_or_explain provisioner version = do
    r ← attempt (create_volume_snapshot_class provisioner version)
    lift (
        map_error
          (λ e. failure (
            "error creating volume snapshot class having driver - "
            <> provisioner
            <> " :: "
            <> message e))
          r)

  unfoldable pub use_choice : String → String → Choice → Action (World K) String
  use_choice provisioner version (default_class name) = pure name
  use_choice provisioner version (last_class name) =
      if name == "" then create_class_or_explain provisioner version else pure name

  -- The test for an empty list needs no clause of its own: the loop then sees no class.
  unfoldable pub check_and_create_snapshot_class : String → String → Action (World K) String
  unfolding choose_class use_choice create_class_or_explain
  check_and_create_snapshot_class version provisioner = do
    classes ← ask K (K.list_snapshot_classes version)
    use_choice provisioner version (choose_class provisioner "" classes)

  unfoldable pub cluster_has_snapshot_class : String → Action (World K) SnapshotClass
  cluster_has_snapshot_class name = do
    version ← preferred_version_for_group K storage_snapshot_group
    r ← attempt (ask K (K.get_snapshot_class version name))
    lift (
        map_error
          (λ e.
            if is_not_found e
            then failure
                ("volume snapshot class " <> name <> " not found on cluster :: " <> message e)
            else e)
          r)

  -- The variables that a run changes.
  unfoldable pub set_vol_snap_class : String → Action (World K) (Unit {0})
  set_vol_snap_class v w = (ok tt, record w { vol_snap_class = v })

  unfoldable pub wanted_snapshot_class : Action (World K) String
  wanted_snapshot_class w = (ok w.snapshot_class, w)

  -- Without a class from the user. The variable is written on an error too.
  unfoldable pub find_class : String → String → Action (World K) (Unit {0})
  unfolding set_vol_snap_class
  find_class provisioner version = do
    r ← attempt (check_and_create_snapshot_class version provisioner)
    set_vol_snap_class (elim r [ ok name ↦ name | err _ ↦ "" ])
    _ ← lift r
    pure tt

  -- With one.
  unfoldable pub match_class : String → String → Action (World K) (Unit {0})
  unfolding set_vol_snap_class cluster_has_snapshot_class
  match_class provisioner name = do
    set_vol_snap_class name
    class ← cluster_has_snapshot_class name
    if class.driver == provisioner
        then pure tt
        else raise (
            failure (
              "volume snapshot class - " <> name
              <> " driver does not match with given StorageClass's provisioner=" <> provisioner))

  unfoldable pub validate_storage_snapshot_class : String → String → Action (World K) (Unit {0})
  unfolding wanted_snapshot_class find_class match_class
  validate_storage_snapshot_class provisioner version = do
    name ← wanted_snapshot_class
    if name == "" then find_class provisioner version else match_class provisioner name
