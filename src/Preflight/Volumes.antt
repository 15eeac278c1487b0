-- ===== src/Preflight/Volumes.antt =====
-- The volume snapshot and restore checks of tools/preflight/preflight.go, in both scopes.
pub mod Seen
pub mod Restored
use tvk_plugins.Base.{String, ◌<>◌, Option, none, some, List, [], ◌∷◌, if◌then◌else◌}
use tvk_plugins.Base.Dict.{get_or}
use tvk_plugins.Action.{
  failure, message, is_interrupted, ok, Action, pure, raise, lift, attempt, ◌>>=◌, ◌>>◌,
}
use tvk_plugins.Kube.{
  Externals, Meta, NamespacedName, Pvc, PvcSpec, Container, Snapshot, SnapshotContent,
  namespace_object, pvc_object, request_object, snapshot_object, content_object, Cluster, World,
  created, ask, send,
}
use tvk_plugins.Preflight.Options.{
  Run, storage_snapshot_group, backup_namespace_prefix, source_pvc_name_prefix,
  backup_pvc_name_prefix, snapshot_source_prefix, snapshot_backup_prefix, volume_snapshot_kind,
  data_check_command, default_retry_backoff_params,
}
use tvk_plugins.Preflight.Specs.{
  namespace_spec, volume_snapshot_pvc_spec, pvc_data_writer_pod_spec, pvc_data_reader_pod_spec,
  volume_snapshot_spec,
}
use tvk_plugins.Preflight.Wait.{wait_until_snapshot_ready, exec_in_pod}
use tvk_plugins.Preflight.Checks.{map_error, preferred_version_for_group}
use tvk_plugins.Preflight.Pods.{create_pod}

-- The content and the snapshot that `cloneSnapshotAndContent` builds.
unfoldable pub cloned_content : SnapshotContent → Meta → SnapshotContent
cloned_content source m = record {
  metadata = m;
  spec_handle = source.status_handle;
  status_handle = none;
  snapshot_ref = record { namespace = m.namespace; name = m.name };
  deletion_policy = "Delete";
  driver = source.driver;
  class_name = source.class_name;
}

unfoldable pub cloned_snapshot : SnapshotContent → Meta → Snapshot
cloned_snapshot source m = record {
  metadata = m;
  source_content = some m.name;
  class_name = source.class_name;
  bound_content = none;
}

-- `readerPod.Spec.Containers[0].Name`; Go panics on a pod with no container.
unfoldable pub first_container : {X : Externals} → List (Container X) → String
first_container [] = ""
first_container (c ∷ cs) = c.name

module _ {X : Externals} (K : Cluster X) where
  -- The PVC that `createPVCFromSnapshot` builds.
  unfoldable pub pvc_from_snapshot : Meta → PvcSpec X → String → Pvc X
  pvc_from_snapshot m source snapshot_name = record {
    metadata = record {
      name = m.name;
      namespace = m.namespace;
      labels = m.labels;
      finalizers = none;
    };
    spec = record {
      access_modes = source.access_modes;
      storage_class_name = source.storage_class_name;
      requests = ("storage", get_or "storage" X.zero_quantity source.requests) ∷ [];
      data_source = some (record {
        api_group = storage_snapshot_group;
        kind = volume_snapshot_kind;
        name = snapshot_name;
      });
    };
  }

  unfoldable pub create_pvc_from_snapshot : Meta → PvcSpec X → String → Action (World K) (Unit {0})
  unfolding pvc_from_snapshot
  create_pvc_from_snapshot m source snapshot_name =
      let p = pvc_from_snapshot m source snapshot_name in
      send K (created (pvc_object p)) (K.create (pvc_object p))

  unfoldable pub create_namespace : String → String → Action (World K) (Unit {0})
  create_namespace name uid =
      let ns = namespace_spec name uid in
      send K (created (namespace_object ns)) (K.create (namespace_object ns))

  abbrev pub content_of : Option String → Action (World K) SnapshotContent
  content_of none = raise (failure "unable to get volumeSnapshotContent")
  content_of (some name) = ask K (K.get_content name)

  unfoldable pub get_snapshot_and_content :
      NamespacedName → Action (World K) (Snapshot × SnapshotContent)
  get_snapshot_and_content n = do
    vs ← ask K (K.get_snapshot n.namespace n.name)
    vsc ← content_of vs.bound_content
    pure (vs, vsc)

  unfoldable pub clone_snapshot_and_content : SnapshotContent → Meta → Action (World K) (Unit {0})
  unfolding cloned_content cloned_snapshot
  clone_snapshot_and_content source m = do
    let content = cloned_content source m
    let snapshot = cloned_snapshot source m
    send K (created (content_object content)) (K.create (content_object content))
    send K (created (snapshot_object snapshot)) (K.create (snapshot_object snapshot))

  unfoldable pub clone_snapshot_and_pvc :
      NamespacedName → PvcSpec X → Meta → String → Action (World K) (Unit {0})
  unfolding get_snapshot_and_content clone_snapshot_and_content create_pvc_from_snapshot
  clone_snapshot_and_pvc source spec pvc_meta clone_name = do
    (vs, vsc) ← get_snapshot_and_content source
    clone_snapshot_and_content vsc (record {
      name = clone_name;
      namespace = pvc_meta.namespace;
      labels = vs.metadata.labels;
      finalizers = none;
    })
    create_pvc_from_snapshot pvc_meta spec clone_name

  unfoldable pub create_snapshot_from_pvc :
      NamespacedName → String → String → String → String → Action (World K) (Unit {0})
  unfolding map_error
  create_snapshot_from_pvc n class version pvc_name uid = do
    let snap = volume_snapshot_spec n class version pvc_name uid
    r ← attempt (send K (created (request_object snap)) (K.create (request_object snap)))
    lift (map_error (λ e. failure ("❌ error creating volume snapshot from pvc :: " <> message e)) r)
    ready ←
        attempt
          (wait_until_snapshot_ready K n.namespace n.name version default_retry_backoff_params)
    lift (
        map_error
          (λ e.
            if is_interrupted e
            then failure (
                "volume snapshot - "
                <> n.namespace
                <> "/"
                <> n.name
                <> " not readyToUse (waited 600 sec) :: "
                <> message e)
            else e)
          ready)

  unfoldable pub current_vol_snap_class : Action (World K) String
  current_vol_snap_class w = (ok w.vol_snap_class, w)

  module _ (o : Run X) where
    unfoldable pub create_pvc : NamespacedName → String → Action (World K) (Pvc X)
    create_pvc n uid =
        let p = volume_snapshot_pvc_spec o n uid in
        send K (created (pvc_object p)) (K.create_pvc n.namespace p)

    -- The steps that both scopes begin with: the source PVC, its writer pod and its snapshot.
    unfoldable pub make_source : String → String → String → Action (World K) (Pvc X)
    unfolding create_pvc create_snapshot_from_pvc current_vol_snap_class
    make_source ns suffix version = do
      let source : NamespacedName = record {
        namespace = ns;
        name = source_pvc_name_prefix <> suffix;
      }
      pvc ← create_pvc source suffix
      _ ← create_pod K (
          pvc_data_writer_pod_spec o (source_pvc_name_prefix <> "writer" <> "-" <> suffix) source
            suffix)
      class ← current_vol_snap_class
      create_snapshot_from_pvc (record { namespace = ns; name = snapshot_source_prefix <> suffix })
          class version pvc.metadata.name suffix
      pure pvc

    -- The steps that both scopes end with: the reader pod reads the data back.
    unfoldable pub read_back : String → Action (World K) (Unit {0})
    read_back suffix = do
      let restored : NamespacedName = record {
        namespace = o.namespace;
        name = backup_pvc_name_prefix <> suffix;
      }
      reader ← create_pod K (
          pvc_data_reader_pod_spec o (backup_pvc_name_prefix <> "reader" <> "-" <> suffix) restored
            suffix)
      exec_in_pod K (record {
        namespace = reader.metadata.namespace;
        command = data_check_command;
        pod_name = reader.metadata.name;
        container_name = first_container reader.spec.containers;
      })

    unfoldable pub restored_meta : String → Pvc X → Meta
    restored_meta suffix pvc = record {
      name = backup_pvc_name_prefix <> suffix;
      namespace = o.namespace;
      labels = pvc.metadata.labels;
      finalizers = none;
    }

    unfoldable pub validate_cluster_scope_volume_snapshot : String → Action (World K) (Unit {0})
    unfolding make_source read_back restored_meta create_namespace clone_snapshot_and_pvc
    validate_cluster_scope_volume_snapshot suffix = do
      version ← preferred_version_for_group K storage_snapshot_group
      let backup_ns = backup_namespace_prefix <> suffix
      create_namespace backup_ns suffix
      pvc ← make_source backup_ns suffix version
      clone_snapshot_and_pvc
          (record { namespace = backup_ns; name = snapshot_source_prefix <> suffix }) pvc.spec
          (restored_meta suffix pvc) (snapshot_backup_prefix <> suffix)
      read_back suffix

    unfoldable pub validate_namespace_scope_volume_snapshot : String → Action (World K) (Unit {0})
    unfolding make_source read_back restored_meta create_pvc_from_snapshot
    validate_namespace_scope_volume_snapshot suffix = do
      version ← preferred_version_for_group K storage_snapshot_group
      pvc ← make_source o.namespace suffix version
      create_pvc_from_snapshot (restored_meta suffix pvc) pvc.spec
          (snapshot_source_prefix <> suffix)
      read_back suffix
