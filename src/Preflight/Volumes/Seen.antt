-- ===== src/Preflight/Volumes/Seen.antt =====
-- What a successful volume check of tools/preflight/preflight.go is expected to have done, with the
-- objects written out.
use tvk_plugins.Base.{String, ◌<>◌, ◌≡◌, ◌≢◌, [], ◌∷◌, none, some, true}
use tvk_plugins.Action.{ok}
use tvk_plugins.Kube.{
  Externals, Meta, Pod, Pvc, Object, Snapshot, SnapshotContent, Cluster, NamespacedName, pvc_object,
  request_object, snapshot_object, content_object,
}
use tvk_plugins.Preflight.Options.{
  Run, storage_snapshot_group, volume_snapshot_kind, snapshot_source_prefix, data_check_command,
  backup_pvc_name_prefix, source_pvc_name_prefix,
}
use tvk_plugins.Preflight.Specs.{
  volume_snapshot_pvc_spec, pvc_data_writer_pod_spec, pvc_data_reader_pod_spec,
  volume_snapshot_spec,
}
use tvk_plugins.Preflight.Wait.Reached.{Holds}
use tvk_plugins.Preflight.Volumes.{first_container}
use tvk_plugins.Base.Dict.{get_or}

module _ {X : Externals} (K : Cluster X) where
  -- At some moment the snapshot of that place and name said that it is ready to use.
  abbrev pub WasReady : String → String → Type 0
  WasReady ns name =
      (version : String) × ((s : K.State) × ((K.get_ready
            (record {
              group = storage_snapshot_group;
              version = version;
              kind = volume_snapshot_kind;
            })
            ns name s).0
          ≡ ok (ok (some true))))

  -- At some moment the creation of the object was answered without an error.
  abbrev pub Accepted : Object X → Type 0
  Accepted object = (s : K.State) × ((K.create object s).0 ≡ ok tt)

  -- The pod of the specification was created, seen ready, and given by the cluster.
  abbrev pub WasStarted : Pod X → Pod X → Type 0
  WasStarted spec got =
      (p : Pod X) × ((s : K.State) × ((K.create_pod spec.metadata.namespace spec s).0 ≡ ok p))
      × ((s : K.State) × ((seen : Pod X) × ((K.get_pod p.metadata.namespace p.metadata.name s).0
              ≡ ok seen)
            × Holds "Ready" seen.conditions))
      × ((s : K.State) × ((K.get_pod p.metadata.namespace p.metadata.name s).0 ≡ ok got))

  -- The snapshot of that place and name was read with the name of its content, that content was read,
  -- and a content and a snapshot were created as copies under the other place and name.
  abbrev pub WasCloned : NamespacedName → String → String → Type 0
  WasCloned source ns name =
      (vs : Snapshot) × ((vsc : SnapshotContent) × ((content : String) × ((s : K.State)
            × ((K.get_snapshot source.namespace source.name s).0 ≡ ok vs))
          × (vs.bound_content ≡ some content)
          × ((s : K.State) × ((K.get_content content s).0 ≡ ok vsc))
          × Accepted (
              content_object (record {
                metadata = clone_meta vs;
                spec_handle = vsc.status_handle;
                status_handle = none;
                snapshot_ref = record { namespace = ns; name = name };
                deletion_policy = "Delete";
                driver = vsc.driver;
                class_name = vsc.class_name;
              }))
          × Accepted (
              snapshot_object (record {
                metadata = clone_meta vs;
                source_content = some name;
                class_name = vsc.class_name;
                bound_content = none;
              }))))
    where
      clone_meta : Snapshot → Meta
      clone_meta vs = record {
        name = name;
        namespace = ns;
        labels = vs.metadata.labels;
        finalizers = none;
      }

  module _ (o : Run X) (suffix : String) where
    -- The claim that the reader pod mounts was created from the snapshot of that name, in the run's
    -- namespace, with the access modes, class and size of the source claim.
    abbrev pub WasRestored : String → Pvc X → Type 0
    WasRestored snapshot pvc = Accepted (
        pvc_object (record {
          metadata = record {
            name = backup_pvc_name_prefix <> suffix;
            namespace = o.namespace;
            labels = pvc.metadata.labels;
            finalizers = none;
          };
          spec = record {
            access_modes = pvc.spec.access_modes;
            storage_class_name = pvc.spec.storage_class_name;
            requests = ("storage", get_or "storage" X.zero_quantity pvc.spec.requests) ∷ [];
            data_source = some (record {
              api_group = storage_snapshot_group;
              kind = volume_snapshot_kind;
              name = snapshot;
            });
          };
        }))

    -- The reader pod of the restored claim was started, and the data check has run without an error in its
    -- first container.
    abbrev pub WasRead : Type 0
    WasRead =
        (reader : Pod X) × WasStarted
          (pvc_data_reader_pod_spec o (backup_pvc_name_prefix <> "reader" <> "-" <> suffix)
            (record { namespace = o.namespace; name = backup_pvc_name_prefix <> suffix }) suffix)
          reader
        × (reader.metadata.name ≢ "")
        × ((s : K.State) × ((K.stream
                (record {
                  namespace = reader.metadata.namespace;
                  command = data_check_command;
                  pod_name = reader.metadata.name;
                  container_name = first_container reader.spec.containers;
                })
                s).0.error
              ≡ none))

    -- The source claim was created in that namespace, its writer pod was started, and a snapshot of the claim
    -- was created and seen ready to use.
    abbrev pub WasSaved : String → Pvc X → Type 0
    WasSaved ns pvc =
        ((s : K.State) × ((K.create_pvc ns (volume_snapshot_pvc_spec o (source_in ns) suffix) s).0
            ≡ ok pvc))
        × ((writer : Pod X) × WasStarted
              (pvc_data_writer_pod_spec o (source_pvc_name_prefix <> "writer" <> "-" <> suffix)
                (source_in ns) suffix)
              writer)
        × ((class : String) × ((version : String) × Accepted (
                request_object (
                  volume_snapshot_spec
                    (record { namespace = ns; name = snapshot_source_prefix <> suffix }) class
                    version pvc.metadata.name suffix))))
        × WasReady ns (snapshot_source_prefix <> suffix)
      where
        source_in : String → NamespacedName
        source_in ns = record { namespace = ns; name = source_pvc_name_prefix <> suffix }
