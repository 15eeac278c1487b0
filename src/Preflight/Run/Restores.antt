-- ===== src/Preflight/Run/Restores.antt =====
-- The volume snapshot checks keep every closed invariant that lets them send the run's requests.
use text.Mathlib.TextLemmas.{append_assoc}
use tvk_plugins.Base.{String, ◌<>◌, ◌≡◌, refl, sym, ap, ◌∙◌, ◌⊎◌, inl, inr, Option, none, some}
use tvk_plugins.Action.{Action}
use tvk_plugins.Action.Keeps.{
  Keeps, Keeps-bind, Keeps-pure, Keeps-raise, Keeps-attempt, keeps_rules,
}
use tvk_plugins.Kube.{
  Externals, Meta, NamespacedName, Pod, Pvc, PvcSpec, SnapshotContent, Cluster, World, Request,
  send, created, pod_object,
}
use tvk_plugins.Kube.Closed.{IsClosed}
use tvk_plugins.Preflight.Options.{
  Run, backup_namespace_prefix, source_pvc_name_prefix, backup_pvc_name_prefix,
  snapshot_source_prefix, snapshot_backup_prefix,
}
use tvk_plugins.Preflight.Specs.{
  volume_snapshot_pvc_spec, volume_snapshot_spec, pvc_data_writer_pod_spec,
  pvc_data_reader_pod_spec,
}
use tvk_plugins.Preflight.Pods.{create_pod}
use tvk_plugins.Preflight.Wait.{wait_until_snapshot_ready}
use tvk_plugins.Preflight.Volumes.{
  pvc_from_snapshot, create_pvc_from_snapshot, create_namespace, content_of,
  get_snapshot_and_content, clone_snapshot_and_content, clone_snapshot_and_pvc,
  create_snapshot_from_pvc, create_pvc, make_source, read_back, restored_meta, cloned_content,
  cloned_snapshot, current_vol_snap_class, validate_cluster_scope_volume_snapshot,
  validate_namespace_scope_volume_snapshot,
}
use tvk_plugins.Preflight.Run.Requests.{IsNamed, IsRunRequest, Permits}
use tvk_plugins.Preflight.Run.Simple.{preferred_version_for_group-Keeps}
use tvk_plugins.Preflight.Run.Probes.{wait_until_pod_condition-Keeps, exec_in_pod-Keeps}

module _ {X : Externals} {K : Cluster X} (o : Run X) (suffix : String) {Own : Meta → Type 0}
    {Q : Request X → Type 0} {P : World K → Type 0} (permits : Permits K o suffix Own Q)
    (closed : IsClosed Q P) where
  sends_allowed :
      {A : Type 0}
      → (q : Request X) (call : Action K.State A) → IsRunRequest o suffix q
      → Keeps P (send K q call)
  sends_allowed q call allowed = closed.sends q call (permits.requests q allowed)

  create_pod-Keeps :
      (p : Pod X) → IsRunRequest o suffix (created (pod_object p)) → Keeps P (create_pod K p)
  unfolding create_pod
  create_pod-Keeps p allowed = Keeps-bind _ _ (sends_allowed _ _ allowed) λ made.
      Keeps-bind _ _
        (Keeps-attempt _ (wait_until_pod_condition-Keeps o suffix permits closed _ _ _))
        λ r. Keeps-bind _ _ (search keeps_rules) (λ _. closed.asks _)

  -- The place of the source objects.
  abbrev IsPlace : String → Type 0
  IsPlace ns = (ns ≡ o.namespace) ⊎ (ns ≡ backup_namespace_prefix <> suffix)

  -- A pod's name `prefix`, role, dash and suffix.
  role_name :
      (prefix role : String)
      → prefix <> (role <> "-" <> suffix) ≡ (prefix <> (role <> "-")) <> suffix
  role_name prefix role =
      ap (λ (t : String). prefix <> t) (sym (append_assoc role "-" suffix))
      ∙ sym (append_assoc prefix (role <> "-") suffix)

  create_snapshot_from_pvc-Keeps :
      (ns class version pvc_name : String)
      → IsPlace ns
      → Keeps P (
          create_snapshot_from_pvc K
            (record { namespace = ns; name = snapshot_source_prefix <> suffix })
            class
            version
            pvc_name
            suffix)
  unfolding create_snapshot_from_pvc wait_until_snapshot_ready volume_snapshot_spec
  create_snapshot_from_pvc-Keeps ns class version pvc_name place =
      Keeps-bind _ _
        (Keeps-attempt _ (sends_allowed _ _ ((snapshot_source_prefix, refl), place, refl)))
        λ r.
          Keeps-bind _ _ (search keeps_rules)
            λ _. Keeps-bind _ _ (Keeps-attempt _ (closed.asks _)) (λ ready. search keeps_rules)

  make_source-Keeps :
      (ns version : String) → IsPlace ns → Keeps P (make_source K o ns suffix version)
  unfolding make_source create_pvc current_vol_snap_class volume_snapshot_pvc_spec
      pvc_data_writer_pod_spec
  make_source-Keeps ns version place =
      Keeps-bind _ _ (sends_allowed _ _ ((source_pvc_name_prefix, refl), place)) λ pvc.
        Keeps-bind _ _
          (create_pod-Keeps _
            ((source_pvc_name_prefix <> ("writer" <> "-"), role_name _ "writer"), place, inl refl))
          λ _.
            Keeps-bind _ _ (record { after = λ w h. h })
              λ class.
                Keeps-bind _ _
                  (create_snapshot_from_pvc-Keeps ns class version pvc.metadata.name place)
                  (λ _. Keeps-pure pvc)

  read_back-Keeps : Keeps P (read_back K o suffix)
  unfolding read_back pvc_data_reader_pod_spec
  read_back-Keeps =
      Keeps-bind _ _
        (create_pod-Keeps _
          ((backup_pvc_name_prefix <> ("reader" <> "-"), role_name _ "reader"), inl refl, inl refl))
        (λ reader. exec_in_pod-Keeps o suffix permits closed _)

  create_pvc_from_snapshot-Keeps :
      (pvc : Pvc X) (source : PvcSpec X) (name : String)
      → Keeps P (create_pvc_from_snapshot K (restored_meta K o suffix pvc) source name)
  unfolding create_pvc_from_snapshot pvc_from_snapshot restored_meta
  create_pvc_from_snapshot-Keeps pvc source name =
      sends_allowed _ _ ((backup_pvc_name_prefix, refl), inl refl)

  content_of-Keeps : (name : Option String) → Keeps P (content_of K name)
  content_of-Keeps none = Keeps-raise _
  content_of-Keeps (some name) = closed.asks _

  clone_snapshot_and_content-Keeps :
      (source : SnapshotContent) (m : Meta)
      → IsNamed o suffix m
      → m.namespace ≡ o.namespace
      → Keeps P (clone_snapshot_and_content K source m)
  unfolding clone_snapshot_and_content cloned_content cloned_snapshot
  clone_snapshot_and_content-Keeps source m named place =
      Keeps-bind _ _ (sends_allowed _ _ (named, place)) (λ _. sends_allowed _ _ (named, place))

  clone_snapshot_and_pvc-Keeps :
      (source : NamespacedName) (pvc : Pvc X)
      → Keeps P (
          clone_snapshot_and_pvc K source pvc.spec
            (restored_meta K o suffix pvc)
            (snapshot_backup_prefix <> suffix))
  unfolding clone_snapshot_and_pvc get_snapshot_and_content restored_meta
  clone_snapshot_and_pvc-Keeps source pvc =
      Keeps-bind _ _
        (Keeps-bind _ _ (closed.asks _)
          λ vs. Keeps-bind _ _ (content_of-Keeps vs.bound_content) (λ vsc. Keeps-pure (vs, vsc)))
        λ (vs, vsc).
          Keeps-bind _ _
            (clone_snapshot_and_content-Keeps vsc _ (snapshot_backup_prefix, refl) refl)
            (λ _. create_pvc_from_snapshot-Keeps pvc pvc.spec _)

  pub validate_cluster_scope_volume_snapshot-Keeps :
      Keeps P (validate_cluster_scope_volume_snapshot K o suffix)
  unfolding validate_cluster_scope_volume_snapshot create_namespace
  validate_cluster_scope_volume_snapshot-Keeps =
      Keeps-bind _ _ (preferred_version_for_group-Keeps closed _) λ version.
        Keeps-bind _ _ (sends_allowed _ _ refl) λ _.
          Keeps-bind _ _ (make_source-Keeps _ version (inr refl))
            λ pvc. Keeps-bind _ _ (clone_snapshot_and_pvc-Keeps _ pvc) (λ _. read_back-Keeps)

  pub validate_namespace_scope_volume_snapshot-Keeps :
      Keeps P (validate_namespace_scope_volume_snapshot K o suffix)
  unfolding validate_namespace_scope_volume_snapshot
  validate_namespace_scope_volume_snapshot-Keeps =
      Keeps-bind _ _ (preferred_version_for_group-Keeps closed _) λ version.
        Keeps-bind _ _ (make_source-Keeps _ version (inl refl)) λ pvc.
          Keeps-bind _ _ (create_pvc_from_snapshot-Keeps pvc pvc.spec _) (λ _. read_back-Keeps)
