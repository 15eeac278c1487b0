-- ===== src/Preflight/Volumes/Restored.antt =====
-- What a volume check of tools/preflight/preflight.go that succeeds has done.
use tvk_plugins.Base.{String, ◌<>◌, ◌≡◌, refl, sym, ap, ◌∙◌, Option, none, some}
use tvk_plugins.Action.{ok, attempt, lift, ok-injective, >>=-eq-ok, raise, pure}
use tvk_plugins.Kube.{
  Externals, Pod, Pvc, Snapshot, SnapshotContent, Cluster, World, NamespacedName, request_object,
}
use tvk_plugins.Kube.Trace.{ask-answers, send-answers}
use tvk_plugins.Preflight.Options.{
  Run, snapshot_source_prefix, snapshot_backup_prefix, backup_namespace_prefix,
}
use tvk_plugins.Preflight.Specs.{volume_snapshot_spec}
use tvk_plugins.Preflight.Wait.Reached.{
  IsBackoff, wait_until_pod_condition-reached, wait_until_snapshot_ready-reached, exec_in_pod-eq-ok,
}
use tvk_plugins.Preflight.SnapshotClasses.Found.{mapped}
use tvk_plugins.Preflight.Pods.{create_pod}
use tvk_plugins.Preflight.Volumes.{
  cloned_content, cloned_snapshot, pvc_from_snapshot, create_pvc_from_snapshot, create_pvc,
  content_of, get_snapshot_and_content, clone_snapshot_and_content, clone_snapshot_and_pvc,
  restored_meta, create_snapshot_from_pvc, make_source, read_back,
  validate_cluster_scope_volume_snapshot, validate_namespace_scope_volume_snapshot,
}
use tvk_plugins.Preflight.Volumes.Seen.{
  WasReady, Accepted, WasStarted, WasCloned, WasRestored, WasRead, WasSaved,
}

module _ {X : Externals} (K : Cluster X) (o : Run X) (suffix : String) where
  content_of-eq-ok :
      (o : Option String) (vsc : SnapshotContent) (w : World K)
      → (content_of K o w).0 ≡ ok vsc
      → (content : String) × (o ≡ some content)
        × ((s : K.State) × ((K.get_content content s).0 ≡ ok vsc))
  unfolding raise
  content_of-eq-ok none vsc w h = cc h
  content_of-eq-ok (some content) vsc w h = (content, refl, (_, ask-answers _ w vsc h))

  get_snapshot_and_content-eq-ok :
      (n : NamespacedName) (vs : Snapshot) (vsc : SnapshotContent) (w : World K)
      → (get_snapshot_and_content K n w).0 ≡ ok (vs, vsc)
      → (content : String) × ((s : K.State) × ((K.get_snapshot n.namespace n.name s).0 ≡ ok vs))
        × (vs.bound_content ≡ some content)
        × ((s : K.State) × ((K.get_content content s).0 ≡ ok vsc))
  unfolding get_snapshot_and_content pure
  get_snapshot_and_content-eq-ok n vs vsc w h =
      let (vs', got, h1) = >>=-eq-ok _ _ w _ h in
      let (vsc', read, h2) = >>=-eq-ok _ _ _ _ h1 in
      let same = ok-injective (vs', vsc') (vs, vsc) h2 in
      let (content, bound, there) = content_of-eq-ok vs'.bound_content vsc' _ read in
      (
        content,
        (_, ask-answers _ w vs' got ∙ (λ i. ok (same i).0)),
        ap (λ (q : Snapshot × SnapshotContent). q.0.bound_content) (sym same) ∙ bound,
        (there.0, there.1 ∙ (λ i. ok (same i).1)),
      )

  clone_snapshot_and_pvc-WasCloned :
      (source : NamespacedName) (pvc : Pvc X) (clone : String) (w : World K)
      → (clone_snapshot_and_pvc K source pvc.spec (restored_meta K o suffix pvc) clone w).0 ≡ ok tt
      → WasCloned K source o.namespace clone × WasRestored K o suffix clone pvc
  unfolding clone_snapshot_and_pvc get_snapshot_and_content clone_snapshot_and_content
      create_pvc_from_snapshot restored_meta pvc_from_snapshot cloned_content cloned_snapshot
  clone_snapshot_and_pvc-WasCloned source pvc clone w h =
      let ((vs, vsc), read, h1) = >>=-eq-ok _ _ w tt h in
      let (_, copied, restored) = >>=-eq-ok _ _ _ tt h1 in
      let (_, first, second) = >>=-eq-ok _ _ _ tt copied in
      let (content, got, bound, there) = get_snapshot_and_content-eq-ok source vs vsc w read in
      (
        (
          vs,
          (
            vsc,
            (
              content,
              got,
              bound,
              there,
              (_, send-answers _ _ _ tt first),
              (_, send-answers _ _ _ tt second),
            ),
          ),
        ),
        (_, send-answers _ _ _ tt restored),
      )

  module _ (backs_off : IsBackoff K) where
    create_pod-WasStarted :
        (spec got : Pod X) (w : World K) → (create_pod K spec w).0 ≡ ok got → WasStarted K spec got
    unfolding create_pod attempt lift
    create_pod-WasStarted spec got w h =
        let (p, made, h1) = >>=-eq-ok _ _ w got h in
        let (r, waited, h2) = >>=-eq-ok _ _ _ got h1 in
        let (_, passed, h3) = >>=-eq-ok _ _ _ got h2 in
        (
          p,
          (_, send-answers _ w _ p made),
          wait_until_pod_condition-reached K backs_off p.metadata.namespace p.metadata.name "Ready"
              _ (ok-injective _ r waited ∙ mapped _ r tt passed),
          (_, ask-answers _ _ got h3),
        )

    read_back-WasRead : (w : World K) → (read_back K o suffix w).0 ≡ ok tt → WasRead K o suffix
    unfolding read_back
    read_back-WasRead w h =
        let (reader, started, h1) = >>=-eq-ok _ _ w tt h in
        let (_, named, _, clean) = (exec_in_pod-eq-ok K _ _).0 h1 in
        (reader, create_pod-WasStarted _ reader w started, named, (_, clean))

    create_snapshot_from_pvc-WasReady :
        (n : NamespacedName) (class version pvc_name uid : String) (w : World K)
        → (create_snapshot_from_pvc K n class version pvc_name uid w).0 ≡ ok tt
        → Accepted K (request_object (volume_snapshot_spec n class version pvc_name uid))
          × WasReady K n.namespace n.name
    unfolding create_snapshot_from_pvc attempt lift
    create_snapshot_from_pvc-WasReady n class version pvc_name uid w h =
        let (r', sent, h1) = >>=-eq-ok _ _ w tt h in
        let (_, passed, h2) = >>=-eq-ok _ _ _ tt h1 in
        let (r, waited, h3) = >>=-eq-ok _ _ _ tt h2 in
        let (s, seen) =
          wait_until_snapshot_ready-reached K backs_off n.namespace n.name version _ _
            (ok-injective _ r waited ∙ mapped _ r tt h3) in
        (
          (_, send-answers _ w _ tt (ok-injective _ r' sent ∙ mapped _ r' tt passed)),
          (version, (s, seen)),
        )

    make_source-WasSaved :
        (ns version : String) (pvc : Pvc X) (w : World K)
        → (make_source K o ns suffix version w).0 ≡ ok pvc
        → WasSaved K o suffix ns pvc
    unfolding make_source create_pvc pure
    make_source-WasSaved ns version pvc w h =
        let (pvc', made, h1) = >>=-eq-ok _ _ w pvc h in
        let (writer, started, h2) = >>=-eq-ok _ _ _ pvc h1 in
        let (class, _, h3) = >>=-eq-ok _ _ _ pvc h2 in
        let (_, ready, h4) = >>=-eq-ok _ _ _ pvc h3 in
        let same = ok-injective pvc' pvc h4 in
        let (accepted, seen) = create_snapshot_from_pvc-WasReady _ class version _ suffix _ ready in
        (
          (_, send-answers _ w _ pvc' made ∙ ap ok same),
          (writer, create_pod-WasStarted _ writer _ started),
          (class, (version, rw (← same) accepted)),
          seen,
        )

    -- Where the backoff keeps its promise: the volume check of the cluster scope succeeds only if, in the
    -- run's backup namespace, the source claim was created, its writer pod started, and its snapshot
    -- created and seen ready to use; that snapshot and its content were read and copied into the run's
    -- namespace; a claim was created from the copy; and in the reader pod of that claim, which was
    -- started, the data check has run without an error.
    pub validate_cluster_scope_volume_snapshot-restores :
        (w : World K)
        → (validate_cluster_scope_volume_snapshot K o suffix w).0 ≡ ok tt
        → (pvc : Pvc X) × WasSaved K o suffix (backup_namespace_prefix <> suffix) pvc
          × WasCloned K
              (record {
                namespace = backup_namespace_prefix <> suffix;
                name = snapshot_source_prefix <> suffix;
              })
              o.namespace
              (snapshot_backup_prefix <> suffix)
          × WasRestored K o suffix (snapshot_backup_prefix <> suffix) pvc
          × WasRead K o suffix
    unfolding validate_cluster_scope_volume_snapshot
    validate_cluster_scope_volume_snapshot-restores w h =
        let (version, _, h1) = >>=-eq-ok _ _ w tt h in
        let (_, _, h2) = >>=-eq-ok _ _ _ tt h1 in
        let (pvc, made, h3) = >>=-eq-ok _ _ _ tt h2 in
        let (_, copied, h4) = >>=-eq-ok _ _ _ tt h3 in
        let (cloned, restored) = clone_snapshot_and_pvc-WasCloned _ pvc _ _ copied in
        (pvc, make_source-WasSaved _ version pvc _ made, cloned, restored, read_back-WasRead _ h4)

    -- Where the backoff keeps its promise: the volume check of the namespace scope succeeds only if, in the
    -- run's namespace, the source claim was created, its writer pod started, and its snapshot created and
    -- seen ready to use; a claim was created from that snapshot; and in the reader pod of that claim,
    -- which was started, the data check has run without an error.
    pub validate_namespace_scope_volume_snapshot-restores :
        (w : World K)
        → (validate_namespace_scope_volume_snapshot K o suffix w).0 ≡ ok tt
        → (pvc : Pvc X) × WasSaved K o suffix o.namespace pvc
          × WasRestored K o suffix (snapshot_source_prefix <> suffix) pvc
          × WasRead K o suffix
    unfolding validate_namespace_scope_volume_snapshot create_pvc_from_snapshot restored_meta
        pvc_from_snapshot
    validate_namespace_scope_volume_snapshot-restores w h =
        let (version, _, h1) = >>=-eq-ok _ _ w tt h in
        let (pvc, made, h2) = >>=-eq-ok _ _ _ tt h1 in
        let (_, restored, h3) = >>=-eq-ok _ _ _ tt h2 in
        (
          pvc,
          make_source-WasSaved _ version pvc _ made,
          (_, send-answers _ _ _ tt restored),
          read_back-WasRead _ h3,
        )
