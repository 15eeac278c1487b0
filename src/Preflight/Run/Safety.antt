-- ===== src/Preflight/Run/Safety.antt =====
-- What `PerformPreflightChecks` of tools/preflight/preflight.go may write before its cleanup.
use tvk_plugins.Base.{String, Bool, true, false, refl, ◌==◌, Option, none, some, List}
use tvk_plugins.Action.{is_ok, Action}
use tvk_plugins.Action.Keeps.{Keeps, Keeps-bind, Keeps-pure, Keeps-attempt, Keeps-if, keeps_rules}
use tvk_plugins.Kube.{
  Externals, Meta, Request, Check, Cluster, World, verdict, created, class_object, crd_object,
}
use tvk_plugins.Kube.Trace.{Extends, Extends-refl, ask-Extends, send-Extends, verdict-Extends}
use tvk_plugins.Kube.Closed.{IsClosed}
use tvk_plugins.Preflight.Options.{Run}
use tvk_plugins.Preflight.Run.{
  judged, judged_value, check_snapshot_crds, check_storage_snapshot_class, snapshot_class_stage,
  tool_stage, basic_stage, scope_stage, volume_stage, storage_stage, all_checks,
}
use tvk_plugins.Preflight.Run.Requests.{IsNaming, IsProbe, IsRunRequest, Permits}
use tvk_plugins.Preflight.Run.Simple.{
  validate_binary-Keeps, validate_cluster_access-Keeps, validate_namespace_permissions-Keeps,
  validate_system_helm_version-Keeps, validate_kubernetes_version-Keeps,
  validate_kubernetes_rbac-Keeps, preferred_version_for_group-Keeps,
}
use tvk_plugins.Preflight.Run.Classes.{
  validate_storage_snapshot_class-Keeps, check_and_create_crds-Keeps,
}
use tvk_plugins.Preflight.Run.Probes.{
  validate_dns_resolution-Keeps, validate_required_pod_capabilities-Keeps,
}
use tvk_plugins.Preflight.Run.Restores.{
  validate_cluster_scope_volume_snapshot-Keeps, validate_namespace_scope_volume_snapshot-Keeps,
}

module _ {X : Externals} (K : Cluster X) where
  -- The trace invariant is closed.
  pub Extends-IsClosed :
      (Q : Request X → Type 0) (before : List (Request X)) → IsClosed Q (Extends {K = K} Q before)
  Extends-IsClosed Q before = record {
    asks = ask-Extends Q before;
    sends = send-Extends Q before;
    sets = λ w wanted found h. record {
      added = h.added;
      is_extended = h.is_extended;
      holds = h.holds;
    };
  }

  module _ (o : Run X) (suffix : String) {Own : Meta → Type 0} {Q : Request X → Type 0}
      {P : World K → Type 0} (permits : Permits K o suffix Own Q) (closed : IsClosed Q P) where
    pub check_snapshot_crds-Keeps : Keeps P (check_snapshot_crds K)
    unfolding check_snapshot_crds
    check_snapshot_crds-Keeps = search (
      keeps_rules,
      closed.asks,
      check_and_create_crds-Keeps closed (λ crd. permits.requests (created (crd_object crd)) tt),
    )

    pub check_storage_snapshot_class-Keeps :
        (provisioner : String) → Keeps P (check_storage_snapshot_class K provisioner)
    unfolding check_storage_snapshot_class tvk_plugins.Preflight.SnapshotClasses.snapshot_class_spec
    check_storage_snapshot_class-Keeps provisioner = search (
      keeps_rules,
      preferred_version_for_group-Keeps closed,
      validate_storage_snapshot_class-Keeps closed
          (λ drawn _ _. permits.requests (created (class_object _)) (drawn, refl)),
    )

  module _ (o : Run X) (suffix : String) {Own : Meta → Type 0} {Q : Request X → Type 0}
      {P : World K → Type 0} (permits : Permits K o suffix Own Q) (closed : IsClosed Q P)
      (verdicts : (c : Check) (passed : Bool) → Keeps P (verdict K c passed)) where
    judged-Keeps :
        {A : Type 0} → (c : Check) (m : Action (World K) A) → Keeps P m → Keeps P (judged K c m)
    unfolding judged
    judged-Keeps c m k =
        Keeps-bind _ _ (Keeps-attempt _ k)
          (λ r. Keeps-bind _ _ (verdicts c (is_ok r)) (λ _. Keeps-pure _))

    judged_value-Keeps :
        {A : Type 0}
        → (c : Check) (m : Action (World K) A) → Keeps P m
        → Keeps P (judged_value K c m)
    unfolding judged_value
    judged_value-Keeps c m k =
        Keeps-bind _ _ (Keeps-attempt _ k)
          (λ r. Keeps-bind _ _ (verdicts c (is_ok r)) (λ _. Keeps-pure _))

    tool_stage-Keeps :
        (c : Check) (m : Action (World K) (Unit {0})) → Keeps P m → Keeps P (tool_stage K o c m)
    unfolding tool_stage
    tool_stage-Keeps c m k = Keeps-if o.in_cluster _ _ (Keeps-pure true) (judged-Keeps c m k)

    basic_stage-Keeps : Keeps P (basic_stage K o)
    unfolding basic_stage
    basic_stage-Keeps = Keeps-bind _ _ (tool_stage-Keeps _ _ (validate_binary-Keeps closed _)) λ a.
        Keeps-bind _ _ (judged-Keeps _ _ (validate_cluster_access-Keeps closed _)) λ b.
          Keeps-bind _ _ (tool_stage-Keeps _ _ (validate_system_helm_version-Keeps closed)) λ c.
            Keeps-bind _ _ (judged-Keeps _ _ (validate_kubernetes_version-Keeps closed _)) λ d.
              Keeps-bind _ _ (judged-Keeps _ _ (validate_kubernetes_rbac-Keeps closed _ _)) λ e.
                Keeps-bind _ _
                  (judged-Keeps _ _ (check_snapshot_crds-Keeps o suffix permits closed))
                  (λ f. Keeps-pure _)

    snapshot_class_stage-Keeps : (sc : Option String) → Keeps P (snapshot_class_stage K sc)
    unfolding snapshot_class_stage
    snapshot_class_stage-Keeps none = Keeps-pure false
    snapshot_class_stage-Keeps (some provisioner) =
        judged-Keeps _ _ (check_storage_snapshot_class-Keeps o suffix permits closed provisioner)

    scope_stage-Keeps : Keeps P (scope_stage K o suffix)
    unfolding scope_stage
    scope_stage-Keeps =
        Keeps-if (o.scope == "cluster") _ _
          (judged-Keeps _ _ (validate_cluster_scope_volume_snapshot-Keeps o suffix permits closed))
          (Keeps-if (o.scope == "namespace") _ _
            (judged-Keeps _ _
              (validate_namespace_scope_volume_snapshot-Keeps o suffix permits closed))
            (Keeps-pure true))

    volume_stage-Keeps : (storage : Bool) → Keeps P (volume_stage K o suffix storage)
    unfolding volume_stage
    volume_stage-Keeps false = Keeps-pure true
    volume_stage-Keeps true =
        Keeps-bind _ _ (judged-Keeps _ _ (validate_namespace_permissions-Keeps closed))
          λ a. Keeps-bind _ _ scope_stage-Keeps (λ b. Keeps-pure _)

    storage_stage-Keeps : Keeps P (storage_stage K o suffix)
    unfolding storage_stage
    storage_stage-Keeps = Keeps-bind _ _ (judged_value-Keeps _ _ (closed.asks _)) λ sc.
        Keeps-bind _ _
          (judged-Keeps _ _ (validate_required_pod_capabilities-Keeps o suffix permits closed))
          λ a. Keeps-bind _ _ (snapshot_class_stage-Keeps sc) λ storage.
            Keeps-bind _ _
              (judged-Keeps _ _ (validate_dns_resolution-Keeps o suffix permits closed))
              λ b. Keeps-bind _ _ (volume_stage-Keeps storage) (λ c. Keeps-pure _)

    pub all_checks-Keeps : Keeps P (all_checks K o suffix)
    unfolding all_checks
    all_checks-Keeps =
        Keeps-bind _ _ basic_stage-Keeps
          (λ a. Keeps-bind _ _ storage_stage-Keeps (λ b. Keeps-pure _))

  module _ (o : Run X) (suffix : String) (naming : IsNaming K) where
    -- On a cluster that answers by name, the pods that a check reads back are its own.
    IsProbe-Permits : Permits K o suffix (IsProbe o suffix) (IsRunRequest o suffix)
    IsProbe-Permits = record {
      requests = λ q h. h;
      deletes = λ t h. h;
      patches = λ t h. h;
      pods = λ m s p h probe.
          let (ns, name) = naming.gets_pod m.namespace m.name s p h in rw ns (rw name probe);
      targets = λ g m s t h probe.
          let (ns, name) = naming.gets_target g m.namespace m.name s t h in rw ns (rw name probe);
    }

    -- Whatever the cluster answers, as long as it returns objects under the name and namespace
    -- that were asked for: every write request that the checks of a run add to the trace is one
    -- of its own. What a run creates has a name that ends in the run's suffix and lies in its
    -- namespace or its backup namespace, with the exception of snapshot classes and CRDs; the
    -- pods and requests it creates carry labels of the run; and it deletes and patches only its
    -- own DNS and capability pods.
    pub all_checks-IsRunRequest :
        (w : World K) → Extends (IsRunRequest o suffix) w.trace (all_checks K o suffix w).1
    all_checks-IsRunRequest w =
        let permits = IsProbe-Permits in
        (all_checks-Keeps o suffix permits (Extends-IsClosed _ w.trace)
            (verdict-Extends _ w.trace)).after
          w (Extends-refl (IsRunRequest o suffix) w)
