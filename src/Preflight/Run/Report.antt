-- ===== src/Preflight/Run/Report.antt =====
-- The verdicts that a run of tools/preflight/preflight.go reports, and its result.
use tvk_plugins.Base.{
  String, Bool, true, false, ◌&&◌, ◌≡◌, ap, ◌∙◌, Option, none, some, List, [], ◌∷◌, ◌++◌,
  append-nil, sym, ◌==◌, if◌then◌else◌, all-append,
}
use tvk_plugins.Action.{ok, Action}
use tvk_plugins.Kube.{
  Externals, Check, kubectl, access, helm, kubernetes_version, rbac, snapshot_crds,
  snapshot_class_found, pod_capability, storage_snapshot_class, dns, namespace_permissions, Cluster,
  World, ask, send,
}
use tvk_plugins.Preflight.Options.{Run}
use tvk_plugins.Kube.Closed.{IsClosed}
use tvk_plugins.Preflight.Run.{
  check_snapshot_crds, check_storage_snapshot_class, snapshot_class_stage, tool_stage, basic_stage,
  scope_stage, volume_stage, storage_stage, all_checks,
}
use tvk_plugins.Preflight.Run.Requests.{Permits}
use tvk_plugins.Preflight.Run.Safety.{check_snapshot_crds-Keeps, check_storage_snapshot_class-Keeps}
use tvk_plugins.Preflight.Run.Simple.{
  validate_binary-Keeps, validate_cluster_access-Keeps, validate_namespace_permissions-Keeps,
  validate_system_helm_version-Keeps, validate_kubernetes_version-Keeps,
  validate_kubernetes_rbac-Keeps,
}
use tvk_plugins.Preflight.Run.Probes.{
  validate_dns_resolution-Keeps, validate_required_pod_capabilities-Keeps,
}
use tvk_plugins.Preflight.Run.Restores.{
  validate_cluster_scope_volume_snapshot-Keeps, validate_namespace_scope_volume_snapshot-Keeps,
}
use tvk_plugins.Preflight.Run.Judges.{
  is_some, Judges, Quiet, Judges-bind, Judges-const, Judges-if, judged-Judges, judged_value-Judges,
}
use tvk_plugins.Preflight.Run.Expected.{
  Verdicts, local_check, volume_check, scope_value, basic_report, storage_report, expected_report,
  all_passed, basic_value, storage_value, nested_volumes,
}

module _ {X : Externals} {K : Cluster X} where
  tool_stage-Judges :
      (o : Run X) (c : Check) (m : Action (World K) (Unit {0}))
      → Quiet m
      → Judges {V = Bool}
          (tool_stage K o c m)
          (λ b. if o.in_cluster then true else b)
          (λ b. local_check o c b)
  unfolding tool_stage
  tool_stage-Judges o c m quiet =
      Judges-if o.in_cluster (Judges-const true true) (judged-Judges c m quiet)

  -- The report is a closed invariant, whatever is sent.
  pub report-IsClosed :
      (r : List (Check × Bool)) → IsClosed {K = K} (λ _. Unit) (λ (w : World K). w.report ≡ r)
  unfolding ask send
  report-IsClosed r = record {
    asks = λ call. record { after = λ w h. h };
    sends = λ q call _. record { after = λ w h. h };
    sets = λ w wanted found h. h;
  }

  pub any_permits : (o : Run X) (suffix : String) → Permits K o suffix (λ _. Unit) (λ _. Unit)
  any_permits o suffix = record {
    requests = λ _ _. tt;
    deletes = λ _ _. tt;
    patches = λ _ _. tt;
    pods = λ _ _ _ _ _. tt;
    targets = λ _ _ _ _ _ _. tt;
  }

  module _ (o : Run X) (suffix : String) where
    check_snapshot_crds-Quiet : Quiet (check_snapshot_crds K)
    check_snapshot_crds-Quiet r =
        check_snapshot_crds-Keeps K o suffix (any_permits o suffix) (report-IsClosed r)

    check_storage_snapshot_class-Quiet :
        (provisioner : String) → Quiet (check_storage_snapshot_class K provisioner)
    check_storage_snapshot_class-Quiet provisioner r =
        check_storage_snapshot_class-Keeps K o suffix (any_permits o suffix) (report-IsClosed r)
          provisioner

    basic_stage-Judges :
        Judges
          (basic_stage K o)
          (λ (v : Bool × (Bool × (Bool × (Bool × (Bool × (Bool × Unit {0})))))).
            (if o.in_cluster then true else v.0)
            && v.1.0
            && (if o.in_cluster then true else v.1.1.0)
            && v.1.1.1.0
            && v.1.1.1.1.0
            && v.1.1.1.1.1.0)
          (λ v.
            local_check o kubectl v.0
            ++ ((access, v.1.0)
                ∷ (local_check o helm v.1.1.0
                    ++ ((kubernetes_version, v.1.1.1.0)
                        ∷ (rbac, v.1.1.1.1.0)
                        ∷ (snapshot_crds, v.1.1.1.1.1.0)
                        ∷ []))))
    unfolding basic_stage
    basic_stage-Judges =
        Judges-bind _ _ _ _ _ _
          (tool_stage-Judges o _ _ λ r. validate_binary-Keeps (report-IsClosed r) _)
          λ a.
            Judges-bind _ _ _ _ _ _
              (judged-Judges _ _ λ r. validate_cluster_access-Keeps (report-IsClosed r) _)
              λ b.
                Judges-bind _ _ _ _ _ _
                  (tool_stage-Judges o _ _
                    λ r. validate_system_helm_version-Keeps (report-IsClosed r))
                  λ c.
                    Judges-bind _ _ _ _ _ _
                      (judged-Judges _ _
                        λ r. validate_kubernetes_version-Keeps (report-IsClosed r) _)
                      λ d.
                        Judges-bind _ _ _ _ _ _
                          (judged-Judges _ _
                            λ r. validate_kubernetes_rbac-Keeps (report-IsClosed r) _ _)
                          λ e.
                            Judges-bind _ _ _ _ _ _ (judged-Judges _ _ check_snapshot_crds-Quiet)
                              λ f. Judges-const tt _

    scope_stage-Judges : Judges (scope_stage K o suffix) (scope_value o) (volume_check o)
    unfolding scope_stage
    scope_stage-Judges =
        Judges-if (o.scope == "cluster")
          (judged-Judges _ _ λ r.
            validate_cluster_scope_volume_snapshot-Keeps o suffix (any_permits o suffix)
              (report-IsClosed r))
          (Judges-if (o.scope == "namespace")
            (judged-Judges _ _ λ r.
              validate_namespace_scope_volume_snapshot-Keeps o suffix (any_permits o suffix)
                (report-IsClosed r))
            (Judges-const true true))

    volume_stage-Judges :
        (storage : Bool)
        → Judges
            (volume_stage K o suffix storage)
            (λ (v : Bool × (Bool × Unit {0})). if storage then v.0 && scope_value o v.1.0 else true)
            (λ v.
              if storage then (namespace_permissions, v.0) ∷ (volume_check o v.1.0 ++ []) else [])
    unfolding volume_stage
    volume_stage-Judges false = Judges-const (true, (true, tt)) true
    volume_stage-Judges true =
        Judges-bind _ _ _ _ _ _
          (judged-Judges _ _ λ r. validate_namespace_permissions-Keeps (report-IsClosed r))
          λ a. Judges-bind _ _ _ _ _ _ scope_stage-Judges λ b. Judges-const tt _

    snapshot_class_stage-Judges :
        (sc : Option String)
        → Judges
            (snapshot_class_stage K sc)
            (λ b. is_some sc && b)
            (λ b. if is_some sc then (storage_snapshot_class, b) ∷ [] else [])
    unfolding snapshot_class_stage
    snapshot_class_stage-Judges none = Judges-const false false
    snapshot_class_stage-Judges (some provisioner) =
        judged-Judges _ _ (check_storage_snapshot_class-Quiet provisioner)

    storage_stage-Judges :
        Judges
          (storage_stage K o suffix)
          (λ (v : Option String
              × (Bool × (Bool × (Bool × ((Bool × (Bool × Unit {0})) × Unit {0}))))).
            let storage = is_some v.0 && v.1.1.0 in
            v.1.0
            && storage
            && v.1.1.1.0
            && (if storage then v.1.1.1.1.0.0 && scope_value o v.1.1.1.1.0.1.0 else true))
          (λ v.
            (snapshot_class_found, is_some v.0)
            ∷ (pod_capability, v.1.0)
            ∷ ((if is_some v.0 then (storage_snapshot_class, v.1.1.0) ∷ [] else [])
                ++ ((dns, v.1.1.1.0)
                    ∷ ((if is_some v.0 && v.1.1.0
                          then (namespace_permissions, v.1.1.1.1.0.0)
                            ∷ (volume_check o v.1.1.1.1.0.1.0 ++ [])
                          else [])
                        ++ []))))
    unfolding storage_stage
    storage_stage-Judges =
        Judges-bind _ _ _ _ _ _ (judged_value-Judges _ _ λ r. (report-IsClosed r).asks _) λ sc.
          Judges-bind _ _ _ _ _ _
            (judged-Judges _ _ λ r.
              validate_required_pod_capabilities-Keeps o suffix (any_permits o suffix)
                (report-IsClosed r))
            λ a. Judges-bind _ _ _ _ _ _ (snapshot_class_stage-Judges sc) λ storage.
              Judges-bind _ _ _ _ _ _
                (judged-Judges _ _ λ r.
                  validate_dns_resolution-Keeps o suffix (any_permits o suffix) (report-IsClosed r))
                λ b.
                  Judges-bind _ _ _ _ _ _ (volume_stage-Judges (is_some sc && storage))
                    λ c. Judges-const tt _

    -- The checks of a run never end with an error: whatever the cluster answers, there are
    -- verdicts such that the checks report what `expected_report` lists for them, after what was
    -- reported before, and return whether all of the reported verdicts passed.
    pub all_checks-report :
        (w : World K)
        → (v : Verdicts) × ((all_checks K o suffix w).0 ≡ ok (all_passed (expected_report o v)))
          × ((all_checks K o suffix w).1.report ≡ w.report ++ expected_report o v)
    unfolding all_checks
    all_checks-report w =
        let (u, all_added) =
          (Judges-bind _ _ _ _ _ _ basic_stage-Judges
              λ a. Judges-bind _ _ _ _ _ _ storage_stage-Judges λ b. Judges-const tt _).judges
            w in
        let (b, (s, _)) = u in
        let v : Verdicts = record {
          has_kubectl = b.0;
          has_access = b.1.0;
          has_helm = b.1.1.0;
          has_version = b.1.1.1.0;
          has_rbac = b.1.1.1.1.0;
          has_crds = b.1.1.1.1.1.0;
          has_class = is_some s.0;
          has_capability = s.1.0;
          has_snapshot_class = s.1.1.0;
          has_dns = s.1.1.1.0;
          has_permissions = s.1.1.1.1.0.0;
          has_volume = s.1.1.1.1.0.1.0;
        } in
        (
          v,
          all_added.returned
              ∙ ap ok (
                  (λ i. basic_value o v i && storage_value o v i)
                  ∙ sym (
                      all-append (λ (p : Check × Bool). p.1) (basic_report o v)
                        (storage_report o v))),
          all_added.reported
              ∙ ap (λ (r : List (Check × Bool)). w.report ++ (basic_report o v ++ r))
                  (append-nil _
                    ∙ ap
                        (λ (r : List (Check × Bool)).
                          (snapshot_class_found, v.has_class)
                          ∷ (pod_capability, v.has_capability)
                          ∷ ((if v.has_class
                                then (storage_snapshot_class, v.has_snapshot_class) ∷ []
                                else [])
                              ++ ((dns, v.has_dns) ∷ r)))
                        (nested_volumes o (v.has_class && v.has_snapshot_class) v.has_permissions
                          v.has_volume)),
        )
