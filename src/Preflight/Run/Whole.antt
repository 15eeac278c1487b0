-- ===== src/Preflight/Run/Whole.antt =====
-- `PerformPreflightChecks` of tools/preflight/preflight.go as a whole: what it sends, and how it ends.
use tvk_plugins.Base.{
  String, Bool, true, false, ◌||◌, ◌≡◌, refl, sym, ap, ◌∙◌, ◌⊎◌, inl, inr, List, [], ◌++◌,
  append-nil, if◌then◌else◌, Bool-cases,
}
use tvk_plugins.Action.{
  Error, Result, ok, err, failure, Action, lift, pure, raise, ◌>>=◌, ◌>>◌, ok->>=,
}
use tvk_plugins.Action.Keeps.{Keeps, Keeps-bind, Keeps-pure, Keeps-raise, Keeps-attempt, Keeps-if}
use tvk_plugins.Kube.{Externals, Cluster, World, Request, Check, ask, send}
use tvk_plugins.Kube.Trace.{Extends, Extends-trans, verdict-Extends}
use tvk_plugins.Kube.Closed.{IsClosed}
use tvk_plugins.Preflight.Options.{Run}
use tvk_plugins.Preflight.Suffix.{create_resource_name_suffix}
use tvk_plugins.Preflight.Cleanup.{Cleanup, cleanup_preflight_resources}
use tvk_plugins.Preflight.Cleanup.Safety.{
  IsHonest, IsCleanupRequest, cleanup_preflight_resources-IsCleanupRequest,
}
use tvk_plugins.Preflight.Run.{all_checks, cleanup_stage, perform_preflight_checks}
use tvk_plugins.Preflight.Run.Requests.{IsNaming, IsProbe, IsRunRequest, Permits}
use tvk_plugins.Preflight.Run.Classes.{create_resource_name_suffix-Keeps}
use tvk_plugins.Preflight.Run.Safety.{Extends-IsClosed, all_checks-Keeps}
use tvk_plugins.Preflight.Run.Expected.{Verdicts, expected_report, all_passed}
use tvk_plugins.Preflight.Run.Report.{report-IsClosed, all_checks-report}

module _ {X : Externals} (K : Cluster X) (o : Run X) where
  -- The cleanup that a run does of its own resources.
  abbrev pub own_cleanup : String → Cleanup
  own_cleanup suffix = record { uid = suffix; namespace = o.namespace }

  -- A request of the checks of the run or of its cleanup.
  abbrev pub IsWholeRequest : String → Request X → Type 0
  IsWholeRequest suffix q = IsRunRequest o suffix q ⊎ IsCleanupRequest (own_cleanup suffix) q

  -- Drawing a suffix sends nothing.
  trace-IsClosed : (t : List (Request X)) → IsClosed {K = K} (λ _. ⊥) (λ (w : World K). w.trace ≡ t)
  unfolding ask send
  trace-IsClosed t = record {
    asks = λ call. record { after = λ w h. h };
    sends = λ q call no. elim no [ ];
    sets = λ w wanted found h. h;
  }

  create_resource_name_suffix-trace :
      (w : World K) → (create_resource_name_suffix K w).1.trace ≡ w.trace
  create_resource_name_suffix-trace w =
      (create_resource_name_suffix-Keeps (trace-IsClosed w.trace)).after w refl

  create_resource_name_suffix-report :
      (w : World K) → (create_resource_name_suffix K w).1.report ≡ w.report
  create_resource_name_suffix-report w =
      (create_resource_name_suffix-Keeps (report-IsClosed w.report)).after w refl

  -- What follows once the suffix is drawn.
  abbrev after_suffix : String → Action (World K) (Unit {0})
  after_suffix suffix = all_checks K o suffix >>= λ status. cleanup_stage K o suffix status >>= λ _.
      if status
      then pure tt
      else raise (failure "some preflight checks failed. Check logs for more details")

  module _ (naming : IsNaming K) (honest : IsHonest K) (suffix : String) where
    whole-Permits : Permits K o suffix (IsProbe o suffix) (IsWholeRequest suffix)
    whole-Permits = record {
      requests = λ q h. inl h;
      deletes = λ t h. inl h;
      patches = λ t h. inl h;
      pods = λ m s p h probe.
          let (ns, name) = naming.gets_pod m.namespace m.name s p h in rw ns (rw name probe);
      targets = λ g m s t h probe.
          let (ns, name) = naming.gets_target g m.namespace m.name s t h in rw ns (rw name probe);
    }

    module _ (before : List (Request X)) where
      abbrev Whole : World K → Type 0
      Whole = Extends {K = K} (IsWholeRequest suffix) before

      cleanup-Whole : Keeps Whole (cleanup_preflight_resources K (own_cleanup suffix))
      cleanup-Whole = record {
        after = λ w h.
            Extends-trans (λ q own. inr own) h
              (cleanup_preflight_resources-IsCleanupRequest K honest (own_cleanup suffix) w);
      }

      cleanup_stage-Whole : (status : Bool) → Keeps Whole (cleanup_stage K o suffix status)
      unfolding cleanup_stage
      cleanup_stage-Whole status =
          Keeps-if (status || o.perform_cleanup_on_fail) _ _
            (Keeps-bind _ _ (Keeps-attempt _ cleanup-Whole) (λ _. Keeps-pure tt)) (Keeps-pure tt)

      after_suffix-Whole : Keeps Whole (after_suffix suffix)
      after_suffix-Whole =
          Keeps-bind _ _
            (all_checks-Keeps K o suffix whole-Permits (Extends-IsClosed K _ before)
              (verdict-Extends _ before))
            λ status.
              Keeps-bind _ _ (cleanup_stage-Whole status)
                (λ _. Keeps-if status _ _ (Keeps-pure tt) (Keeps-raise _))

  module _ (naming : IsNaming K) (honest : IsHonest K) where
    drawn-Whole :
        (before : List (Request X)) (r : Result String) (v : World K)
        → v.trace ≡ before
        → (suffix : String) × Extends (IsWholeRequest suffix) before ((lift r >>= after_suffix) v).1
    unfolding ◌>>=◌
    drawn-Whole before (err e) v h =
        ("", record { added = []; is_extended = h ∙ sym (append-nil before); holds = tt })
    drawn-Whole before (ok suffix) v h = (
      suffix,
      (after_suffix-Whole naming honest suffix before).after v
          (record { added = []; is_extended = h ∙ sym (append-nil before); holds = tt }),
    )

    -- On a cluster whose answers are what was asked for, there is one suffix such that every
    -- request that a whole run sends is either one that its checks may send under that suffix or
    -- one that the cleanup of that suffix, in the run's namespace, may send.
    pub perform_preflight_checks-IsWholeRequest :
        (w : World K)
        → (suffix : String) × Extends
            (IsWholeRequest suffix)
            w.trace
            (perform_preflight_checks K o w).1
    unfolding perform_preflight_checks ◌>>=◌
    perform_preflight_checks-IsWholeRequest w =
        drawn-Whole w.trace (create_resource_name_suffix K w).0 (create_resource_name_suffix K w).1
          (create_resource_name_suffix-trace w)

  -- The world after the checks of a run whose suffix is drawn.
  abbrev pub checked : String → World K → World K
  checked suffix w = (all_checks K o suffix (create_resource_name_suffix K w).1).1

  abbrev pub outcome : Bool → Result (Unit {0})
  outcome true = ok tt
  outcome false = err (failure "some preflight checks failed. Check logs for more details")

  abbrev pub cleaned : String → Bool → World K → World K
  cleaned suffix status w =
      if status || o.perform_cleanup_on_fail
      then (cleanup_preflight_resources K (own_cleanup suffix) w).1
      else w

  finish :
      (suffix : String) (status : Bool) (w : World K)
      → ((cleanup_stage K o suffix status >>= λ _.
            if status
            then pure tt
            else raise (failure "some preflight checks failed. Check logs for more details"))
          w)
        ≡ (outcome status, cleaned suffix status w)
  unfolding cleanup_stage ◌>>=◌ tvk_plugins.Action.attempt pure raise
  finish suffix true w = refl
  finish suffix false w = elim (Bool-cases o.perform_cleanup_on_fail) [
    | inl h ↦ rw h refl
    | inr h ↦ rw h refl
  ]

  -- A run whose suffix is drawn always ends: there are verdicts such that its checks have reported
  -- what is expected of them; it succeeds exactly when all reported verdicts passed, and fails with
  -- its one error otherwise, whatever the cleanup returns; and after the checks it does the cleanup
  -- of its own suffix and namespace if they passed or cleanup on failure is set, and nothing
  -- otherwise.
  pub perform_preflight_checks-ends :
      (w : World K) (suffix : String)
      → (create_resource_name_suffix K w).0 ≡ ok suffix
      → (v : Verdicts) × ((checked suffix w).report ≡ w.report ++ expected_report o v)
        × (perform_preflight_checks K o w ≡ (
          outcome (all_passed (expected_report o v)),
          cleaned suffix (all_passed (expected_report o v)) (checked suffix w),
        ))
  unfolding perform_preflight_checks
  perform_preflight_checks-ends w suffix drawn =
      let (v, result, reported) =
        all_checks-report {K = K} o suffix (create_resource_name_suffix K w).1 in
      (
        v,
        reported
            ∙ ap (λ (r : List (Check × Bool)). r ++ expected_report o v)
                (create_resource_name_suffix-report w),
        ok->>= _ _ w suffix drawn ∙ ok->>= _ _ _ _ result ∙ finish suffix _ _,
      )

  -- A run whose suffix cannot be drawn ends with that error; it has sent and reported nothing.
  pub perform_preflight_checks-err :
      (w : World K) (e : Error)
      → (create_resource_name_suffix K w).0 ≡ err e
      → ((perform_preflight_checks K o w).0 ≡ err e)
        × ((perform_preflight_checks K o w).1.trace ≡ w.trace)
        × ((perform_preflight_checks K o w).1.report ≡ w.report)
  unfolding perform_preflight_checks ◌>>=◌
  perform_preflight_checks-err w e h =
      rw h (refl, create_resource_name_suffix-trace w, create_resource_name_suffix-report w)
