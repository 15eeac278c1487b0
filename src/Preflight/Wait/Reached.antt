-- ===== src/Preflight/Wait/Reached.antt =====
-- What a wait or a remote command that succeeds has seen: `waitUntilPodCondition`,
-- `waitUntilVolSnapReadyToUse` and `execInPod` of tools/preflight/helper.go.
use tvk_plugins.Base.{
  String, Bool, true, false, ◌||◌, ◌==◌, eq_iff, ◌≡◌, ◌≢◌, ◌↔◌, refl, ap, ◌∙◌, ◌⊎◌, Option, none,
  some, List, [], ◌∷◌, arith, if◌then◌else◌,
}
use tvk_plugins.Action.{
  Error, Result, ok, err, failure, Action, pure, lift, ◌>>=◌, ok-injective, >>=-eq-ok,
}
use tvk_plugins.Kube.{
  Externals, Gvk, Pod, Condition, Cluster, World, Backoff, ExecOptions, Response, ask,
}
use tvk_plugins.Preflight.Options.{
  storage_snapshot_group, volume_snapshot_kind, default_retry_backoff_params,
}
use tvk_plugins.Preflight.Wait.{
  has_condition, wait_response, condition_error, ready_or_error, pod_has_condition, wait_on_pod,
  wait_until_pod_condition, snapshot_is_ready, wait_until_snapshot_ready, exec_in_container,
  first_response, exec_in_pod,
}

-- What `wait.ExponentialBackoff` documents: it returns no error only once its condition held.
pub record IsBackoff {X : Externals} (K : Cluster X) : Type 0 where
  pub held :
      (b : Backoff) (condition : Action K.State Bool) (s : K.State)
      → (K.backoff b condition s).0 ≡ ok tt
      → (t : K.State) × ((condition t).0 ≡ ok true)

-- Some condition of the pod is the one waited for, and true.
abbrev pub Holds : String → List Condition → Type 0
Holds kind [] = ⊥
Holds kind (c ∷ cs) = ((c.status ≡ "True") × (c.kind ≡ kind)) ⊎ Holds kind cs

has_condition-Holds :
    (kind : String) (cs : List Condition) → has_condition kind cs ≡ true → Holds kind cs
unfolding has_condition
has_condition-Holds kind [] h = cc h
has_condition-Holds kind (c ∷ cs) h =
    ground (arith, eq_iff c.status "True", eq_iff c.kind kind, has_condition-Holds kind cs)

reached :
    (name kind : String) (r : Result (Unit {0}))
    → condition_error name kind (wait_response r) ≡ ok tt
    → r ≡ ok tt
unfolding condition_error wait_response
reached name kind (ok tt) h = refl
reached name kind (err e) h = cc h

ready : (r : Result (Option Bool)) → ready_or_error r ≡ ok true → r ≡ ok (some true)
unfolding ready_or_error
ready (ok (some true)) h = refl
ready (ok (some false)) h = cc h
ready (ok none) h = cc h
ready (err e) h = cc h

named : (name : String) → name ≢ "" → (name == "") ≡ false
named name h = ground (arith, eq_iff name "", h)

-- The first message on the channel, from the three tests.
first_message :
    {X : Externals} (K : Cluster X) (op : ExecOptions) (late no_pod no_container : Bool)
    (refusal : Error) (text errors : String) (e : Option Error)
    → (first_response K op late (
          if no_pod || no_container
          then record { stdout = ""; stderr = ""; error = some refusal }
            ∷ record { stdout = text; stderr = errors; error = e }
            ∷ []
          else record { stdout = text; stderr = errors; error = e } ∷ [])
        ≡ ok tt)
      ↔ ((late ≡ false) × (no_pod ≡ false) × (no_container ≡ false) × (e ≡ none))
unfolding first_response
first_message K op true no_pod no_container refusal text errors e = (λ h. cc h, λ h. cc h.0)
first_message K op false true no_container refusal text errors e = (λ h. cc h, λ h. cc h.1)
first_message K op false false true refusal text errors e = (λ h. cc h, λ h. cc h.2)
first_message K op false false false refusal text errors none =
    (λ h. (refl, refl, refl, refl), λ h. refl)
first_message K op false false false refusal text errors (some e) = (λ h. cc h, λ h. cc h.3)

module _ {X : Externals} (K : Cluster X) where
  module _ (backs_off : IsBackoff K) where
    -- Where the backoff keeps its promise: a wait for a pod that succeeds has read the pod of that
    -- name, at some moment, with the wanted condition true.
    pub wait_until_pod_condition-reached :
        (ns name kind : String) (w : World K)
        → (wait_until_pod_condition K ns name kind w).0 ≡ ok tt
        → (s : K.State) × ((p : Pod X) × ((K.get_pod ns name s).0 ≡ ok p) × Holds kind p.conditions)
    unfolding wait_until_pod_condition wait_on_pod pod_has_condition ask ◌>>=◌
        tvk_plugins.Action.attempt pure lift
    wait_until_pod_condition-reached ns name kind w h =
        let (s, seen) =
          backs_off.held default_retry_backoff_params (pod_has_condition K ns name kind) w.cluster
            (reached name kind _ h) in
        let (p, got, holds) = >>=-eq-ok (K.get_pod ns name) _ s true seen in
        (s, (p, got, has_condition-Holds kind p.conditions (ok-injective _ true holds)))

    -- Where the backoff keeps its promise: a wait for a snapshot that succeeds has read, at some
    -- moment, that the snapshot of that name is ready to use.
    pub wait_until_snapshot_ready-reached :
        (ns name version : String) (b : Backoff) (w : World K)
        → (wait_until_snapshot_ready K ns name version b w).0 ≡ ok tt
        → (s : K.State) × ((K.get_ready
              (record {
                group = storage_snapshot_group;
                version = version;
                kind = volume_snapshot_kind;
              })
              ns
              name
              s).0
            ≡ ok (ok (some true)))
    unfolding wait_until_snapshot_ready snapshot_is_ready ask lift
    wait_until_snapshot_ready-reached ns name version b w h =
        let (s, seen) = backs_off.held b _ w.cluster h in
        let (r, got, now) = >>=-eq-ok (K.get_ready _ ns name) _ s true seen in
        (s, got ∙ ap ok (ready r now))

  -- A remote command succeeds exactly when the timer did not fire first, the pod and the container
  -- are named, and the command's answer has no error.
  pub exec_in_pod-eq-ok :
      (op : ExecOptions) (w : World K)
      → ((exec_in_pod K op w).0 ≡ ok tt) ↔ (
          (K.timed_out w.cluster ≡ false)
          × (op.pod_name ≢ "")
          × (op.container_name ≢ "")
          × ((K.stream op w.cluster).0.error ≡ none))
  unfolding exec_in_pod exec_in_container ask tvk_plugins.Kube.send ◌>>=◌ pure lift
  exec_in_pod-eq-ok op w =
      let (to, from) =
        first_message K op (K.timed_out w.cluster) (op.pod_name == "") (op.container_name == "") _
          (K.stream op w.cluster).0.stdout (K.stream op w.cluster).0.stderr
          (K.stream op w.cluster).0.error in
      (
        λ h.
            let (on_time, pod, container, clean) = to h in
            (
              on_time,
              (λ same. cc (pod, (eq_iff op.pod_name "").1 same)),
              (λ same. cc (container, (eq_iff op.container_name "").1 same)),
              clean,
            ),
        λ h.
            let (on_time, pod, container, clean) = h in
            from (on_time, named op.pod_name pod, named op.container_name container, clean),
      )
