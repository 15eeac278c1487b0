-- ===== src/Preflight/Wait.antt =====
-- tools/preflight/wait and tools/preflight/exec, and their callers in tools/preflight/helper.go.
pub mod Reached
use tvk_plugins.Base.{
  String, ◌<>◌, Bool, true, false, ◌&&◌, ◌||◌, Option, none, some, List, [], ◌∷◌, ◌==◌,
  if◌then◌else◌,
}
use tvk_plugins.Action.{Error, failure, Result, ok, err, Action, pure, lift, attempt, ◌>>=◌}
use tvk_plugins.Kube.{
  Externals, Gvk, Condition, Backoff, ExecOptions, Response, Cluster, World, executed, ask, send,
}
use tvk_plugins.Preflight.Options.{
  storage_snapshot_group, volume_snapshot_kind, default_retry_backoff_params,
}

-- The loop over the pod's conditions in `WaitOnPod`.
unfoldable pub has_condition : String → List Condition → Bool
has_condition kind [] = false
has_condition kind (c ∷ cs) = c.status == "True" && c.kind == kind || has_condition kind cs

-- `wait.Response`
pub record WaitResponse : Type 0 where
  pub reached : Bool
  pub error : Option Error

unfoldable pub wait_response : Result (Unit {0}) → WaitResponse
wait_response (err e) = record { reached = false; error = some e }
wait_response (ok _) = record { reached = true; error = none }

unfoldable pub condition_error : String → String → WaitResponse → Result (Unit {0})
condition_error name kind r = elim r.error [
  | some e ↦ err e
  | none ↦
      if r.reached
      then ok tt
      else err (failure ("pod " <> name <> " hasn't reached into " <> kind <> " state"))
]

-- The last lines of the condition of `waitUntilVolSnapReadyToUse`.
unfoldable pub ready_or_error : Result (Option Bool) → Result Bool
ready_or_error (ok (some true)) = ok true
ready_or_error (ok _) = ok false
ready_or_error (err e) = err e

abbrev pub pod_ready : String
pod_ready = "Ready"

module _ {X : Externals} (K : Cluster X) where
  -- The condition that `WaitOnPod` hands to `wait.ExponentialBackoff`.
  unfoldable pub pod_has_condition : String → String → String → Action K.State Bool
  unfolding has_condition
  pod_has_condition ns name kind = do p ← K.get_pod ns name; pure (has_condition kind p.conditions)

  unfoldable pub wait_on_pod : String → String → String → Backoff → Action (World K) WaitResponse
  unfolding pod_has_condition wait_response
  wait_on_pod ns name kind backoff = do
    r ← attempt (ask K (K.backoff backoff (pod_has_condition ns name kind)))
    pure (wait_response r)

  unfoldable pub wait_until_pod_condition : String → String → String → Action (World K) (Unit {0})
  unfolding wait_on_pod condition_error
  wait_until_pod_condition ns name kind = do
    r ← wait_on_pod ns name kind default_retry_backoff_params
    lift (condition_error name kind r)

  unfoldable pub snapshot_is_ready : Gvk → String → String → Action K.State Bool
  unfolding ready_or_error
  snapshot_is_ready gvk ns name = do ready ← K.get_ready gvk ns name; lift (ready_or_error ready)

  unfoldable pub wait_until_snapshot_ready :
      String → String → String → Backoff → Action (World K) (Unit {0})
  unfolding snapshot_is_ready
  wait_until_snapshot_ready ns name version backoff =
      let gvk : Gvk = record {
        group = storage_snapshot_group;
        version = version;
        kind = volume_snapshot_kind;
      } in
      ask K (K.backoff backoff (snapshot_is_ready gvk ns name))

  -- What `ExecInContainer` sends on its channel, in order. After the first message about an empty
  -- name it goes on to run the command.
  unfoldable pub exec_in_container : ExecOptions → Action (World K) (List Response)
  exec_in_container op = do
    r ← send K (executed op) (λ s. let (answer, s') = K.stream op s in (ok answer, s'))
    let refusal : Response = record {
      stdout = "";
      stderr = "";
      error = some (failure "pod name or container name is empty");
    }
    pure (if op.pod_name == "" || op.container_name == "" then refusal ∷ r ∷ [] else r ∷ [])

  -- The `select`: the first message, or the timer of three minutes.
  unfoldable pub first_response : ExecOptions → Bool → List Response → Result (Unit {0})
  first_response op timeout messages =
      let late = err (
        failure (
          "exec operation took too long on container " <> op.container_name <> " in pod "
          <> op.pod_name)) in
      if timeout
      then late
      else elim messages [ [] ↦ late | m ∷ _ ↦ elim m.error [ none ↦ ok tt | some e ↦ err e ] ]

  unfoldable pub exec_in_pod : ExecOptions → Action (World K) (Unit {0})
  unfolding exec_in_container first_response
  exec_in_pod op = do
    timeout ← ask K (λ s. (ok (K.timed_out s), s))
    messages ← exec_in_container op
    lift (first_response op timeout messages)
