-- ===== src/Cmd/PreflightInputs.antt =====
-- The inputs of the preflight plugin, from its config file and its flags, and the tests on them:
-- cmd/preflight/cmd/helper.go, run.go and cleanup.go.
pub mod Validated
use Prim.Native.String.{len}
use tvk_plugins.Base.{
  ℕ, String, ◌==◌, Bool, true, false, not, ◌||◌, ◌&&◌, if◌then◌else◌, Option, none, some, List, [],
  ◌∷◌, nat_eq, ◌<>◌,
}
use tvk_plugins.Base.Dict.{Dict, insert, get_or}
use tvk_plugins.Action.{Error, Result, ok, err, failure, message}
use tvk_plugins.Program.{Outcome, done, failed, exited, panicked, of_result}
use tvk_plugins.Kube.{Externals, Resources}
use tvk_plugins.Preflight.Options.{Scheduling}
use tvk_plugins.Cmd.Pairs.{parse_node_selector_labels, populate_resource_list}

-- `CommonOptions`
pub record Common : Type 0 where
  pub namespace : String
  pub kubeconfig : String
  pub log_level : String
  pub in_cluster : Bool
  pub scope : String

-- The variables of the flags, and `cmd.Flags().Changed`. The common ones have the defaults that the
-- flags are declared with.
pub record Flags : Type 0 where
  pub common : Common
  pub storage_class : String
  pub snapshot_class : String
  pub local_registry : String
  pub image_pull_secret : String
  pub service_account : String
  pub cleanup_on_failure : Bool
  pub pvc_storage_request : String
  pub node_selector : String
  pub pod_requests : String
  pub pod_limits : String
  pub cleanup_uid : String
  pub changed : String → Bool

unfoldable pub update_common_inputs_from_cli : Flags → Common → Common
update_common_inputs_from_cli f c = record {
  namespace =
      if f.changed "namespace" || c.namespace == "" then f.common.namespace else c.namespace;
  kubeconfig =
      if f.changed "kubeconfig" || c.kubeconfig == "" then f.common.kubeconfig else c.kubeconfig;
  log_level =
      if f.changed "log-level" || c.log_level == "" then f.common.log_level else c.log_level;
  in_cluster = if f.changed "in-cluster" || c.in_cluster then f.common.in_cluster else c.in_cluster;
  scope = if f.changed "scope" || c.scope == "" then f.common.scope else c.scope;
}

-- `cmdOps.Run`
pub record RunInputs (X : Externals) : Type 0 where
  pub common : Common
  pub storage_class : String
  pub snapshot_class : String
  pub local_registry : String
  pub image_pull_secret : String
  pub service_account_name : String
  pub perform_cleanup_on_fail : Bool
  pub pvc_storage_request : X.Quantity
  pub resources : Resources X
  pub scheduling : Scheduling X

-- The functions of `resource.Quantity` that the code calls: `ParseQuantity`, the tests
-- `q.Value() == 0` and `p.Value() > q.Value()`, and the comparison of `AsApproximateFloat64`.
pub record Quantities (X : Externals) : Type 0 where
  pub parse : String → Result X.Quantity
  pub is_zero : X.Quantity → Bool
  pub exceeds : X.Quantity → X.Quantity → Bool
  pub exceeds_float : X.Quantity → X.Quantity → Bool

infixl 10 ◌>>=◌
unfoldable pub ◌>>=◌ : {A B : Type 0} → Result A → (A → Result B) → Result B
ok a >>= f = f a
err e >>= f = err e

module _ {X : Externals} where
  module _ (Q : Quantities X) where
    -- `Cpu` and `Memory` of a resource list: zero where the key is missing.
    abbrev pub cpu_of : Dict X.Quantity → X.Quantity
    cpu_of rs = get_or "cpu" X.zero_quantity rs

    abbrev pub memory_of : Dict X.Quantity → X.Quantity
    memory_of rs = get_or "memory" X.zero_quantity rs

    -- An error of one of these parses is a panic of `resource.MustParse`.
    unfoldable pub set_res_req_default_values : Result (Resources X)
    set_res_req_default_values = do
      request_cpu ← Q.parse "25m"
      request_memory ← Q.parse "64Mi"
      limit_cpu ← Q.parse "500m"
      limit_memory ← Q.parse "128Mi"
      ok (record {
        requests = ("cpu", request_cpu) ∷ ("memory", request_memory) ∷ [];
        limits = ("cpu", limit_cpu) ∷ ("memory", limit_memory) ∷ [];
      })

    -- What a flag names replaces the entries of CPU and memory, unless it is zero.
    abbrev pub merge : Dict X.Quantity → Dict X.Quantity → Dict X.Quantity
    merge flag rs =
        let with_cpu = if Q.is_zero (cpu_of flag) then rs else insert "cpu" (cpu_of flag) rs in
        if Q.is_zero (memory_of flag) then with_cpu else insert "memory" (memory_of flag) with_cpu

    unfoldable pub merge_from_cli : String → Dict X.Quantity → Result (Dict X.Quantity)
    unfolding populate_resource_list
    merge_from_cli flag rs =
        if flag == "" then ok rs else populate_resource_list Q.parse flag >>= λ l. ok (merge l rs)

    unfoldable pub update_res_req_from_cli : Flags → Resources X → Result (Resources X)
    unfolding merge_from_cli
    update_res_req_from_cli f r = do
      requests ← merge_from_cli f.pod_requests r.requests
      limits ← merge_from_cli f.pod_limits r.limits
      ok (record { requests = requests; limits = limits })

    abbrev node_selector_error : {A : Type 0} → Result A → Result A
    node_selector_error (ok a) = ok a
    node_selector_error (err e) =
        err (failure ("problem updating node selector labels :: " <> message e))

    unfoldable pub update_node_selector_labels_from_cli :
        Flags → Scheduling X → Result (Scheduling X)
    unfolding parse_node_selector_labels
    update_node_selector_labels_from_cli f s =
        if f.changed "node-selector"
        then parse_node_selector_labels f.node_selector
          >>= (λ labels. ok (record s { node_selector = labels }))
        else ok s

    -- `resource.MustParse`
    abbrev must_parse : String → Outcome X.Quantity
    must_parse text = elim (Q.parse text) [ ok q ↦ done q | err e ↦ panicked ]

    -- The size of the claim: from the flag, else from the file, else the default.
    unfoldable pub storage_request : Flags → X.Quantity → Outcome X.Quantity
    storage_request f q =
        if f.changed "pvc-storage-request"
        then must_parse f.pvc_storage_request
        else if Q.is_zero q
        then must_parse "1Gi"
        else done q

    -- What is left to override once the size of the claim is known.
    unfoldable pub override_with_size : Flags → RunInputs X → X.Quantity → Result (RunInputs X)
    unfolding update_common_inputs_from_cli update_node_selector_labels_from_cli
        update_res_req_from_cli
    override_with_size f r size = do
      scheduling ← node_selector_error (update_node_selector_labels_from_cli f r.scheduling)
      resources ← update_res_req_from_cli f r.resources
      ok (record {
        common = update_common_inputs_from_cli f r.common;
        storage_class = if f.changed "storage-class" then f.storage_class else r.storage_class;
        snapshot_class =
            if f.changed "volume-snapshot-class" then f.snapshot_class else r.snapshot_class;
        local_registry = if f.changed "local-registry" then f.local_registry else r.local_registry;
        image_pull_secret =
            if f.changed "image-pull-secret" then f.image_pull_secret else r.image_pull_secret;
        service_account_name =
            if f.changed "service-account" then f.service_account else r.service_account_name;
        perform_cleanup_on_fail =
            if f.changed "cleanup-on-failure"
            then f.cleanup_on_failure
            else r.perform_cleanup_on_fail;
        pvc_storage_request = size;
        resources = resources;
        scheduling = scheduling;
      })

    unfoldable pub override_preflight_file_inputs_from_cli :
        Flags → RunInputs X → Outcome (RunInputs X)
    unfolding storage_request override_with_size
    override_preflight_file_inputs_from_cli f r = elim (storage_request f r.pvc_storage_request) [
      | done size ↦ of_result (override_with_size f r size)
      | failed e ↦ failed e
      | exited ↦ exited
      | panicked ↦ panicked
    ]

    unfoldable pub validate_run_options : RunInputs X → Result (Unit {0})
    validate_run_options r =
        if r.common.namespace == ""
        then err (failure "namespace is required, cannot be empty")
        else if r.storage_class == ""
        then err (failure "storage-class is required, cannot be empty")
        else if not (r.image_pull_secret == "") && r.local_registry == ""
        then err (failure "cannot give image pull secret if local registry is not provided")
        else if Q.exceeds (memory_of r.resources.requests) (memory_of r.resources.limits)
        then err (failure "request memory cannot be greater than limit memory")
        else if Q.exceeds_float (cpu_of r.resources.requests) (cpu_of r.resources.limits)
        then err (failure "request CPU cannot be greater than limit CPU")
        else ok tt

-- `cmdOps.Cleanup`
pub record CleanupInputs : Type 0 where
  pub common : Common
  pub uid : String

unfoldable pub override_cleanup_file_inputs_from_cli : Flags → CleanupInputs → CleanupInputs
unfolding update_common_inputs_from_cli
override_cleanup_file_inputs_from_cli f c = record {
  common = update_common_inputs_from_cli f c.common;
  uid = if f.changed "uid" then f.cleanup_uid else c.uid;
}

abbrev pub preflight_uid_length : ℕ
preflight_uid_length = 6

unfoldable pub validate_cleanup_fields : CleanupInputs → Result (Unit {0})
validate_cleanup_fields c =
    if c.common.namespace == ""
    then err (failure "namespace is required, cannot be empty")
    else if not (c.uid == "") && not (nat_eq (len c.uid) preflight_uid_length)
    then err (failure "valid 6-length preflight UID must be specified")
    else ok tt
