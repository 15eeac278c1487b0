-- ===== src/Preflight/Pods.antt =====
-- The checks of tools/preflight/preflight.go that run one pod: DNS resolution and pod capabilities;
-- and `createPod`, which the volume checks use.
pub mod Resolved
use tvk_plugins.Base.{String, ◌<>◌, true, false, List, [], ◌∷◌}
use tvk_plugins.Action.{failure, Action, pure, lift, attempt, ◌>>=◌, ◌>>◌}
use tvk_plugins.Kube.{
  Externals, Pod, Target, go_pod, pod_object, ExecOptions, Cluster, World, created, ask, send,
}
use tvk_plugins.Preflight.Options.{Run}
use tvk_plugins.Preflight.Specs.{Capability, dns_pod_spec, pod_spec_with_capability}
use tvk_plugins.Preflight.Delete.{delete_k8s_resource}
use tvk_plugins.Preflight.Wait.{pod_ready, wait_until_pod_condition, exec_in_pod}
use tvk_plugins.Preflight.Checks.{map_error}

-- A pod as the runtime client takes it: the typed client leaves the kind empty.
unfoldable pub pod_target : {X : Externals} → Pod X → Target
pod_target p = record {
  go_type = go_pod;
  gvk = record { group = ""; version = ""; kind = "" };
  metadata = p.metadata;
}

-- The cases of `validateRequiredPodCapabilities`, with the index that goes into the pod's name.
abbrev pub validation_cases : List (String × Capability)
validation_cases =
    ("0", record { user_id = 0; allow_privilege_escalation = true; privileged = true })
    ∷ ("1", record { user_id = 1001; allow_privilege_escalation = false; privileged = false })
    ∷ ("2", record { user_id = 101; allow_privilege_escalation = true; privileged = false })
    ∷ []

module _ {X : Externals} (K : Cluster X) where
  -- A pod is created, waited for and read again.
  unfoldable pub create_pod_and_wait : String → Pod X → Action (World K) (Pod X)
  create_pod_and_wait ns p = do
    _ ← send K (created (pod_object p)) (K.create_pod ns p)
    wait_until_pod_condition K ns p.metadata.name pod_ready
    ask K (K.get_pod ns p.metadata.name)

  -- Deleting a pod that has done its work; a failure is only logged.
  unfoldable pub delete_pod_quietly : Pod X → Action (World K) (Unit {0})
  unfolding pod_target
  delete_pod_quietly p = do _ ← attempt (delete_k8s_resource K (pod_target p)); pure tt

  unfoldable pub create_pod : Pod X → Action (World K) (Pod X)
  unfolding map_error
  create_pod spec = do
    let ns = spec.metadata.namespace
    p ← send K (created (pod_object spec)) (K.create_pod ns spec)
    r ← attempt (wait_until_pod_condition K p.metadata.namespace p.metadata.name pod_ready)
    lift (
        map_error
          (λ _.
            failure
              ("pod: " <> ns <> "/" <> spec.metadata.name <> ", hasn't reached into ready state"))
          r)
    ask K (K.get_pod p.metadata.namespace p.metadata.name)

  module _ (o : Run X) where
    unfoldable pub create_dns_pod_on_cluster : String → Action (World K) (Pod X)
    unfolding create_pod_and_wait
    create_dns_pod_on_cluster suffix = create_pod_and_wait o.namespace (dns_pod_spec o suffix)

    unfoldable pub validate_dns_resolution : String → Action (World K) (Unit {0})
    unfolding create_dns_pod_on_cluster delete_pod_quietly map_error
    validate_dns_resolution suffix = do
      p ← create_dns_pod_on_cluster suffix
      let op : ExecOptions = record {
        namespace = o.namespace;
        command = "nslookup" ∷ "kubernetes.default" ∷ [];
        pod_name = p.metadata.name;
        container_name = "dnsutils";
      }
      r ← attempt (exec_in_pod K op)
      lift (
          map_error
            (λ _. failure "not able to resolve DNS 'kubernetes.default' service inside pods") r)
      delete_pod_quietly p

    unfoldable pub validate_pod_capability : String → Capability → Action (World K) (Unit {0})
    unfolding create_pod_and_wait delete_pod_quietly
    validate_pod_capability suffix c = do
      p ← create_pod_and_wait o.namespace (pod_spec_with_capability o suffix c)
      delete_pod_quietly p

    -- The loop ends at the first case that fails.
    unfoldable pub validate_cases :
        String → List (String × Capability) → Action (World K) (Unit {0})
    unfolding validate_pod_capability
    validate_cases suffix [] = pure tt
    validate_cases suffix ((index, c) ∷ cases) = do
      validate_pod_capability (index <> "-" <> suffix) c
      validate_cases suffix cases

    unfoldable pub validate_required_pod_capabilities : String → Action (World K) (Unit {0})
    unfolding validate_cases
    validate_required_pod_capabilities suffix = validate_cases suffix validation_cases
