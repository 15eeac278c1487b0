-- ===== src/Preflight/Pods/Resolved.antt =====
-- What the DNS check and the capability check of tools/preflight/preflight.go have seen when they
-- succeed.
use tvk_plugins.Base.{String, ◌<>◌, ◌≡◌, ◌≢◌, ◌∙◌, List, [], ◌∷◌, All, none}
use tvk_plugins.Action.{ok, attempt, lift, ok-injective, >>=-eq-ok}
use tvk_plugins.Kube.{Externals, Pod, Cluster, World}
use tvk_plugins.Kube.Trace.{ask-answers}
use tvk_plugins.Preflight.Options.{Run, dns_utils, pod_capability_prefix}
use tvk_plugins.Preflight.Specs.{Capability, dns_pod_spec, pod_spec_with_capability}
use tvk_plugins.Preflight.Wait.Reached.{
  IsBackoff, Holds, wait_until_pod_condition-reached, exec_in_pod-eq-ok,
}
use tvk_plugins.Preflight.SnapshotClasses.Found.{mapped}
use tvk_plugins.Preflight.Pods.{
  validation_cases, create_pod_and_wait, validate_dns_resolution, create_dns_pod_on_cluster,
  validate_pod_capability, validate_cases, validate_required_pod_capabilities,
}

module _ {X : Externals} (K : Cluster X) (o : Run X) (suffix : String) where
  -- At some moment the pod of that name was in the run's namespace, and ready.
  abbrev pub WasSeenReady : String → Type 0
  WasSeenReady name =
      (s : K.State) × ((p : Pod X) × ((K.get_pod o.namespace name s).0 ≡ ok p)
        × Holds "Ready" p.conditions)

  -- At some moment the cluster gave the DNS pod of the run by its name, and at some moment the name server
  -- was asked from that pod's container `dnsutils`, in the run's namespace, without an error.
  abbrev pub WasResolved : Type 0
  WasResolved =
      (p : Pod X) × ((s : K.State) × ((K.get_pod o.namespace (dns_utils <> suffix) s).0 ≡ ok p))
      × (p.metadata.name ≢ "")
      × ((s : K.State) × ((K.stream
              (record {
                namespace = o.namespace;
                command = "nslookup" ∷ "kubernetes.default" ∷ [];
                pod_name = p.metadata.name;
                container_name = "dnsutils";
              })
              s).0.error
            ≡ none))

  module _ (backs_off : IsBackoff K) where
    create_pod_and_wait-WasSeenReady :
        (p got : Pod X) (w : World K)
        → (create_pod_and_wait K o.namespace p w).0 ≡ ok got
        → WasSeenReady p.metadata.name
    unfolding create_pod_and_wait
    create_pod_and_wait-WasSeenReady p got w h =
        let (_, _, h1) = >>=-eq-ok _ _ w got h in
        let (_, waited, _) = >>=-eq-ok _ _ _ got h1 in
        wait_until_pod_condition-reached K backs_off o.namespace p.metadata.name "Ready" _ waited

    create_pod_and_wait-got :
        (p got : Pod X) (w : World K)
        → (create_pod_and_wait K o.namespace p w).0 ≡ ok got
        → (s : K.State) × ((K.get_pod o.namespace p.metadata.name s).0 ≡ ok got)
    unfolding create_pod_and_wait
    create_pod_and_wait-got p got w h =
        let (_, _, h1) = >>=-eq-ok _ _ w got h in
        let (_, _, h2) = >>=-eq-ok _ _ _ got h1 in (_, ask-answers _ _ got h2)

    -- Where the backoff keeps its promise: the DNS check succeeds only if its pod was seen ready in
    -- the run's namespace, the cluster gave that pod by its name, and `nslookup kubernetes.default` has run
    -- in the container `dnsutils` of that pod, in the run's namespace, without an error.
    pub validate_dns_resolution-resolves :
        (w : World K)
        → (validate_dns_resolution K o suffix w).0 ≡ ok tt
        → WasSeenReady (dns_utils <> suffix) × WasResolved
    unfolding validate_dns_resolution create_dns_pod_on_cluster attempt lift dns_pod_spec
    validate_dns_resolution-resolves w h =
        let (p, made, h1) = >>=-eq-ok _ _ w tt h in
        let (r, ran, h2) = >>=-eq-ok _ _ _ tt h1 in
        let (_, passed, _) = >>=-eq-ok _ _ _ tt h2 in
        let (_, named, _, clean) =
          (exec_in_pod-eq-ok K _ _).0 (ok-injective _ r ran ∙ mapped _ r tt passed) in
        (
          create_pod_and_wait-WasSeenReady (dns_pod_spec o suffix) p w made,
          (p, create_pod_and_wait-got (dns_pod_spec o suffix) p w made, named, (_, clean)),
        )

    validate_pod_capability-WasSeenReady :
        (name : String) (c : Capability) (w : World K)
        → (validate_pod_capability K o name c w).0 ≡ ok tt
        → WasSeenReady (pod_capability_prefix <> name)
    unfolding validate_pod_capability pod_spec_with_capability
    validate_pod_capability-WasSeenReady name c w h =
        let (p, made, _) = >>=-eq-ok _ _ w tt h in
        create_pod_and_wait-WasSeenReady (pod_spec_with_capability o name c) p w made

    validate_cases-WasSeenReady :
        (cases : List (String × Capability)) (w : World K)
        → (validate_cases K o suffix cases w).0 ≡ ok tt
        → All (λ c. WasSeenReady (pod_capability_prefix <> (c.0 <> "-" <> suffix))) cases
    unfolding validate_cases
    validate_cases-WasSeenReady [] w h = tt
    validate_cases-WasSeenReady ((index, c) ∷ cases) w h =
        let (_, one, rest) = >>=-eq-ok _ _ w tt h in
        (
          validate_pod_capability-WasSeenReady (index <> "-" <> suffix) c w one,
          validate_cases-WasSeenReady cases _ rest,
        )

    -- Where the backoff keeps its promise: the check of the capabilities succeeds only if the pod
    -- of each of the three cases was seen ready in the run's namespace.
    pub validate_required_pod_capabilities-WasSeenReady :
        (w : World K)
        → (validate_required_pod_capabilities K o suffix w).0 ≡ ok tt
        → All (λ c. WasSeenReady (pod_capability_prefix <> (c.0 <> "-" <> suffix))) validation_cases
    unfolding validate_required_pod_capabilities
    validate_required_pod_capabilities-WasSeenReady w h =
        validate_cases-WasSeenReady validation_cases w h
