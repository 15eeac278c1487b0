-- ===== src/Preflight/Run/Probes.antt =====
-- The checks that run a pod keep every closed invariant that lets them send the run's requests.
use text.Mathlib.TextLemmas.{append_assoc}
use tvk_plugins.Base.{
  String, ◌<>◌, ◌≡◌, refl, sym, ap, ◌∙◌, inl, inr, List, [], ◌∷◌, Option, none, some,
}
use tvk_plugins.Action.{ok, >>=-eq-ok}
use tvk_plugins.Action.Keeps.{
  Keeps, Keeps-bind, Keeps-bind-known, Keeps-pure, Keeps-attempt, keeps_rules,
}
use tvk_plugins.Kube.{
  Externals, Meta, Pod, Target, Cluster, World, Request, ExecOptions, created, pod_object, executed,
}
use tvk_plugins.Kube.Closed.{IsClosed}
use tvk_plugins.Kube.Trace.{ask-answers}
use tvk_plugins.Preflight.Options.{Run, dns_utils, pod_capability_prefix}
use tvk_plugins.Preflight.Specs.{
  Capability, preflight_resource_labels, dns_pod_spec, pod_spec_with_capability,
}
use tvk_plugins.Preflight.Delete.{delete_k8s_resource, remove_finalizer, drop_finalizers}
use tvk_plugins.Preflight.Wait.{
  wait_until_pod_condition, wait_on_pod, exec_in_container, exec_in_pod,
}
use tvk_plugins.Preflight.Pods.{
  pod_target, create_pod_and_wait, delete_pod_quietly, create_dns_pod_on_cluster,
  validate_dns_resolution, validate_pod_capability, validate_cases, validation_cases,
  validate_required_pod_capabilities,
}
use tvk_plugins.Preflight.Run.Requests.{IsProbe, IsRunRequest, Permits}

module _ {X : Externals} {K : Cluster X} (o : Run X) (suffix : String) {Own : Meta → Type 0}
    {Q : Request X → Type 0} {P : World K → Type 0} (permits : Permits K o suffix Own Q)
    (closed : IsClosed Q P) where
  pub wait_until_pod_condition-Keeps :
      (ns name kind : String) → Keeps P (wait_until_pod_condition K ns name kind)
  unfolding wait_until_pod_condition wait_on_pod
  wait_until_pod_condition-Keeps ns name kind = search (keeps_rules, closed.asks) depth 7

  pub exec_in_pod-Keeps : (op : ExecOptions) → Keeps P (exec_in_pod K op)
  unfolding exec_in_pod exec_in_container
  exec_in_pod-Keeps op = Keeps-bind _ _ (closed.asks _) λ timeout.
      Keeps-bind _ _
        (Keeps-bind _ _ (closed.sends _ _ (permits.requests (executed op) tt)) (λ r. Keeps-pure _))
        (λ messages. search keeps_rules)

  drop_finalizers-Keeps :
      (t : Target) (f : Option (List String)) → Own t.metadata → Keeps P (drop_finalizers K t f)
  unfolding drop_finalizers
  drop_finalizers-Keeps t none probe = Keeps-pure tt
  drop_finalizers-Keeps t (some _) probe = Keeps-bind-known _ _ (closed.asks _) λ latest w got.
      closed.sends _ _ (
        permits.patches latest
          (permits.targets _ t.metadata w.cluster latest (ask-answers _ w latest got) probe))

  delete_pod_quietly-Keeps : (p : Pod X) → Own p.metadata → Keeps P (delete_pod_quietly K p)
  unfolding delete_pod_quietly delete_k8s_resource remove_finalizer pod_target
  delete_pod_quietly-Keeps p probe =
      Keeps-bind _ _
        (Keeps-attempt _ (
          Keeps-bind _ _ (closed.sends _ _ (permits.deletes (pod_target p) probe))
            (λ _. drop_finalizers-Keeps (pod_target p) p.metadata.finalizers probe)))
        (λ _. Keeps-pure tt)

  create_pod_and_wait-Keeps :
      (ns : String) (p : Pod X)
      → IsRunRequest o suffix (created (pod_object p))
      → Keeps P (create_pod_and_wait K ns p)
  unfolding create_pod_and_wait
  create_pod_and_wait-Keeps ns p allowed =
      Keeps-bind _ _ (closed.sends _ _ (permits.requests _ allowed))
        λ _. Keeps-bind _ _ (wait_until_pod_condition-Keeps _ _ _) (λ _. closed.asks _)

  -- The pod that is read back is an own one.
  create_pod_and_wait-Own :
      (p got : Pod X) (w : World K)
      → (create_pod_and_wait K p.metadata.namespace p w).0 ≡ ok got
      → IsProbe o suffix p.metadata
      → Own got.metadata
  unfolding create_pod_and_wait
  create_pod_and_wait-Own p got w h probe =
      let (made, _, h1) = >>=-eq-ok _ _ w got h in
      let (_, _, h2) = >>=-eq-ok _ _ _ got h1 in
      permits.pods p.metadata _ got (ask-answers _ _ got h2) probe

  dns_pod-allowed : IsRunRequest o suffix (created (pod_object (dns_pod_spec o suffix)))
  unfolding dns_pod_spec
  dns_pod-allowed = ((dns_utils, refl), inl refl, inl refl)

  pub validate_dns_resolution-Keeps : Keeps P (validate_dns_resolution K o suffix)
  unfolding validate_dns_resolution create_dns_pod_on_cluster dns_pod_spec
  validate_dns_resolution-Keeps =
      Keeps-bind-known _ _ (create_pod_and_wait-Keeps _ _ dns_pod-allowed) λ p w got.
        Keeps-bind _ _ (Keeps-attempt _ (exec_in_pod-Keeps _)) λ r.
          Keeps-bind _ _ (search keeps_rules) λ _.
            delete_pod_quietly-Keeps p
              (create_pod_and_wait-Own (dns_pod_spec o suffix) p w got (refl, inl refl))

  module _ (index : String) (c : Capability) where
    abbrev probe : Pod X
    probe = pod_spec_with_capability o (index <> "-" <> suffix) c

    -- The suffix of the case's pod is an index and a dash before the run's.
    regroup : (s : String) → s <> (index <> "-" <> suffix) ≡ (s <> (index <> "-")) <> suffix
    regroup s =
        ap (λ (t : String). s <> t) (sym (append_assoc index "-" suffix))
        ∙ sym (append_assoc s (index <> "-") suffix)

    capability_pod-allowed : IsRunRequest o suffix (created (pod_object probe))
    unfolding pod_spec_with_capability
    capability_pod-allowed = (
      (pod_capability_prefix <> (index <> "-"), regroup pod_capability_prefix),
      inl refl,
      inr (index <> "-", ap preflight_resource_labels (sym (append_assoc index "-" suffix))),
    )

    validate_pod_capability-Keeps : Keeps P (validate_pod_capability K o (index <> "-" <> suffix) c)
    unfolding validate_pod_capability pod_spec_with_capability
    validate_pod_capability-Keeps =
        Keeps-bind-known _ _ (create_pod_and_wait-Keeps _ _ capability_pod-allowed) λ p w got.
          delete_pod_quietly-Keeps p (
            create_pod_and_wait-Own probe p w got (
              refl,
              inr (
                index <> "-",
                ap (λ (t : String). pod_capability_prefix <> t)
                    (sym (append_assoc index "-" suffix)),
              ),
            ))

  validate_cases-Keeps :
      (cases : List (String × Capability)) → Keeps P (validate_cases K o suffix cases)
  unfolding validate_cases
  validate_cases-Keeps [] = Keeps-pure tt
  validate_cases-Keeps ((index, c) ∷ cases) =
      Keeps-bind _ _ (validate_pod_capability-Keeps index c) (λ _. validate_cases-Keeps cases)

  pub validate_required_pod_capabilities-Keeps :
      Keeps P (validate_required_pod_capabilities K o suffix)
  unfolding validate_required_pod_capabilities
  validate_required_pod_capabilities-Keeps = validate_cases-Keeps validation_cases
