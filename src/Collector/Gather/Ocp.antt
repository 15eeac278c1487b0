-- ===== src/Collector/Gather/Ocp.antt =====
-- `getOcpRelatedResources`: the objects of the product on OpenShift.
use tvk_plugins.Base.{
  String, ◌==◌, ◌||◌, ◌&&◌, not, Bool, false, if◌then◌else◌, Option, none, some, List, [], ◌∷◌,
  ◌++◌, contains, starts_with,
}
use tvk_plugins.Base.Dict.{lookup}
use tvk_plugins.Action.{Error, Result, ok, err, Action, pure, lift, ◌>>=◌, ◌>>◌}
use tvk_plugins.Text.{contains_text}
use tvk_plugins.Collector.Labels.{has_value}
use tvk_plugins.Collector.Host.{Objects, Host, OwnerReference, ApiResource, Session}
use tvk_plugins.Collector.Filters.{
  Options, trilio_prefix, exclude_resources, resource_path, text_or_empty,
}
use tvk_plugins.Collector.Gather.{get_resource_objects}

-- How a loop that can return early goes on: it has collected these objects, or it returns.
pub data Found {ℓ} (A : Type ℓ) : Type ℓ where
  go_on : List A → Found A
  return_now : List A → Option Error → Found A

module _ (O : Objects) where
  abbrev is_product : String → Bool
  is_product s = starts_with s trilio_prefix

  abbrev owned : O.Map → OwnerReference → Bool
  owned m r =
      (is_product r.name
        && r.kind == "ClusterServiceVersion"
        && not (contains exclude_resources (O.kind m)))
      || (r.kind == "Subscription" && is_product r.name && O.kind m == "InstallPlan")

  -- The object, once for each reference that fits.
  unfoldable pub once_per_owner : O.Map → List OwnerReference → List O.Map
  once_per_owner m [] = []
  once_per_owner m (r ∷ rs) = let rest = once_per_owner m rs in if owned m r then m ∷ rest else rest

  abbrev prefixed : Option String → Bool
  prefixed none = false
  prefixed (some s) = is_product s

  abbrev of_product_webhook : Option String → Bool
  of_product_webhook none = false
  of_product_webhook (some s) = contains_text s "trilio.io"

  abbrev pub has_olm_labels : O.Map → Bool
  has_olm_labels m =
      has_value (lookup "olm.owner.kind" (O.labels m)) "ClusterServiceVersion"
      && prefixed (lookup "olm.owner" (O.labels m))
      && of_product_webhook (lookup "olm.webhook-description-generate-name" (O.labels m))

  abbrev once_if : Bool → O.Map → List O.Map
  once_if b m = if b then m ∷ [] else []

  -- Where the name of a subscription cannot be read, the code returns the error of the start version,
  -- which is nil there.
  unfoldable pub from_subscription : O.Map → Found O.Map
  from_subscription m = elim (O.nested_string ("spec" ∷ "startingCSV" ∷ []) m) [
    | err e ↦ return_now [] (some e)
    | ok csv ↦ elim (O.nested_string ("spec" ∷ "name" ∷ []) m) [
      | err e ↦ return_now [] none
      | ok name ↦
          go_on (once_if (is_product (text_or_empty O csv) && is_product (text_or_empty O name)) m)
    ]
  ]

  -- Everything that one object adds: it can come more than once.
  unfoldable pub related : String → O.Map → Found O.Map
  unfolding from_subscription once_per_owner contains_text
  related gv m =
      let others =
        once_per_owner m (O.owner_references m)
        ++ once_if (has_olm_labels m) m
        ++ once_if
            (gv == "config.openshift.io/v1" && O.kind m == "Ingress" && O.name m == "cluster") m
        ++ once_if
            (gv == "operator.openshift.io/v1"
              && O.kind m == "IngressController"
              && O.name m == "default")
            m in
      if O.kind m == "Subscription"
      then elim (from_subscription m) [
        | go_on ms ↦ go_on (ms ++ others)
        | return_now ms e ↦ return_now ms e
      ]
      else go_on others

  abbrev after : List O.Map → Found O.Map → Found O.Map
  after ms (go_on more) = go_on (ms ++ more)
  after ms (return_now more e) = return_now (ms ++ more) e

  unfoldable pub all_related : String → List O.Map → Found O.Map
  unfolding related
  all_related gv [] = go_on []
  all_related gv (m ∷ ms) =
      let rest = all_related gv ms in
      elim (related gv m) [
        | go_on found ↦ after found rest
        | return_now found e ↦ return_now found e
      ]

  abbrev pub outcome : Found O.Map → Result (List O.Map)
  outcome (go_on ms) = ok ms
  outcome (return_now ms none) = ok ms
  outcome (return_now ms (some e)) = err e

module _ {O : Objects} (H : Host O) (l : Options) where
  -- The namespace of the ingress operator is added to those of the run, and stays there.
  unfoldable pub add_ingress_namespace : Action (Session H) (Unit {0})
  add_ingress_namespace w =
      (ok tt, record w { namespaces = w.namespaces ++ ("openshift-ingress-operator" ∷ []) })

  unfoldable pub get_ocp_related_resources : String → ApiResource → Action (Session H) (List O.Map)
  unfolding add_ingress_namespace all_related
  get_ocp_related_resources gv r = do
    if r.kind == "IngressController" && gv == "operator.openshift.io/v1"
        then add_ingress_namespace
        else pure tt
    ms ← get_resource_objects H l (resource_path gv) r
    lift (outcome O (all_related O gv ms))
