-- ===== src/Preflight/Run/Expected.antt =====
-- The report that a run's verdicts make, and whether all of it passed.
use tvk_plugins.Base.{
  Bool, true, false, ◌&&◌, ◌≡◌, refl, ap, ◌∙◌, List, [], ◌∷◌, ◌++◌, append-nil, sym, ◌==◌,
  if◌then◌else◌, Bool-cases, inl, inr, all, and-true, arith,
}
use tvk_plugins.Kube.{
  Externals, Check, kubectl, access, helm, kubernetes_version, rbac, snapshot_crds,
  snapshot_class_found, pod_capability, storage_snapshot_class, dns, namespace_permissions,
  cluster_volume, namespace_volume,
}
use tvk_plugins.Preflight.Options.{Run}

-- One verdict for each check that can be reported.
pub record Verdicts : Type 0 where
  pub has_kubectl : Bool
  pub has_access : Bool
  pub has_helm : Bool
  pub has_version : Bool
  pub has_rbac : Bool
  pub has_crds : Bool
  pub has_class : Bool
  pub has_capability : Bool
  pub has_snapshot_class : Bool
  pub has_dns : Bool
  pub has_permissions : Bool
  pub has_volume : Bool

module _ {X : Externals} (o : Run X) where
  abbrev pub local_check : Check → Bool → List (Check × Bool)
  local_check c b = if o.in_cluster then [] else (c, b) ∷ []

  abbrev pub volume_check : Bool → List (Check × Bool)
  volume_check b =
      if o.scope == "cluster"
      then (cluster_volume, b) ∷ []
      else if o.scope == "namespace"
      then (namespace_volume, b) ∷ []
      else []

  abbrev pub scope_value : Bool → Bool
  scope_value b = if o.scope == "cluster" then b else if o.scope == "namespace" then b else true

  abbrev pub basic_report : Verdicts → List (Check × Bool)
  basic_report v =
      local_check kubectl v.has_kubectl
      ++ ((access, v.has_access)
          ∷ (local_check helm v.has_helm
              ++ ((kubernetes_version, v.has_version)
                  ∷ (rbac, v.has_rbac)
                  ∷ (snapshot_crds, v.has_crds)
                  ∷ [])))

  abbrev pub storage_report : Verdicts → List (Check × Bool)
  storage_report v =
      (snapshot_class_found, v.has_class)
      ∷ (pod_capability, v.has_capability)
      ∷ ((if v.has_class then (storage_snapshot_class, v.has_snapshot_class) ∷ [] else [])
          ++ ((dns, v.has_dns)
              ∷ (if v.has_class && v.has_snapshot_class
                  then (namespace_permissions, v.has_permissions) ∷ volume_check v.has_volume
                  else [])))

  -- What a run reports, from the verdicts: the local tools only outside a cluster, the snapshot
  -- class only where the storage class was found, the volumes only where both passed.
  abbrev pub expected_report : Verdicts → List (Check × Bool)
  expected_report v = basic_report v ++ storage_report v

abbrev pub all_passed : List (Check × Bool) → Bool
all_passed vs = all (λ v. v.1) vs

pub local-all :
    {X : Externals} (o : Run X) (c : Check) (b : Bool)
    → (if o.in_cluster then true else b) ≡ all_passed (local_check o c b)
local-all o c b = elim (Bool-cases o.in_cluster) [
  | inl h ↦ rw h refl
  | inr h ↦ rw h (sym (and-true b))
]

pub scope_value-all :
    {X : Externals} (o : Run X) (b : Bool) → scope_value o b ≡ all_passed (volume_check o b)
scope_value-all o b = elim (Bool-cases (o.scope == "cluster")) [
  | inl h ↦ rw h (sym (and-true b))
  | inr h ↦ rw h (elim (Bool-cases (o.scope == "namespace")) [
    | inl h' ↦ rw h' (sym (and-true b))
    | inr h' ↦ rw h' refl
  ])
]

pub basic_value :
    {X : Externals} (o : Run X) (v : Verdicts)
    → ((if o.in_cluster then true else v.has_kubectl)
        && v.has_access
        && (if o.in_cluster then true else v.has_helm)
        && v.has_version
        && v.has_rbac
        && v.has_crds)
      ≡ all_passed (basic_report o v)
basic_value o v = elim (Bool-cases o.in_cluster) [
  | inl h ↦ rw h (ground arith)
  | inr h ↦ rw h (ground arith)
]

pub storage_value :
    {X : Externals} (o : Run X) (v : Verdicts)
    → (v.has_capability
        && (v.has_class && v.has_snapshot_class)
        && v.has_dns
        && (if v.has_class && v.has_snapshot_class
            then v.has_permissions && scope_value o v.has_volume
            else true))
      ≡ all_passed (storage_report o v)
storage_value o v = rw (scope_value-all o v.has_volume) (elim (Bool-cases v.has_class) [
  | inl h ↦ rw h (elim (Bool-cases v.has_snapshot_class) [
    | inl h' ↦ rw h' (ground arith)
    | inr h' ↦ rw h' (ground arith)
  ])
  | inr h ↦ rw h (ground arith)
])

-- The last three stages, in the form that composing the stages gives.
pub nested_volumes :
    {X : Externals} (o : Run X) (b permissions volume : Bool)
    → ((if b then (namespace_permissions, permissions) ∷ (volume_check o volume ++ []) else [])
        ++ [])
      ≡ (if b then (namespace_permissions, permissions) ∷ volume_check o volume else [])
nested_volumes o true permissions volume =
    append-nil _
    ∙ ap (λ (r : List (Check × Bool)). (namespace_permissions, permissions) ∷ r)
        (append-nil (volume_check o volume))
nested_volumes o false permissions volume = refl
