-- ===== src/Collector/Gather/Run/Secrets.antt =====
-- Which resources are left alone.
use tvk_plugins.Base.{
  String, ◌==◌, ◌≡◌, ◌≢◌, refl, Bool, true, false, not, ◌||◌, ◌&&◌, List, [], ◌∷◌, All, contains,
  eq_iff, Bool-cases, inl, inr,
}
use tvk_plugins.Action.{ok, pure, ◌>>=◌}
use tvk_plugins.Collector.Host.{Objects, Host, ApiResource, Session}
use tvk_plugins.Collector.Filters.{
  Options, exclude_resources, non_labeled_resources, matches_input_gvks,
}
use tvk_plugins.Collector.Writer.{write_objects_and_logs}
use tvk_plugins.Collector.Gather.{filter_resource_objects}
use tvk_plugins.Collector.Gather.Run.{Found, network_policies, after_pvcs, gather_resource}

eq-of-ne : (a b : String) → a ≢ b → (a == b) ≡ false
eq-of-ne a b h = elim (Bool-cases (a == b)) [ inl e ↦ absurd (h ((eq_iff a b).0 e)) | inr e ↦ e ]

-- Tests on a kind that hold of no kind that is left out.
abbrev IsOther : String → Type 0
IsOther k =
    (contains non_labeled_resources k ≡ false)
    × ((k == "Pod") ≡ false)
    × ((k == "NetworkPolicy") ≡ false)

excluded-IsOther : (k : String) → contains exclude_resources k ≡ true → IsOther k
excluded-IsOther k h = elim (Bool-cases ("Secret" == k)) [
  | inl e ↦ rw (← (eq_iff "Secret" k).0 e) (refl, refl, refl)
  | inr e ↦ elim (Bool-cases ("PackageManifest" == k)) [
    | inl f ↦ rw (← (eq_iff "PackageManifest" k).0 f) (refl, refl, refl)
    | inr f ↦ cc (h, e, f)
  ]
]

and_false : (b : Bool) → (b && false) ≡ false
and_false true = refl
and_false false = refl

-- The names of resources that have a filter of their own.
abbrev pub filtered_names : List String
filtered_names =
    "customresourcedefinitions" ∷ "namespaces" ∷ "clusterserviceversions" ∷ "persistentvolumeclaims"
    ∷ []

module _ {O : Objects} (H : Host O) (l : Options) (gv : String) (r : ApiResource)
    (excluded : contains exclude_resources r.kind ≡ true)
    (plain : All (λ n. r.name ≢ n) filtered_names) where
  nothing_filtered : filter_resource_objects H l gv r ≡ pure []
  unfolding filter_resource_objects
  nothing_filtered =
      let (other, _, _) = excluded-IsOther r.kind excluded in
      let (crds, (namespaces, (csvs, (pvcs, _)))) = plain in
      rw
        (
          filter_resource_objects,
          other,
          eq-of-ne _ _ crds,
          eq-of-ne _ _ namespaces,
          eq-of-ne _ _ csvs,
          eq-of-ne _ _ pvcs,
          excluded,
          and_false (r.namespaced || (l.clustered && not r.namespaced)),
        )
        refl

  -- Secrets and package manifests that no group, version and kind of the inputs asks for are neither
  -- listed nor written outside OpenShift: such a resource leaves the session, the cluster and the files
  -- as they are, and nothing of it is found.
  pub gather_resource-excluded :
      (found : Found O) (w : Session H)
      → matches_input_gvks l r gv ≡ false
      → gather_resource H l false gv r found w ≡ (ok found, w)
  unfolding gather_resource network_policies after_pvcs write_objects_and_logs pure ◌>>=◌
  gather_resource-excluded found w unmatched =
      let (_, pods, policies) = excluded-IsOther r.kind excluded in
      rw (gather_resource, nothing_filtered, unmatched, policies, eq-of-ne _ _ plain.1.1.1.0, pods)
        refl
