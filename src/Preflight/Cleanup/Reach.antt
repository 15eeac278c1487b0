-- ===== src/Preflight/Cleanup/Reach.antt =====
-- Which of the objects that the spec builders of tools/preflight/helper.go make a cleanup selects.
use Prim.Native.String.{len}
use text.Mathlib.TextPositions.{len-append}
use tvk_plugins.Base.{
  String, ◌<>◌, ◌==◌, eq_iff, ◌≡◌, refl, sym, ap, ◌∙◌, ◌≢◌, ◌↔◌, ◌⊎◌, inl, inr, some, Bool-cases,
  List, [], ◌∷◌, All, arith,
}
use tvk_plugins.Base.Dict.{lookup, insert}
use tvk_plugins.Kube.{Externals, Labels, NamespacedName}
use tvk_plugins.Preflight.Options.{Run}
use tvk_plugins.Preflight.Specs.{
  Capability, preflight_resource_labels, dns_pod_spec, volume_snapshot_pvc_spec,
  pvc_data_writer_pod_spec, pvc_data_reader_pod_spec, pod_spec_with_pvc, pod_spec_with_capability,
  volume_snapshot_spec, namespace_spec,
}
use tvk_plugins.Preflight.Cleanup.{Cleanup, selector}
use tvk_plugins.Preflight.Cleanup.Safety.{Selects}

-- A text is not the same as a longer one that ends in it.
not_longer : (index uid : String) → uid ≡ index <> "-" <> uid → ⊥
not_longer index uid same =
    let inner = len-append "-" uid in
    let whole = ap len same ∙ len-append index ("-" <> uid) in ground (arith, inner, whole)

some-injective : (a b : String) → some a ≡ some b → a ≡ b
some-injective a b h = cc

-- A cleanup selects what carries the labels of a run exactly when it names no run or that run.
pub preflight_resource_labels-Selects :
    (c : Cleanup) (uid : String)
    → Selects (selector c) (preflight_resource_labels uid) ↔ ((c.uid ≡ "") ⊎ (c.uid ≡ uid))
unfolding selector preflight_resource_labels lookup insert
preflight_resource_labels-Selects c uid = elim (Bool-cases (c.uid == "")) [
  | inl all ↦ rw all (λ h. inl ((eq_iff c.uid "").0 all), λ h. (refl, tt))
  | inr one ↦ rw one (
    λ h. inr (some-injective c.uid uid (sym h.1.0)),
    λ h. elim h [
      | inl empty ↦ cc ((eq_iff c.uid "").1 empty)
      | inr same ↦ (refl, (ap some (sym same), tt))
    ],
  )
]

module _ {X : Externals} (o : Run X) (uid : String) where
  -- The labels that the builders give to what a run makes with its suffix: the DNS pod, the two
  -- pods on a claim, the pod that writes the source data, the claim, the snapshot and the
  -- namespace.
  abbrev pub run_labels : (pod : String) (n : NamespacedName) → List Labels
  run_labels pod n =
      (dns_pod_spec o uid).metadata.labels
      ∷ (pvc_data_writer_pod_spec o pod n uid).metadata.labels
      ∷ (pvc_data_reader_pod_spec o pod n uid).metadata.labels
      ∷ (pod_spec_with_pvc o n uid).metadata.labels
      ∷ (volume_snapshot_pvc_spec o n uid).metadata.labels
      ∷ (volume_snapshot_spec n "" "" pod uid).metadata.labels
      ∷ (namespace_spec pod uid).labels
      ∷ []

  -- Everything that the builders make for a run, but the pods of the capability cases, is selected
  -- by a cleanup exactly when the cleanup names no run or that run.
  pub run_labels-Selects :
      (pod : String) (n : NamespacedName) (c : Cleanup)
      → All
          (λ labels. Selects (selector c) labels ↔ ((c.uid ≡ "") ⊎ (c.uid ≡ uid)))
          (run_labels pod n)
  unfolding dns_pod_spec pvc_data_writer_pod_spec pvc_data_reader_pod_spec pod_spec_with_pvc
      volume_snapshot_pvc_spec volume_snapshot_spec namespace_spec
  run_labels-Selects pod n c =
      let fits = preflight_resource_labels-Selects c uid in
      (fits, (fits, (fits, (fits, (fits, (fits, (fits, tt)))))))

  -- Whatever the index of a capability case, the cleanup that names a run (by a uid that is not
  -- empty) does not select the pod of the run's case.
  pub pod_spec_with_capability-not-Selects :
      (index : String) (capability : Capability) (namespace : String)
      → uid ≢ ""
      → ¬ Selects
          (selector (record { uid = uid; namespace = namespace }))
          (pod_spec_with_capability o (index <> "-" <> uid) capability).metadata.labels
  unfolding pod_spec_with_capability
  pod_spec_with_capability-not-Selects index capability namespace named selected =
      elim ((preflight_resource_labels-Selects (record { uid = uid; namespace = namespace })
          (index <> "-" <> uid)).0
        selected) [ inl empty ↦ named empty | inr same ↦ not_longer index uid same ]
