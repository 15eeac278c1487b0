-- ===== src/Preflight/Crds.antt =====
-- The VolumeSnapshot CRDs: `checkAndCreateVolumeSnapshotCRDs` of tools/preflight/preflight.go and
-- `getPrefSnapshotClassVersion` of helper.go.
pub mod Installed
use tvk_plugins.Base.{String, ◌<>◌, none, some, List, [], ◌∷◌, ◌++◌, ◌==◌, if◌then◌else◌}
use tvk_plugins.Action.{
  Error, failure, message, is_not_found, Result, ok, err, Action, pure, raise, lift, attempt, ◌>>=◌,
  ◌>>◌,
}
use tvk_plugins.Kube.{Externals, crd_object, Cluster, World, created, ask, send}

abbrev pub classes_crd : String
classes_crd = "volumesnapshotclasses.snapshot.storage.k8s.io"

-- `VolumeSnapshotCRDs`
abbrev pub volume_snapshot_crds : List String
volume_snapshot_crds =
    classes_crd ∷ "volumesnapshotcontents.snapshot.storage.k8s.io"
    ∷ "volumesnapshots.snapshot.storage.k8s.io" ∷ []

abbrev pub min_server_version : String
min_server_version = "v1.20.0"

module _ (X : Externals) where
  unfoldable pub semver_version : String → Result X.Version
  semver_version text = elim (X.new_semver text) [
    | err e ↦ err e
    | ok none ↦ err (failure ("invalid semver version: [" <> text <> "]"))
    | ok (some v) ↦ ok v
  ]

  unfoldable pub preferred_crd_version : String → Result String
  unfolding semver_version
  preferred_crd_version server = elim (semver_version server) [
    | err e ↦ err e
    | ok current ↦ elim (semver_version min_server_version) [
      | err e ↦ err e
      | ok minimum ↦ ok (if X.less_than current minimum then "v1beta1" else "v1")
    ]
  ]

  -- Reading and decoding the embedded file of a CRD.
  unfoldable pub embedded_crd : String → String → Result X.Crd
  embedded_crd version name =
      elim (X.read_crd_file ("volumesnapshotcrdyamls/" <> version <> "/" <> name <> ".yaml")) [
        | err e ↦ err e
        | ok bytes ↦ X.unmarshal_crd bytes
      ]

module _ {X : Externals} (K : Cluster X) where
  unfoldable pub forget_snapshot_class : Action (World K) (Unit {0})
  forget_snapshot_class w = (ok tt, record w { snapshot_class = "" })

  -- Installing one CRD that is missing.
  unfoldable pub install_crd : String → String → Action (World K) (Unit {0})
  unfolding embedded_crd forget_snapshot_class
  install_crd version name = do
    crd ← lift (embedded_crd X version name)
    send K (created (crd_object crd)) (K.create (crd_object crd))
    if name == classes_crd then forget_snapshot_class else pure tt

  abbrev errors_of : Result (Unit {0}) → List Error
  errors_of (ok _) = []
  errors_of (err e) = e ∷ []

  -- One round of the loop, from the answer of the get; the errors that the round adds.
  unfoldable pub install_missing : String → String → Result X.Crd → Action (World K) (List Error)
  unfolding install_crd
  install_missing version name (ok _) = pure []
  install_missing version name (err e) =
      if is_not_found e
      then (do r ← attempt (install_crd version name); pure (errors_of r))
      else raise (failure ("error getting volume snapshot class CRD :: " <> message e))

  -- The loop, with `errs` so far: a get that fails for another reason than a missing CRD returns
  -- at once, all other errors are collected.
  unfoldable pub check_crds : String → List String → List Error → Action (World K) (List Error)
  unfolding install_missing
  check_crds version [] errs = pure errs
  check_crds version (name ∷ names) errs = do
    r ← attempt (ask K (K.get_crd name))
    more ← install_missing version name r
    check_crds version names (errs ++ more)

  unfoldable pub aggregated : List Error → Result (Unit {0})
  aggregated [] = ok tt
  aggregated (e ∷ es) = err (X.aggregate (e ∷ es))

  unfoldable pub check_and_create_crds : String → Action (World K) (Unit {0})
  unfolding check_crds aggregated preferred_crd_version
  check_and_create_crds server = do
    version ← lift (preferred_crd_version X server)
    errs ← check_crds version volume_snapshot_crds []
    lift (aggregated errs)
