-- ===== src/Preflight/Crds/Installed.antt =====
-- What `checkAndCreateVolumeSnapshotCRDs` of tools/preflight/preflight.go has made sure of when it
-- succeeds.
use tvk_plugins.Base.{
  String, Bool, true, false, ◌≡◌, refl, ap, ◌∙◌, ◌⊎◌, inl, inr, List, [], ◌∷◌, ◌++◌, All,
  if◌then◌else◌,
}
use tvk_plugins.Action.{
  Error, Result, ok, err, is_not_found, Action, attempt, lift, pure, raise, ◌>>=◌, ok-injective,
  >>=-eq-ok,
}
use tvk_plugins.Kube.{Externals, crd_object, Cluster, World, send}
use tvk_plugins.Kube.Trace.{attempt-ask-answers}
use tvk_plugins.Preflight.Crds.{
  volume_snapshot_crds, preferred_crd_version, embedded_crd, install_crd, errors_of,
  install_missing, check_crds, aggregated, check_and_create_crds,
}

append-eq-nil : {A : Type 0} (xs ys : List A) → xs ++ ys ≡ [] → (xs ≡ []) × (ys ≡ [])
append-eq-nil [] ys h = (refl, h)
append-eq-nil (x ∷ xs) ys h = cc h

module _ {X : Externals} (K : Cluster X) (version : String) where
  -- At some moment the CRD was there, or the embedded file of that version was read and created.
  abbrev pub IsInstalled : String → Type 0
  IsInstalled name =
      ((s : K.State) × ((crd : X.Crd) × ((K.get_crd name s).0 ≡ ok crd)))
      ⊎ ((s : K.State) × ((crd : X.Crd) × (embedded_crd X version name ≡ ok crd)
            × ((K.create (crd_object crd) s).0 ≡ ok tt)))

  no_errors : (r : Result (Unit {0})) → errors_of K r ≡ [] → r ≡ ok tt
  no_errors (ok tt) h = refl
  no_errors (err e) h = cc h

  install_crd-IsInstalled :
      (name : String) (w : World K) → (install_crd K version name w).0 ≡ ok tt → IsInstalled name
  unfolding install_crd send lift
  install_crd-IsInstalled name w h =
      let (crd, read, h1) = >>=-eq-ok _ _ w tt h in
      let (_, made, _) = >>=-eq-ok _ _ _ tt h1 in inr (_, (crd, read, made))

  install_or_raise :
      (name : String) (absent : Bool) (e : Error) (w : World K)
      → ((if absent
            then attempt (install_crd K version name) >>= (λ r. pure (errors_of K r))
            else raise e)
          w).0
        ≡ ok []
      → IsInstalled name
  unfolding attempt pure raise
  install_or_raise name true e w h =
      let (r, tried, quiet) = >>=-eq-ok _ _ w [] h in
      install_crd-IsInstalled name w
        (ok-injective _ r tried ∙ no_errors r (ok-injective _ [] quiet))
  install_or_raise name false e w h = cc h

  install_missing-IsInstalled :
      (name : String) (r : Result X.Crd) (s : K.State) (w : World K)
      → (K.get_crd name s).0 ≡ r
      → (install_missing K version name r w).0 ≡ ok []
      → IsInstalled name
  unfolding install_missing
  install_missing-IsInstalled name (ok crd) s w got h = inl (s, (crd, got))
  install_missing-IsInstalled name (err e) s w got h = install_or_raise name (is_not_found e) _ w h

  check_crds-IsInstalled :
      (names : List String) (errs : List Error) (w : World K)
      → (check_crds K version names errs w).0 ≡ ok []
      → (errs ≡ []) × All IsInstalled names
  unfolding check_crds tvk_plugins.Action.pure
  check_crds-IsInstalled [] errs w h = (ok-injective errs [] h, tt)
  check_crds-IsInstalled (name ∷ names) errs w h =
      let (r, got, h1) = >>=-eq-ok _ _ w [] h in
      let (more, went, h2) = >>=-eq-ok _ _ _ [] h1 in
      let (none, rest) = check_crds-IsInstalled names (errs ++ more) _ h2 in
      let (before, here) = append-eq-nil errs more none in
      (
        before,
        (
          install_missing-IsInstalled name r w.cluster _
              (attempt-ask-answers (K.get_crd name) w r got) (went ∙ ap ok here),
          rest,
        ),
      )

no_aggregate :
    {X : Externals} (K : Cluster X) (errs : List Error) → aggregated K errs ≡ ok tt → errs ≡ []
unfolding aggregated
no_aggregate K [] h = refl
no_aggregate K (e ∷ es) h = cc h

-- The check of the CRDs succeeds only if the server's version chose a version of the CRDs, and for
-- each of the three CRDs either a get found it or the embedded file of that version was created.
pub check_and_create_crds-IsInstalled :
    {X : Externals} (K : Cluster X) (server : String) (w : World K)
    → (check_and_create_crds K server w).0 ≡ ok tt
    → (version : String) × (preferred_crd_version X server ≡ ok version)
      × All (IsInstalled K version) volume_snapshot_crds
unfolding check_and_create_crds lift
check_and_create_crds-IsInstalled K server w h =
    let (version, chosen, h1) = >>=-eq-ok _ _ w tt h in
    let (errs, went, h2) = >>=-eq-ok _ _ _ tt h1 in
    let clean = no_aggregate K errs h2 in
    (
      version,
      chosen,
      (check_crds-IsInstalled K version volume_snapshot_crds [] _ (went ∙ ap ok clean)).1,
    )
