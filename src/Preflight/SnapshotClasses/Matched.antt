-- ===== src/Preflight/SnapshotClasses/Matched.antt =====
-- What `validateStorageSnapshotClass` of tools/preflight/preflight.go has made sure of when it
-- succeeds.
use tvk_plugins.Base.{
  String, Bool, true, false, ◌==◌, eq_iff, ◌≡◌, ◌≢◌, refl, ◌∙◌, ◌⊎◌, inl, inr, if◌then◌else◌,
}
use tvk_plugins.Action.{
  Error, ok, Action, attempt, lift, pure, raise, ◌>>=◌, ok-injective, >>=-eq-ok,
}
use tvk_plugins.Action.Keeps.{
  Keeps, Keeps-pure, Keeps-raise, Keeps-lift, Keeps-attempt, Keeps-if, Keeps-bind,
}
use tvk_plugins.Kube.{Externals, SnapshotClass, Cluster, World, ask}
use tvk_plugins.Preflight.Checks.{preferred_version_for_group}
use tvk_plugins.Preflight.SnapshotClasses.{
  cluster_has_snapshot_class, set_vol_snap_class, wanted_snapshot_class, find_class, match_class,
  validate_storage_snapshot_class,
}
use tvk_plugins.Preflight.SnapshotClasses.Found.{IsFound, mapped, find_class-IsFound}

module _ {X : Externals} (K : Cluster X) where
  -- At some moment the class of that name was on the cluster, with the driver.
  abbrev pub IsOfDriver : String → String → Type 0
  IsOfDriver provisioner name =
      (version : String) × ((s : K.State) × ((c : SnapshotClass) × ((K.get_snapshot_class version
              name s).0
            ≡ ok c)
          × (c.driver ≡ provisioner)))

  passed :
      (b : Bool) (e : Error) (w : World K)
      → ((if b then pure tt else raise {A = Unit {0}} e) w).0 ≡ ok tt
      → b ≡ true
  unfolding pure raise
  passed true e w h = refl
  passed false e w h = cc h

  same_driver :
      (provisioner driver : String) (e : Error) (w : World K)
      → ((if driver == provisioner then pure tt else raise e) w).0 ≡ ok tt
      → driver ≡ provisioner
  unfolding pure raise
  same_driver provisioner driver e w h =
      (eq_iff driver provisioner).0 (passed (driver == provisioner) e w h)

  cluster_has_snapshot_class-gets :
      (name : String) (c : SnapshotClass) (w : World K)
      → (cluster_has_snapshot_class K name w).0 ≡ ok c
      → (version : String) × ((s : K.State) × ((K.get_snapshot_class version name s).0 ≡ ok c))
  unfolding cluster_has_snapshot_class attempt ask lift
  cluster_has_snapshot_class-gets name c w h =
      let (version, _, h1) = >>=-eq-ok _ _ w c h in
      let (r, got, h2) = >>=-eq-ok _ _ _ c h1 in
      (version, (_, ok-injective _ r got ∙ mapped _ r c h2))

  match_class-IsOfDriver :
      (provisioner name : String) (w : World K)
      → (match_class K provisioner name w).0 ≡ ok tt
      → IsOfDriver provisioner name
  unfolding match_class
  match_class-IsOfDriver provisioner name w h =
      let (_, _, h1) = >>=-eq-ok _ _ w tt h in
      let (c, got, h2) = >>=-eq-ok _ _ _ tt h1 in
      let (version, (s, found)) = cluster_has_snapshot_class-gets name c _ got in
      (version, (s, (c, found, same_driver provisioner c.driver _ _ h2)))

  module _ (name : String) where
    abbrev HasName : World K → Type 0
    HasName w = w.vol_snap_class ≡ name

    ask-name : {A : Type 0} → (call : Action K.State A) → Keeps HasName (ask K call)
    unfolding ask
    ask-name call = record { after = λ w h. h }

    preferred_version_for_group-name :
        (grp : String) → Keeps HasName (preferred_version_for_group K grp)
    unfolding preferred_version_for_group
    preferred_version_for_group-name grp =
        Keeps-bind _ _ (ask-name _)
          (λ groups. Keeps-if (_ == "") _ _ (Keeps-raise _) (Keeps-pure _))

    cluster_has_snapshot_class-name : (n : String) → Keeps HasName (cluster_has_snapshot_class K n)
    unfolding cluster_has_snapshot_class
    cluster_has_snapshot_class-name n =
        Keeps-bind _ _ (preferred_version_for_group-name _)
          λ version. Keeps-bind _ _ (Keeps-attempt _ (ask-name _)) (λ r. Keeps-lift _)

    match_class-name :
        (provisioner : String) (w : World K)
        → (match_class K provisioner name w).1.vol_snap_class ≡ name
    unfolding match_class set_vol_snap_class ◌>>=◌
    match_class-name provisioner w =
        (Keeps-bind {P = HasName} (cluster_has_snapshot_class K name) _
            (cluster_has_snapshot_class-name name)
            (λ c. Keeps-if (c.driver == provisioner) _ _ (Keeps-pure tt) (Keeps-raise _))).after
          (record w { vol_snap_class = name }) refl

  chosen_by :
      (provisioner version wanted : String) (empty : Bool) (w : World K)
      → (wanted == "") ≡ empty
      → ((if empty then find_class K provisioner version else match_class K provisioner wanted) w).0
        ≡ ok tt
      → let name =
          ((if empty then find_class K provisioner version else match_class K provisioner wanted)
            w).1.vol_snap_class in
        ((wanted ≢ "") × (name ≡ wanted) × IsOfDriver provisioner name)
        ⊎ ((wanted ≡ "") × IsFound K provisioner version name)
  chosen_by provisioner version wanted true w e h =
      inr ((eq_iff wanted "").0 e, find_class-IsFound K provisioner version w h)
  chosen_by provisioner version wanted false w e h =
      let name = match_class-name wanted provisioner w in
      inl (
        (λ none. cc (e, (eq_iff wanted "").1 none)),
        name,
        rw name (match_class-IsOfDriver provisioner wanted w h),
      )

  -- The check of the snapshot class succeeds only with a class that fits. If the user has named
  -- one, it is the class that later checks use, and at some moment it was on the cluster with the
  -- storage class's driver. Otherwise the class that later checks use is of that driver in a list
  -- of the classes, or was created for that driver under a fresh name.
  pub validate_storage_snapshot_class-fits :
      (provisioner version : String) (w : World K)
      → (validate_storage_snapshot_class K provisioner version w).0 ≡ ok tt
      → let name = (validate_storage_snapshot_class K provisioner version w).1.vol_snap_class in
        ((w.snapshot_class ≢ "") × (name ≡ w.snapshot_class) × IsOfDriver provisioner name)
        ⊎ ((w.snapshot_class ≡ "") × IsFound K provisioner version name)
  unfolding validate_storage_snapshot_class wanted_snapshot_class ◌>>=◌
  validate_storage_snapshot_class-fits provisioner version w h =
      chosen_by provisioner version w.snapshot_class (w.snapshot_class == "") w refl h
