-- ===== src/Preflight/Run/Classes.antt =====
-- The checks that choose or create a snapshot class, and those of the CRDs, keep every closed
-- invariant that lets them create what they create.
use tvk_plugins.Base.{ℕ, zero, suc, String, ◌<>◌, List, [], ◌∷◌}
use tvk_plugins.Action.{Result, ok, err, Error}
use tvk_plugins.Action.Keeps.{Keeps, Keeps-bind, Keeps-pure, keeps_rules}
use tvk_plugins.Kube.{Externals, Cluster, World, Request, created, class_object, crd_object}
use tvk_plugins.Kube.Closed.{IsClosed}
use tvk_plugins.Preflight.Suffix.{draw_letters, create_resource_name_suffix}
use tvk_plugins.Preflight.SnapshotClasses.{
  Choice, default_class, last_class, snapshot_class_spec, create_volume_snapshot_class,
  create_class_or_explain, use_choice, check_and_create_snapshot_class, cluster_has_snapshot_class,
  set_vol_snap_class, wanted_snapshot_class, find_class, match_class,
  validate_storage_snapshot_class,
}
use tvk_plugins.Preflight.Options.{default_vsc_name_prefix}
use tvk_plugins.Preflight.Crds.{
  forget_snapshot_class, install_crd, install_missing, check_crds, check_and_create_crds,
}
use tvk_plugins.Preflight.Run.Simple.{preferred_version_for_group-Keeps}

module _ {X : Externals} {K : Cluster X} {Q : Request X → Type 0} {P : World K → Type 0}
    (closed : IsClosed Q P) where
  draw_letters-Keeps : (n : ℕ) → Keeps P (draw_letters K n)
  unfolding draw_letters
  draw_letters-Keeps zero = search keeps_rules
  draw_letters-Keeps (suc n) =
      Keeps-bind _ _ (closed.asks _)
        λ idx. Keeps-bind _ _ (draw_letters-Keeps n) (λ rest. Keeps-pure _)

  pub create_resource_name_suffix-Keeps : Keeps P (create_resource_name_suffix K)
  unfolding create_resource_name_suffix
  create_resource_name_suffix-Keeps = draw_letters-Keeps 6

  set_vol_snap_class-Keeps : (v : String) → Keeps P (set_vol_snap_class K v)
  unfolding set_vol_snap_class
  set_vol_snap_class-Keeps v = record { after = λ w h. closed.sets w w.snapshot_class v h }

  wanted_snapshot_class-Keeps : Keeps P (wanted_snapshot_class K)
  unfolding wanted_snapshot_class
  wanted_snapshot_class-Keeps = record { after = λ w h. h }

  forget_snapshot_class-Keeps : Keeps P (forget_snapshot_class K)
  unfolding forget_snapshot_class
  forget_snapshot_class-Keeps = record { after = λ w h. closed.sets w "" w.vol_snap_class h }

  module _
      (classes : (suffix driver version : String)
        → Q (
            created (
              class_object
                (snapshot_class_spec (default_vsc_name_prefix <> suffix) driver version)))) where
    create_volume_snapshot_class-Keeps :
        (driver version : String) → Keeps P (create_volume_snapshot_class K driver version)
    unfolding create_volume_snapshot_class
    create_volume_snapshot_class-Keeps driver version =
        search (keeps_rules, closed.sends, classes, create_resource_name_suffix-Keeps)

    create_class_or_explain-Keeps :
        (provisioner version : String) → Keeps P (create_class_or_explain K provisioner version)
    unfolding create_class_or_explain
    create_class_or_explain-Keeps provisioner version =
        search (keeps_rules, create_volume_snapshot_class-Keeps)

    use_choice-Keeps :
        (provisioner version : String) (c : Choice) → Keeps P (use_choice K provisioner version c)
    unfolding use_choice
    use_choice-Keeps provisioner version (default_class name) = search keeps_rules
    use_choice-Keeps provisioner version (last_class name) =
        search (keeps_rules, create_class_or_explain-Keeps)

    check_and_create_snapshot_class-Keeps :
        (version provisioner : String)
        → Keeps P (check_and_create_snapshot_class K version provisioner)
    unfolding check_and_create_snapshot_class
    check_and_create_snapshot_class-Keeps version provisioner =
        search (keeps_rules, closed.asks, use_choice-Keeps)

    cluster_has_snapshot_class-Keeps : (name : String) → Keeps P (cluster_has_snapshot_class K name)
    unfolding cluster_has_snapshot_class
    cluster_has_snapshot_class-Keeps name =
        search (keeps_rules, closed.asks, preferred_version_for_group-Keeps closed)

    find_class-Keeps : (provisioner version : String) → Keeps P (find_class K provisioner version)
    unfolding find_class
    find_class-Keeps provisioner version =
        search (keeps_rules, check_and_create_snapshot_class-Keeps, set_vol_snap_class-Keeps) depth
          7

    match_class-Keeps : (provisioner name : String) → Keeps P (match_class K provisioner name)
    unfolding match_class
    match_class-Keeps provisioner name =
        search (keeps_rules, cluster_has_snapshot_class-Keeps, set_vol_snap_class-Keeps) depth 7

    pub validate_storage_snapshot_class-Keeps :
        (provisioner version : String)
        → Keeps P (validate_storage_snapshot_class K provisioner version)
    unfolding validate_storage_snapshot_class
    validate_storage_snapshot_class-Keeps provisioner version =
        search (keeps_rules, wanted_snapshot_class-Keeps, find_class-Keeps, match_class-Keeps)

  module _ (crds : (crd : X.Crd) → Q (created (crd_object crd))) where
    install_crd-Keeps : (version name : String) → Keeps P (install_crd K version name)
    unfolding install_crd
    install_crd-Keeps version name =
        search (keeps_rules, closed.sends, crds, forget_snapshot_class-Keeps) depth 7

    install_missing-Keeps :
        (version name : String) (r : Result X.Crd) → Keeps P (install_missing K version name r)
    unfolding install_missing
    install_missing-Keeps version name (ok _) = Keeps-pure []
    install_missing-Keeps version name (err e) = search (keeps_rules, install_crd-Keeps)

    check_crds-Keeps :
        (version : String) (names : List String) (errs : List Error)
        → Keeps P (check_crds K version names errs)
    unfolding check_crds
    check_crds-Keeps version [] errs = Keeps-pure errs
    check_crds-Keeps version (name ∷ names) errs =
        search (keeps_rules, closed.asks, install_missing-Keeps, check_crds-Keeps version names)
          depth 6

    pub check_and_create_crds-Keeps : (server : String) → Keeps P (check_and_create_crds K server)
    unfolding check_and_create_crds
    check_and_create_crds-Keeps server = search (keeps_rules, check_crds-Keeps)
