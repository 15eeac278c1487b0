-- ===== src/Collector/Gather/Run/Safety.antt =====
-- Invariants of the changes that a whole run makes, and what it never writes.
use mathlib.Core.Path.{subst}
use tvk_plugins.Base.{
  String, ◌≡◌, refl, sym, Bool, true, false, if◌then◌else◌, List, [], ◌∷◌, All, contains, ◌==◌,
}
use tvk_plugins.Base.Dict.{Dict}
use tvk_plugins.Action.Keeps.{
  Keeps-pure, Keeps-raise, Keeps-lift, Keeps-attempt, Keeps-if, Keeps-bind, Keeps-cases,
}
use tvk_plugins.Collector.Host.{
  Done, Objects, Host, ApiResource, NamespacedName, Session, Change, directory, file, bytes, yaml,
  event, removal, removal_all, archived,
}
use tvk_plugins.Collector.Filters.{
  has_name, Options, non_labeled_resources, resource_path, filter_crds, filter_input_ns,
  filter_tvk_csv, filter_application_pvcs, filter_by, is_labelled,
}
use tvk_plugins.Collector.Redaction.{persistent_volume_kind}
use tvk_plugins.Collector.Redaction.Redacted.{IsTree, HasNoCredentials, to_write-HasNoCredentials}
use tvk_plugins.Collector.Writer.Safe.{
  Allows, Safe, asks, write_yaml-Safe, write_objects_and_logs-Safe, write_events_to_file-Safe,
  remove_output-Safe, zip_dir-Safe,
}
use tvk_plugins.Collector.Gather.{is_listed_by_label, or_panic, filter_resource_objects}
use tvk_plugins.Collector.Gather.Ocp.{add_ingress_namespace, get_ocp_related_resources}
use tvk_plugins.Collector.Gather.Reads.{current_namespaces-Done, get_resource_objects-Done}
use tvk_plugins.Collector.Gather.Run.{
  Found, is_collected_pvc, mark_collected, forget_collected, get_pvs, collect_and_write_pvs,
  get_pvcs, collect_if_any, collect_pvcs_from_pods, write_redacted, get_trilio_group_resources,
  installed_in, network_policies, mark_pvcs, after_pvcs, gather_resource, gather_resources,
  gather_groups, get_resource_events, filtering_resources, set_install_namespace,
  check_if_namespaces_exist, get_api_resource_list, collect_logs_and_dump,
}

module _ {O : Objects} (H : Host O) (l : Options) {Q : Change O → Type 0} (A : Allows l Q) where
  filter_resource_objects-Safe :
      (gv : String) (r : ApiResource) → Safe H l A (filter_resource_objects H l gv r)
  unfolding filter_resource_objects
  filter_resource_objects-Safe gv r =
      let all = get_resource_objects-Done H l (resource_path gv) r in
      Keeps-if (contains non_labeled_resources r.kind) _ _ all (
        Keeps-if (r.name == "customresourcedefinitions") _ _
          (Keeps-bind _ _ all λ ms. Keeps-lift (filter_crds O ms))
          (Keeps-if (r.name == "namespaces") _ _
            (Keeps-bind _ _ all λ ms.
              Keeps-bind _ _ (current_namespaces-Done H l)
                λ ns. Keeps-pure (filter_input_ns O l ns ms))
            (Keeps-if (r.name == "clusterserviceversions") _ _
              (Keeps-bind _ _ all λ ms. Keeps-pure (filter_tvk_csv O ms))
              (Keeps-if (r.name == "persistentvolumeclaims") _ _
                (Keeps-bind _ _ all λ ms. Keeps-lift (or_panic (filter_application_pvcs O l ms)))
                (Keeps-if (is_listed_by_label H l r) _ _
                  (Keeps-bind _ _ all
                    λ ms. Keeps-lift (or_panic (filter_by O (is_labelled O l) ms)))
                  (Keeps-pure []))))))

  add_ingress_namespace-Safe : Safe H l A (add_ingress_namespace H l)
  unfolding add_ingress_namespace
  add_ingress_namespace-Safe = record { after = λ w h. h }

  get_ocp_related_resources-Safe :
      (gv : String) (r : ApiResource) → Safe H l A (get_ocp_related_resources H l gv r)
  unfolding get_ocp_related_resources
  get_ocp_related_resources-Safe gv r =
      Keeps-bind _ _ (Keeps-if _ _ _ add_ingress_namespace-Safe (Keeps-pure tt))
        λ _. Keeps-bind _ _ (get_resource_objects-Done H l _ r) λ ms. Keeps-lift _

  get_pvs-Safe : (ns : List String) → Safe H l A (get_pvs H l ns)
  unfolding get_pvs
  get_pvs-Safe [] = Keeps-pure []
  get_pvs-Safe (n ∷ ns) = Keeps-bind _ _ (Keeps-attempt _ (asks H l A _)) λ r.
      Keeps-cases r _ _ (λ pv. Keeps-bind _ _ (get_pvs-Safe ns) λ rest. Keeps-pure _)
        (λ e. Keeps-if _ _ _ (get_pvs-Safe ns) (Keeps-raise e))

  collect_and_write_pvs-Safe : (ns : List String) → Safe H l A (collect_and_write_pvs H l ns)
  unfolding collect_and_write_pvs
  collect_and_write_pvs-Safe ns =
      Keeps-bind _ _ (get_pvs-Safe ns)
        λ pvs. Keeps-bind _ _ (write_objects_and_logs-Safe H l A pvs _) λ _. Keeps-pure tt

  collect_if_any-Safe : (ns : List String) → Safe H l A (collect_if_any H l ns)
  collect_if_any-Safe [] = Keeps-pure tt
  collect_if_any-Safe (n ∷ ns) = collect_and_write_pvs-Safe (n ∷ ns)

  mark_collected-Safe : (n : NamespacedName) → Safe H l A (mark_collected H l n)
  unfolding mark_collected
  mark_collected-Safe n = record { after = λ w h. by_test w h (has_name n w.collected) }
    where
      by_test :
          (w : Session H)
          → Done Q w
          → (b : Bool) → Done Q (if b then w else record w { collected = n ∷ w.collected })
      by_test w h true = h
      by_test w h false = h

  is_collected_pvc-Safe : (n : NamespacedName) → Safe H l A (is_collected_pvc H l n)
  unfolding is_collected_pvc
  is_collected_pvc-Safe n = record { after = λ w h. h }

  get_pvcs-Safe : (ns : List NamespacedName) → Safe H l A (get_pvcs H l ns)
  unfolding get_pvcs
  get_pvcs-Safe [] = Keeps-pure []
  get_pvcs-Safe (n ∷ ns) = Keeps-bind _ _ (is_collected_pvc-Safe n) λ collected.
      Keeps-if _ _ _ (get_pvcs-Safe ns) (
        Keeps-bind _ _ (Keeps-attempt _ (asks H l A _)) λ r.
          Keeps-cases r _ _
            (λ pvc.
              Keeps-bind _ _ (mark_collected-Safe n)
                λ _. Keeps-bind _ _ (get_pvcs-Safe ns) λ rest. Keeps-pure _)
            (λ e. get_pvcs-Safe ns))

  collect_pvcs_from_pods-Safe : (pods : List O.Map) → Safe H l A (collect_pvcs_from_pods H l pods)
  unfolding collect_pvcs_from_pods
  collect_pvcs_from_pods-Safe pods =
      Keeps-bind _ _ (get_pvcs-Safe _)
        λ pvcs. Keeps-bind _ _ (write_objects_and_logs-Safe H l A pvcs _) λ _. collect_if_any-Safe _

  write_redacted-Safe : (dir : String) (ms : List O.Map) → Safe H l A (write_redacted H l dir ms)
  unfolding write_redacted
  write_redacted-Safe dir [] = Keeps-pure tt
  write_redacted-Safe dir (m ∷ ms) =
      Keeps-bind _ _ (write_yaml-Safe H l A dir _) λ _. write_redacted-Safe dir ms

  get_trilio_group_resources-Safe :
      (rs : List ApiResource) (gv : String) → Safe H l A (get_trilio_group_resources H l rs gv)
  unfolding get_trilio_group_resources
  get_trilio_group_resources-Safe [] gv = Keeps-pure tt
  get_trilio_group_resources-Safe (r ∷ rs) gv =
      Keeps-bind _ _ (get_resource_objects-Done H l _ r) λ ms.
        Keeps-bind _ _ (write_redacted-Safe r.kind ms) λ _. get_trilio_group_resources-Safe rs gv

  installed_in-Safe : Safe H l A (installed_in H l)
  unfolding installed_in
  installed_in-Safe = record { after = λ w h. h }

  network_policies-Safe : (r : ApiResource) → Safe H l A (network_policies H l r)
  unfolding network_policies
  network_policies-Safe r =
      Keeps-if _ _ _
        (Keeps-bind _ _ (get_resource_objects-Done H l _ r)
          λ ms. Keeps-bind _ _ installed_in-Safe λ ns. Keeps-pure _)
        (Keeps-pure [])

  mark_pvcs-Safe : (ms : List O.Map) → Safe H l A (mark_pvcs H l ms)
  unfolding mark_pvcs
  mark_pvcs-Safe [] = Keeps-pure tt
  mark_pvcs-Safe (m ∷ ms) = Keeps-bind _ _ (mark_collected-Safe _) λ _. mark_pvcs-Safe ms

  after_pvcs-Safe : (r : ApiResource) (ms : List O.Map) → Safe H l A (after_pvcs H l r ms)
  unfolding after_pvcs
  after_pvcs-Safe r ms =
      Keeps-if _ _ _
        (Keeps-bind _ _ (mark_pvcs-Safe ms)
          λ _. Keeps-bind _ _ (Keeps-attempt _ (collect_if_any-Safe _)) λ _. Keeps-pure tt)
        (Keeps-pure tt)

  gather_resource-Safe :
      (openshift : Bool) (gv : String) (r : ApiResource) (found : Found O)
      → Safe H l A (gather_resource H l openshift gv r found)
  unfolding gather_resource
  gather_resource-Safe openshift gv r found =
      Keeps-bind _ _ (filter_resource_objects-Safe gv r) λ kept.
        Keeps-bind _ _ (Keeps-if _ _ _ (get_resource_objects-Done H l _ r) (Keeps-pure []))
          λ wanted.
            Keeps-bind _ _ (Keeps-if _ _ _ (get_ocp_related_resources-Safe gv r) (Keeps-pure []))
              λ ocp. Keeps-bind _ _ (network_policies-Safe r) λ policies.
                Keeps-bind _ _ (write_objects_and_logs-Safe H l A _ r.kind)
                  λ names. Keeps-bind _ _ (after_pvcs-Safe r _) λ _. Keeps-pure _

  gather_resources-Safe :
      (openshift : Bool) (gv : String) (rs : List ApiResource) (found : Found O)
      → Safe H l A (gather_resources H l openshift gv rs found)
  unfolding gather_resources
  gather_resources-Safe openshift gv [] found = Keeps-pure found
  gather_resources-Safe openshift gv (r ∷ rs) found =
      Keeps-if _ _ _ (gather_resources-Safe openshift gv rs _) (
        Keeps-bind _ _ (gather_resource-Safe openshift gv r found)
          λ found'. gather_resources-Safe openshift gv rs found')

  gather_groups-Safe :
      (openshift : Bool) (groups : Dict (List ApiResource)) (found : Found O)
      → Safe H l A (gather_groups H l openshift groups found)
  unfolding gather_groups
  gather_groups-Safe openshift [] found = Keeps-pure found
  gather_groups-Safe openshift ((gv, rs) ∷ more) found =
      Keeps-if _ _ _
        (Keeps-bind _ _ (get_trilio_group_resources-Safe rs gv)
          λ _. gather_groups-Safe openshift more found)
        (Keeps-bind _ _ (gather_resources-Safe openshift gv rs found)
          λ found'. gather_groups-Safe openshift more found')

  forget_collected-Safe : Safe H l A (forget_collected H l)
  unfolding forget_collected
  forget_collected-Safe = record { after = λ w h. h }

  set_install_namespace-Safe : (ns : String) → Safe H l A (set_install_namespace H l ns)
  unfolding set_install_namespace
  set_install_namespace-Safe ns = record { after = λ w h. h }

  filtering_resources-Safe :
      (groups : Dict (List ApiResource)) → Safe H l A (filtering_resources H l groups)
  unfolding filtering_resources get_resource_events
  filtering_resources-Safe groups = Keeps-bind _ _ forget_collected-Safe λ _.
      Keeps-bind _ _ (Keeps-attempt _ (asks H l A _)) λ r.
        Keeps-bind _ _ (gather_groups-Safe _ groups _) λ found.
          Keeps-bind _ _ (collect_pvcs_from_pods-Safe found.pods) λ _.
            Keeps-bind _ _ (get_resource_objects-Done H l _ found.event_resource)
              λ ms. Keeps-bind _ _ (Keeps-lift _) λ events. write_events_to_file-Safe H l A events

  pub collect_logs_and_dump-Safe : Safe H l A (collect_logs_and_dump H l)
  unfolding collect_logs_and_dump check_if_namespaces_exist get_api_resource_list
  collect_logs_and_dump-Safe =
      Keeps-bind _ _
        (Keeps-bind _ _ (asks H l A _) λ known. Keeps-bind _ _ installed_in-Safe λ before.
          Keeps-bind _ _ (set_install_namespace-Safe _)
            λ _. Keeps-bind _ _ (current_namespaces-Done H l) λ given. Keeps-lift _)
        λ _. Keeps-bind _ _ (Keeps-bind _ _ (asks H l A _) λ answer. Keeps-lift _) λ groups.
          Keeps-bind _ _ (filtering_resources-Safe groups)
            λ _. Keeps-bind _ _ (zip_dir-Safe H l A) λ _. remove_output-Safe H l A

module _ {O : Objects} (T : IsTree O) (l : Options) where
  -- A persistent volume is written without the credentials of an NFS volume, and only the output
  -- directory is removed as a whole, where that was not switched off.
  abbrev pub IsSafeChange : Change O → Type 0
  IsSafeChange (yaml p m) = O.kind m ≡ persistent_volume_kind → HasNoCredentials T m
  IsSafeChange (removal_all p) = (p ≡ l.output_dir) × (l.clean_output ≡ false)
  IsSafeChange (directory p mode) = Unit
  IsSafeChange (file p) = Unit
  IsSafeChange (bytes p b) = Unit
  IsSafeChange (event p m) = Unit
  IsSafeChange (removal p) = Unit
  IsSafeChange (archived zip p) = Unit

  allowed : Allows l IsSafeChange
  allowed = record {
    directories = λ p mode. tt;
    files = λ p. tt;
    writes = λ p b. tt;
    yamls = λ p m. to_write-HasNoCredentials T m;
    events = λ p m. tt;
    removals = λ p. tt;
    archives = λ zip p. tt;
    output = λ k. (refl, k);
  }

  -- Where the helpers of unstructured objects keep their promises, whatever the cluster and the file
  -- system answer: from a session without changes, no object of the kind of a persistent volume that
  -- a run writes has a server, a path or a word on read-only for NFS, no directory but the output
  -- directory is removed with all in it, and that one only where `CleanOutput` is false.
  pub collect_logs_and_dump-IsSafeChange :
      (H : Host O) (w : Session H)
      → w.done ≡ []
      → All IsSafeChange (collect_logs_and_dump H l w).1.done
  collect_logs_and_dump-IsSafeChange H w h =
      (collect_logs_and_dump-Safe H l allowed).after w (subst (All IsSafeChange) (sym h) tt)
