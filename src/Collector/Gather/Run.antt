-- ===== src/Collector/Gather/Run.antt =====
-- The run as a whole: `filteringResources`, `getTrilioGroupResources`,
-- `collectApplicationPVCsFromPods`, `collectAndWritePVs`, `getResourceEvents`,
-- `checkIfNamespacesExist`, `getAPIResourceList` and `CollectLogsAndDump`.
pub mod Safety
pub mod Licenses
pub mod Secrets
pub mod Claims
use tvk_plugins.Base.{
  String, ◌<>◌, ◌==◌, ◌||◌, ◌&&◌, not, Bool, true, false, if◌then◌else◌, Option, none, some, List,
  [], ◌∷◌, ◌++◌, contains,
}
use tvk_plugins.Base.Dict.{Dict, lookup, insert}
use tvk_plugins.Action.{
  Error, Result, ok, err, Action, failure, is_not_found, is_forbidden, is_discovery_failed, pure,
  raise, lift, attempt, ◌>>=◌, ◌>>◌,
}
use tvk_plugins.Text.{trim}
use tvk_plugins.Preflight.Checks.{is_openshift}
use tvk_plugins.Collector.Host.{
  Objects, Host, ApiResource, ResourceGroup, NamespacedName, NamespaceView, Session, ask,
}
use tvk_plugins.Collector.Filters.{
  Options, resource_path, resource_map, matches_input_gvks, has_name, namespace_of, pv_name_of,
  pvcs_used_by_pods,
}
use tvk_plugins.Collector.Redaction.{is_nfs_pv, sanitize_nfs_pv, redact_license}
use tvk_plugins.Collector.Writer.{
  write_yaml, write_objects_and_logs, write_events_to_file, zip_dir, remove_output,
}
use tvk_plugins.Collector.Gather.{current_namespaces, get_resource_objects, filter_resource_objects}
use tvk_plugins.Collector.Gather.Ocp.{get_ocp_related_resources}
use tvk_plugins.Collector.Gather.Events.{aggregate_events}

-- The keys of `pvNames`.
unfoldable pub add_text : String → List String → List String
add_text s seen = if s == "" || contains seen s then seen else seen ++ (s ∷ [])

-- What the loop over the resources carries: the pods, the names by kind, the event resource.
pub record Found (O : Objects) : Type 0 where
  pub pods : List O.Map
  pub names : Dict (List NamespacedName)
  pub event_resource : ApiResource

module _ {O : Objects} (H : Host O) (l : Options) where
  unfoldable pub is_collected_pvc : NamespacedName → Action (Session H) Bool
  is_collected_pvc n w = (ok (has_name n w.collected), w)

  -- A key of a map is there once, however often it is set.
  unfoldable pub mark_collected : NamespacedName → Action (Session H) (Unit {0})
  mark_collected n w =
      (ok tt, if has_name n w.collected then w else record w { collected = n ∷ w.collected })

  unfoldable pub forget_collected : Action (Session H) (Unit {0})
  forget_collected w = (ok tt, record w { collected = [] })

  abbrev pub is_skipped : Error → Bool
  is_skipped e = is_not_found e || is_forbidden e

  -- The volumes of these names; one that is not there or not allowed is left out.
  unfoldable pub get_pvs : List String → Action (Session H) (List O.Map)
  unfolding is_nfs_pv sanitize_nfs_pv resource_path
  get_pvs [] = pure []
  get_pvs (n ∷ ns) = do
    r ← attempt (ask H (H.get_object (resource_path "v1" <> "/persistentvolumes/" <> n)))
    elim r [
      | err e ↦ if is_skipped e then get_pvs ns else raise e
      | ok pv ↦ do
        rest ← get_pvs ns
        pure ((if is_nfs_pv O pv then sanitize_nfs_pv O pv else pv) ∷ rest)
    ]

  -- `collectAndWritePVs`
  unfoldable pub collect_and_write_pvs : List String → Action (Session H) (Unit {0})
  unfolding get_pvs write_objects_and_logs
  collect_and_write_pvs names = do
    pvs ← get_pvs names
    write_objects_and_logs H l pvs "PersistentVolume"
    pure tt

  -- The claims that are not collected yet and can be read; each is marked.
  unfoldable pub get_pvcs : List NamespacedName → Action (Session H) (List O.Map)
  unfolding is_collected_pvc mark_collected resource_path
  get_pvcs [] = pure []
  get_pvcs (n ∷ ns) = do
    collected ← is_collected_pvc n
    if collected then get_pvcs ns else (do
      r ← attempt (
          ask H (
            H.get_object (
              resource_path "v1"
              <> "/namespaces/"
              <> n.namespace
              <> "/persistentvolumeclaims/"
              <> n.name)))
      elim r [
        | err e ↦ get_pvcs ns
        | ok pvc ↦ do mark_collected n; rest ← get_pvcs ns; pure (pvc ∷ rest)
      ])

  unfoldable pub pv_names : List O.Map → List String → List String
  unfolding add_text pv_name_of
  pv_names [] names = names
  pv_names (m ∷ ms) names = pv_names ms (add_text (pv_name_of O m) names)

  abbrev pub collect_if_any : List String → Action (Session H) (Unit {0})
  collect_if_any [] = pure tt
  collect_if_any (n ∷ ns) = collect_and_write_pvs (n ∷ ns)

  -- `collectApplicationPVCsFromPods`
  unfoldable pub collect_pvcs_from_pods : List O.Map → Action (Session H) (Unit {0})
  unfolding get_pvcs pv_names collect_and_write_pvs pvcs_used_by_pods
  collect_pvcs_from_pods pods = do
    pvcs ← get_pvcs (pvcs_used_by_pods O pods)
    write_objects_and_logs H l pvcs "PersistentVolumeClaim"
    collect_if_any (pv_names pvcs [])

  unfoldable pub write_redacted : String → List O.Map → Action (Session H) (Unit {0})
  unfolding redact_license write_yaml
  write_redacted dir [] = pure tt
  write_redacted dir (m ∷ ms) = do write_yaml H l dir (redact_license O m); write_redacted dir ms

  -- `getTrilioGroupResources`
  unfoldable pub get_trilio_group_resources :
      List ApiResource → String → Action (Session H) (Unit {0})
  unfolding write_redacted get_resource_objects
  get_trilio_group_resources [] gv = pure tt
  get_trilio_group_resources (r ∷ rs) gv = do
    ms ← get_resource_objects H l (resource_path gv) r
    write_redacted r.kind ms
    get_trilio_group_resources rs gv

  -- The policies of the namespace of the product, read at the end of one round of the loop.
  abbrev in_namespace : String → List O.Map → List O.Map
  in_namespace ns [] = []
  in_namespace ns (m ∷ ms) =
      if O.namespace m == ns then m ∷ in_namespace ns ms else in_namespace ns ms

  unfoldable pub installed_in : Action (Session H) String
  installed_in w = (ok w.install_namespace, w)

  unfoldable pub network_policies : ApiResource → Action (Session H) (List O.Map)
  unfolding installed_in
  network_policies r =
      if r.kind == "NetworkPolicy"
      then get_resource_objects H l "/apis/networking.k8s.io/v1" r
        >>= (λ ms. installed_in >>= λ ns. pure (in_namespace ns ms))
      else pure []

  unfoldable pub mark_pvcs : List O.Map → Action (Session H) (Unit {0})
  unfolding mark_collected
  mark_pvcs [] = pure tt
  mark_pvcs (m ∷ ms) = do
    mark_collected (record { namespace = namespace_of O m; name = O.name m })
    mark_pvcs ms

  -- Claims are marked and their volumes written; an error of these is logged.
  unfoldable pub after_pvcs : ApiResource → List O.Map → Action (Session H) (Unit {0})
  unfolding mark_pvcs pv_names collect_and_write_pvs
  after_pvcs r ms =
      if r.name == "persistentvolumeclaims"
      then mark_pvcs ms >>= (λ _. attempt (collect_if_any (pv_names ms [])) >>= λ _. pure tt)
      else pure tt

  -- One resource of the loop of `filteringResources`.
  unfoldable pub gather_resource :
      Bool → String → ApiResource → Found O → Action (Session H) (Found O)
  unfolding filter_resource_objects get_ocp_related_resources network_policies after_pvcs
  gather_resource openshift gv r found = do
    kept ← filter_resource_objects H l gv r
    wanted ←
        if matches_input_gvks l r gv then get_resource_objects H l (resource_path gv) r else pure []
    ocp ← if openshift then get_ocp_related_resources H l gv r else pure []
    policies ← network_policies r
    let ms = kept ++ wanted ++ ocp ++ policies
    names ← write_objects_and_logs H l ms r.kind
    after_pvcs r ms
    pure (record found {
      pods = if r.kind == "Pod" then found.pods ++ ms else found.pods;
      names = elim names [ [] ↦ found.names | n ∷ ns ↦ insert r.kind (n ∷ ns) found.names ];
    })

  unfoldable pub gather_resources :
      Bool → String → List ApiResource → Found O → Action (Session H) (Found O)
  unfolding gather_resource
  gather_resources openshift gv [] found = pure found
  gather_resources openshift gv (r ∷ rs) found =
      if r.name == "events"
      then gather_resources openshift gv rs (record found { event_resource = r })
      else gather_resource openshift gv r found >>= gather_resources openshift gv rs

  unfoldable pub gather_groups :
      Bool → Dict (List ApiResource) → Found O → Action (Session H) (Found O)
  unfolding gather_resources get_trilio_group_resources
  gather_groups openshift [] found = pure found
  gather_groups openshift ((gv, rs) ∷ more) found =
      if gv == "triliovault.trilio.io/v1"
      then get_trilio_group_resources rs gv >>= (λ _. gather_groups openshift more found)
      else gather_resources openshift gv rs found >>= gather_groups openshift more

  -- `getResourceEvents`
  unfoldable pub get_resource_events :
      ApiResource → Dict (List NamespacedName) → Action (Session H) (Unit {0})
  unfolding aggregate_events write_events_to_file
  get_resource_events r names = do
    ms ← get_resource_objects H l (resource_path "v1") r
    events ← lift (aggregate_events O ms names)
    write_events_to_file H l events

  -- The zero value of an API resource.
  abbrev pub no_resource : ApiResource
  no_resource = record {
    name = "";
    kind = "";
    group = "";
    version = "";
    namespaced = false;
    verbs = [];
  }

  -- `filteringResources`, over the entries of the map in the order in which Go visits them.
  unfoldable pub filtering_resources : Dict (List ApiResource) → Action (Session H) (Unit {0})
  unfolding forget_collected gather_groups collect_pvcs_from_pods get_resource_events is_openshift
  filtering_resources groups = do
    forget_collected
    r ← attempt (ask H (H.server_resources "security.openshift.io/v1"))
    found ←
        gather_groups (is_openshift r) groups
          (record { pods = []; names = []; event_resource = no_resource })
    collect_pvcs_from_pods found.pods
    get_resource_events found.event_resource found.names

  unfoldable pub set_install_namespace : String → Action (Session H) (Unit {0})
  set_install_namespace ns w = (ok tt, record w { install_namespace = ns })

  -- The namespace with the label of the product is that of the product, the last one if several.
  unfoldable pub install_namespace_of : List NamespaceView → String → String
  unfolding lookup
  install_namespace_of [] found = found
  install_namespace_of (n ∷ ns) found = elim (lookup "trilio-label" n.labels) [
    | none ↦ install_namespace_of ns found
    | some _ ↦ install_namespace_of ns n.name
  ]

  abbrev namespace_names : List NamespaceView → List String
  namespace_names [] = []
  namespace_names (n ∷ ns) = n.name ∷ namespace_names ns

  -- The given namespaces that the cluster does not have.
  unfoldable pub missing_namespaces : List String → List String → List String
  missing_namespaces known [] = []
  missing_namespaces known (ns ∷ more) =
      let rest = missing_namespaces known more in
      if contains known (trim ns) then rest else trim ns ∷ rest

  abbrev none_missing : List String → Result (Unit {0})
  none_missing [] = ok tt
  none_missing (n ∷ ns) = err (failure "specified namespaces doesn't exists in the cluster")

  -- `checkIfNamespacesExist`
  unfoldable pub check_if_namespaces_exist : Action (Session H) (Unit {0})
  unfolding installed_in set_install_namespace install_namespace_of missing_namespaces
  check_if_namespaces_exist = do
    known ← ask H H.list_namespaces
    before ← installed_in
    set_install_namespace (install_namespace_of known before)
    given ← current_namespaces H l
    lift (none_missing (missing_namespaces (namespace_names known) given))

  -- `getAPIResourceList`: a discovery that failed in part still gives its list.
  unfoldable pub get_api_resource_list : Action (Session H) (Dict (List ApiResource))
  unfolding resource_map
  get_api_resource_list = do
    answer ← ask H (λ s. let (a, s') = H.preferred_resources s in (ok a, s'))
    lift (usable answer)
    where
      usable : List ResourceGroup × Option Error → Result (Dict (List ApiResource))
      usable (groups, none) = ok (resource_map groups [])
      usable (groups, some e) = if is_discovery_failed e then ok (resource_map groups []) else err e

  -- `CollectLogsAndDump`
  unfoldable pub collect_logs_and_dump : Action (Session H) (Unit {0})
  unfolding check_if_namespaces_exist get_api_resource_list filtering_resources zip_dir
  collect_logs_and_dump = do
    check_if_namespaces_exist
    groups ← get_api_resource_list
    filtering_resources groups
    zip_dir H l
    remove_output H l
