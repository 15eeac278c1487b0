-- ===== src/Collector/Filters.antt =====
-- Which objects of a listing are kept, as tests and filters without calls: tools/log-collector
-- helper.go, and `filterInputNS`, `filterApplicationPVCs`, `checkIfMatchesInputGVKs`,
-- `getAPIResourceList` and `isControlPlanePod` of log_collector.go.
use tvk_plugins.Base.{
  String, ◌==◌, ◌<>◌, Bool, true, false, not, ◌||◌, ◌&&◌, if◌then◌else◌, Option, none, some, List,
  [], ◌∷◌, ◌++◌, contains, starts_with,
}
use tvk_plugins.Base.Dict.{Dict, lookup, insert, get_or}
use tvk_plugins.Action.{Result, ok, err}
use tvk_plugins.Text.{split, equal_fold}
use tvk_plugins.Collector.Labels.{
  GroupVersionKind, LabelSelector, has_value, check_label_exist, match_label_selectors,
}
use tvk_plugins.Collector.Host.{
  Objects, NamespacedName, ContainerState, ContainerStatus, PodView, ApiResource, ResourceGroup,
}
use tvk_plugins.Collector.Redaction.{present}

-- `LogCollector`, the fields that a run does not change
pub record Options : Type 0 where
  pub output_dir : String
  pub clean_output : Bool
  pub clustered : Bool
  pub label_selectors : List LabelSelector
  pub gvks : List GroupVersionKind

abbrev pub part_of : String → Dict String
part_of product = ("app.kubernetes.io/part-of", product) ∷ []

abbrev pub trilio_prefix : String
trilio_prefix = "k8s-triliovault"

-- The label of one of the products.
unfoldable pub has_product_label : Dict String → Bool
unfolding check_label_exist
has_product_label labels =
    check_label_exist (part_of trilio_prefix) labels
    || check_label_exist (part_of "k8s-triliovault-operator") labels
    || check_label_exist (part_of "tvk-console-plugin") labels

abbrev pub non_labeled_resources : List String
non_labeled_resources =
    "ResourceQuota" ∷ "LimitRange" ∷ "VolumeSnapshot" ∷ "Node" ∷ "StorageClass"
    ∷ "VolumeSnapshotClass" ∷ []

abbrev pub exclude_resources : List String
exclude_resources = "Secret" ∷ "PackageManifest" ∷ []

-- `getContainerStatusValue`
pub record ContainerStat : Type 0 where
  pub prev : Bool
  pub curr : Bool

abbrev has_log : ContainerState → Bool
has_log s = not s.waiting && (s.terminated || s.running)

unfoldable pub container_status_value : ContainerStatus → ContainerStat
container_status_value c = record { prev = has_log c.last_state; curr = has_log c.state }

unfoldable pub add_statuses : List ContainerStatus → Dict ContainerStat → Dict ContainerStat
unfolding container_status_value
add_statuses [] d = d
add_statuses (c ∷ cs) d =
    let s = container_status_value c in
    add_statuses cs (if s.curr || s.prev then insert c.name s d else d)

-- `getContainers`
unfoldable pub get_containers : PodView → Dict ContainerStat
unfolding add_statuses
get_containers p = add_statuses p.init_container_statuses (add_statuses p.container_statuses [])

-- `isControlPlanePod`
unfoldable pub is_control_plane_pod : PodView → Bool
is_control_plane_pod p =
    has_value (lookup "app.kubernetes.io/instance" p.labels) "k8s-triliovault-control-plane"

-- `getAPIGroupVersionResourcePath`
unfoldable pub resource_path : String → String
resource_path v = if v == "v1" then "/api/v1" else "/apis/" <> v

-- `checkIfMatchesInputGVKs`: the group is set only if the version has two parts.
abbrev set_group_version : String → List String → ApiResource → ApiResource
set_group_version gv (g ∷ v ∷ []) r = record r { group = g; version = v }
set_group_version gv _ r = record r { version = gv }

abbrev is_of : ApiResource → GroupVersionKind → Bool
is_of r g = equal_fold g.group r.group && equal_fold g.version r.version && equal_fold g.kind r.kind

unfoldable pub any_gvk : ApiResource → List GroupVersionKind → Bool
any_gvk r [] = false
any_gvk r (g ∷ gs) = is_of r g || any_gvk r gs

unfoldable pub matches_input_gvks : Options → ApiResource → String → Bool
unfolding any_gvk split
matches_input_gvks l r gv = any_gvk (set_group_version gv (split "/" gv) r) l.gvks

-- `getAPIResourceList`: a resource is there once for each of its verbs that is "list".
abbrev add_resource : String → ApiResource → Dict (List ApiResource) → Dict (List ApiResource)
add_resource gv r m = insert gv (get_or gv [] m ++ (r ∷ [])) m

unfoldable pub add_by_verbs :
    String → ApiResource → List String → Dict (List ApiResource) → Dict (List ApiResource)
add_by_verbs gv r [] m = m
add_by_verbs gv r (v ∷ vs) m = add_by_verbs gv r vs (if v == "list" then add_resource gv r m else m)

unfoldable pub add_resources :
    String → List ApiResource → Dict (List ApiResource) → Dict (List ApiResource)
unfolding add_by_verbs
add_resources gv [] m = m
add_resources gv (r ∷ rs) m = add_resources gv rs (add_by_verbs gv r r.verbs m)

unfoldable pub resource_map : List ResourceGroup → Dict (List ApiResource) → Dict (List ApiResource)
unfolding add_resources
resource_map [] m = m
resource_map (g ∷ gs) m = resource_map gs (add_resources g.group_version g.resources m)

abbrev pub same_name : NamespacedName → NamespacedName → Bool
same_name a b = a.namespace == b.namespace && a.name == b.name

abbrev pub has_name : NamespacedName → List NamespacedName → Bool
has_name a [] = false
has_name a (b ∷ bs) = same_name b a || has_name a bs

-- The keys of a map that was built from these names.
unfoldable pub name_set : List NamespacedName → List NamespacedName → List NamespacedName
name_set seen [] = []
name_set seen (a ∷ names) =
    let rest = name_set seen names in
    let more = a ∷ name_set (a ∷ seen) names in if has_name a seen then rest else more

module _ (O : Objects) where
  abbrev pub filter : (O.Map → Bool) → List O.Map → List O.Map
  filter p [] = []
  filter p (m ∷ ms) = if p m then m ∷ filter p ms else filter p ms

  -- `filterTvkCSV`
  unfoldable pub filter_tvk_csv : List O.Map → List O.Map
  filter_tvk_csv ms = filter (λ m. starts_with (O.name m) trilio_prefix) ms

  -- `filterInputNS`
  unfoldable pub filter_input_ns : Options → List String → List O.Map → List O.Map
  filter_input_ns l namespaces ms =
      if l.clustered then ms else filter (λ m. contains namespaces (O.name m)) ms

  -- A field that is text; "" where there is none.
  abbrev pub text_or_empty : Option String → String
  text_or_empty none = ""
  text_or_empty (some s) = s

  abbrev pub crd_groups : List String
  crd_groups = "triliovault.trilio.io" ∷ "snapshot.storage.k8s.io" ∷ "csi.storage.k8s.io" ∷ []

  -- `filterTvkSnapshotAndCSICRD`
  unfoldable pub filter_crds : List O.Map → Result (List O.Map)
  filter_crds [] = ok []
  filter_crds (m ∷ ms) = elim (O.nested_string ("spec" ∷ "group" ∷ []) m) [
    | err e ↦ err e
    | ok group ↦ elim (filter_crds ms) [
      | err e ↦ err e
      | ok rest ↦ ok (if contains crd_groups (text_or_empty group) then m ∷ rest else rest)
    ]
  ]

  abbrev pub has_labels : O.Map → Bool
  has_labels m = elim (O.labels m) [ [] ↦ false | _ ↦ true ]

  -- Nothing is the panic of a selector that is not valid.
  abbrev pub selected : Options → O.Map → Option Bool
  selected l m = elim l.label_selectors [
    | [] ↦ some false
    | s ∷ ss ↦ match_label_selectors O.requirement_matches (O.labels m) (s ∷ ss)
  ]

  -- The test of `filterTvkResourcesByLabel`.
  unfoldable pub is_labelled : Options → O.Map → Option Bool
  unfolding has_product_label match_label_selectors
  is_labelled l m =
      if has_labels m
      then if has_product_label (O.labels m) then some true else selected l m
      else some false

  -- The tests of `filterApplicationPVCs`, where there are selectors or the run is clustered.
  abbrev pub if_clustered : Options → Bool
  if_clustered l = elim l.label_selectors [ [] ↦ l.clustered | _ ↦ false ]

  abbrev pub or_clustered : Options → Option Bool → Option Bool
  or_clustered l none = none
  or_clustered l (some true) = some true
  or_clustered l (some false) = some (if_clustered l)

  unfoldable pub is_application_pvc : Options → O.Map → Option Bool
  unfolding is_labelled
  is_application_pvc l m = or_clustered l (is_labelled l m)

  abbrev pub put : O.Map → Option Bool → Option (List O.Map) → Option (List O.Map)
  put m none rest = none
  put m (some b) none = none
  put m (some b) (some ms) = some (if b then m ∷ ms else ms)

  unfoldable pub filter_by : (O.Map → Option Bool) → List O.Map → Option (List O.Map)
  filter_by p [] = some []
  filter_by p (m ∷ ms) = put m (p m) (filter_by p ms)

  unfoldable pub filter_application_pvcs : Options → List O.Map → Option (List O.Map)
  unfolding filter_by is_application_pvc
  filter_application_pvcs l pvcs = elim l.label_selectors [
    | [] ↦ if l.clustered then filter_by (is_application_pvc l) pvcs else some pvcs
    | s ∷ ss ↦ filter_by (is_application_pvc l) pvcs
  ]

  -- The namespace of an object, where "" stands for "default".
  abbrev pub namespace_of : O.Map → String
  namespace_of m = if O.namespace m == "" then "default" else O.namespace m

  -- `getPVNameFromPVC`
  abbrev volume_name : Option O.Map → String
  volume_name none = ""
  volume_name (some spec) = text_or_empty (present (O.nested_string ("volumeName" ∷ []) spec))

  unfoldable pub pv_name_of : O.Map → String
  pv_name_of pvc = volume_name (present (O.nested_map ("spec" ∷ []) pvc))

  -- `getPVCsUsedByPods`: the claim of one volume. Where the claim's name is no text, `found` is false.
  abbrev claim_name : Option O.Map → Option String
  claim_name none = none
  claim_name (some claim) = present (O.nested_string ("claimName" ∷ []) claim)

  abbrev claim_of : Option O.Map → Option String
  claim_of none = none
  claim_of (some vol) = claim_name (present (O.nested_map ("persistentVolumeClaim" ∷ []) vol))

  unfoldable pub claims_of : String → List O.Value → List NamespacedName
  claims_of ns [] = []
  claims_of ns (v ∷ vs) = elim (claim_of (O.as_map v)) [
    | none ↦ claims_of ns vs
    | some c ↦ record { namespace = ns; name = c } ∷ claims_of ns vs
  ]

  abbrev volumes_or_none : Option (List O.Value) → List O.Value
  volumes_or_none none = []
  volumes_or_none (some vs) = vs

  unfoldable pub claims_of_pods : List O.Map → List NamespacedName
  unfolding claims_of
  claims_of_pods [] = []
  claims_of_pods (p ∷ ps) =
      claims_of (namespace_of p)
        (volumes_or_none (present (O.nested_slice ("spec" ∷ "volumes" ∷ []) p)))
      ++ claims_of_pods ps

  unfoldable pub pvcs_used_by_pods : List O.Map → List NamespacedName
  unfolding claims_of_pods name_set
  pvcs_used_by_pods ps = name_set [] (claims_of_pods ps)
