-- ===== src/Collector/Gather.antt =====
-- The run of the log collector: which objects it lists, keeps and writes (log_collector.go).
pub mod Reads
pub mod Ocp
pub mod Events
pub mod Run
use tvk_plugins.Base.{
  String, ◌<>◌, ◌==◌, ◌||◌, ◌&&◌, not, Bool, true, false, if◌then◌else◌, Option, none, some, List,
  [], ◌∷◌, ◌++◌, contains,
}
use tvk_plugins.Action.{
  Error, Result, ok, err, Action, failure, is_not_found, is_forbidden, pure, raise, lift, attempt,
  ◌>>=◌, ◌>>◌,
}
use tvk_plugins.Collector.Host.{Objects, Host, ApiResource, Session, ask}
use tvk_plugins.Collector.Filters.{
  Options, non_labeled_resources, exclude_resources, resource_path, filter_tvk_csv, filter_input_ns,
  filter_crds, filter_application_pvcs, filter_by, is_labelled,
}

-- A nil dereference: no caller looks at it, and the run ends.
abbrev pub or_panic {ℓ} : {A : Type ℓ} → Option A → Result A
or_panic none = err (failure "panic: nil pointer dereference")
or_panic (some a) = ok a

module _ {O : Objects} (H : Host O) (l : Options) where
  unfoldable pub current_namespaces : Action (Session H) (List String)
  current_namespaces w = (ok w.namespaces, w)

  abbrev pub or_empty : Result (List O.Map) → List O.Map
  or_empty (ok ms) = ms
  or_empty (err e) = []

  -- A listing whose error is logged.
  unfoldable pub list_or_empty : String → Action (Session H) (List O.Map)
  list_or_empty path = do r ← attempt (ask H (H.list_objects path)); pure (or_empty r)

  unfoldable pub list_each : String → String → List String → Action (Session H) (List O.Map)
  unfolding list_or_empty
  list_each path name [] = pure []
  list_each path name (ns ∷ more) = do
    ms ← list_or_empty (path <> "/namespaces/" <> ns <> "/" <> name)
    rest ← list_each path name more
    pure (ms ++ rest)

  -- `getResourceObjects`
  unfoldable pub get_resource_objects : String → ApiResource → Action (Session H) (List O.Map)
  unfolding list_each list_or_empty current_namespaces
  get_resource_objects path r =
      if r.namespaced && not l.clustered
      then current_namespaces >>= list_each path r.name
      else list_or_empty (path <> "/" <> r.name)

  -- The last test of `filterResourceObjects`, behind those on the kinds and names above it.
  abbrev pub is_listed_by_label : ApiResource → Bool
  is_listed_by_label r =
      (r.namespaced || (l.clustered && not r.namespaced)) && not (contains exclude_resources r.kind)

  -- `filterResourceObjects`
  unfoldable pub filter_resource_objects : String → ApiResource → Action (Session H) (List O.Map)
  unfolding get_resource_objects filter_crds filter_input_ns filter_tvk_csv filter_application_pvcs
      filter_by is_labelled resource_path
  filter_resource_objects gv r =
      let all = get_resource_objects (resource_path gv) r in
      if contains non_labeled_resources r.kind
      then all
      else if r.name == "customresourcedefinitions"
      then all >>= (λ ms. lift (filter_crds O ms))
      else if r.name == "namespaces"
      then all >>= (λ ms. current_namespaces >>= λ ns. pure (filter_input_ns O l ns ms))
      else if r.name == "clusterserviceversions"
      then all >>= (λ ms. pure (filter_tvk_csv O ms))
      else if r.name == "persistentvolumeclaims"
      then all >>= (λ ms. lift (or_panic (filter_application_pvcs O l ms)))
      else if is_listed_by_label r
      then all >>= (λ ms. lift (or_panic (filter_by O (is_labelled O l) ms)))
      else pure []
