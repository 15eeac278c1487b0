-- ===== src/Collector/Gather/Reads.antt =====
-- The listings of log_collector.go change nothing: `getResourceObjects` of tools/log-collector.
use tvk_plugins.Base.{String, List, [], ◌∷◌}
use tvk_plugins.Action.Keeps.{Keeps, Keeps-pure, Keeps-attempt, Keeps-if, Keeps-bind}
use tvk_plugins.Collector.Host.{Objects, Host, ApiResource, Change, Done}
use tvk_plugins.Collector.Host.Changes.{ask-Done}
use tvk_plugins.Collector.Filters.{Options}
use tvk_plugins.Collector.Gather.{
  current_namespaces, list_or_empty, list_each, get_resource_objects,
}

module _ {O : Objects} (H : Host O) (l : Options) {Q : Change O → Type 0} where
  pub current_namespaces-Done : Keeps (Done Q) (current_namespaces H l)
  unfolding current_namespaces
  current_namespaces-Done = record { after = λ w h. h }

  list_or_empty-Done : (p : String) → Keeps (Done Q) (list_or_empty H l p)
  unfolding list_or_empty
  list_or_empty-Done p = Keeps-bind _ _ (Keeps-attempt _ (ask-Done Q _)) λ r. Keeps-pure _

  list_each-Done : (p n : String) (ns : List String) → Keeps (Done Q) (list_each H l p n ns)
  unfolding list_each
  list_each-Done p n [] = Keeps-pure []
  list_each-Done p n (ns ∷ more) =
      Keeps-bind _ _ (list_or_empty-Done _)
        λ ms. Keeps-bind _ _ (list_each-Done p n more) λ rest. Keeps-pure _

  pub get_resource_objects-Done :
      (p : String) (r : ApiResource) → Keeps (Done Q) (get_resource_objects H l p r)
  unfolding get_resource_objects
  get_resource_objects-Done p r =
      Keeps-if _ _ _ (Keeps-bind _ _ current_namespaces-Done λ ns. list_each-Done p r.name ns)
        (list_or_empty-Done _)
