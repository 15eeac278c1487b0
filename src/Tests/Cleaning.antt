-- ===== src/Tests/Cleaning.antt =====
-- Every cleanup of the shelf succeeds, and so a run leaves nothing of its own on it.
use tvk_plugins.Base.{
  String, ◌==◌, ◌&&◌, true, false, ◌≡◌, refl, ◌⊎◌, inl, inr, Option, none, some, List, [], ◌∷◌,
  Bool, if◌then◌else◌,
}
use tvk_plugins.Action.{ok, err, api, not_found, ◌>>=◌}
use tvk_plugins.Kube.{Labels, Gvk, Target, World, ask, send}
use tvk_plugins.Preflight.Suffix.{create_resource_name_suffix}
use tvk_plugins.Preflight.Delete.{delete_k8s_resource, remove_finalizer, drop_finalizers}
use tvk_plugins.Preflight.Cleanup.{Cleanup, selector, cleanup_preflight_resources, is_gone}
use tvk_plugins.Preflight.Cleanup.Success.{
  AllGone, BackupsGone, Swept, cleanup_preflight_resources-eq-ok,
}
use tvk_plugins.Preflight.Cleanup.Store.{Address}
use tvk_plugins.Preflight.Run.{perform_preflight_checks}
use tvk_plugins.Preflight.Run.Whole.{own_cleanup, checked}
use tvk_plugins.Preflight.Run.Left.{perform_preflight_checks-leaves}
use tvk_plugins.Tests.Sample.{options, get_from}
use tvk_plugins.Tests.Shelf.{shelf, shelf-IsStore, full}

-- A get of the shelf gives an object or finds nothing.
get_from-eq :
    (ts : List Target) (ns name : String)
    → ((t : Target) × (get_from ts ns name ≡ ok t))
      ⊎ (get_from ts ns name ≡ err (api not_found name))
get_from-eq [] ns name = inr refl
get_from-eq (t ∷ ts) ns name =
    by_test (get_from-eq ts ns name) (t.metadata.namespace == ns && t.metadata.name == name)
  where
    by_test :
        ((u : Target) × (get_from ts ns name ≡ ok u))
          ⊎ (get_from ts ns name ≡ err (api not_found name))
        → (b : Bool)
        → ((u : Target) × ((if b then ok t else get_from ts ns name) ≡ ok u))
          ⊎ ((if b then ok t else get_from ts ns name) ≡ err (api not_found name))
    by_test rest true = inl (t, refl)
    by_test rest false = rest

dropped :
    (t : Target) (f : Option (List String)) (w : World shelf)
    → is_gone (drop_finalizers shelf t f w).0 ≡ true
unfolding drop_finalizers ◌>>=◌ ask send
dropped t none w = refl
dropped t (some fs) w = elim (get_from-eq w.cluster t.metadata.namespace t.metadata.name) [
  | inl (u, e) ↦ rw e refl
  | inr e ↦ rw e refl
]

went : (t : Target) (w : World shelf) → is_gone (delete_k8s_resource shelf t w).0 ≡ true
unfolding delete_k8s_resource remove_finalizer ◌>>=◌ send
went t w = dropped t t.metadata.finalizers _

targets_went : (ts : List Target) (w : World shelf) → AllGone shelf ts w
targets_went [] w = tt
targets_went (t ∷ ts) w = (went t w, targets_went ts _)

backups_went : (ts : List Target) (w : World shelf) → BackupsGone shelf ts w
backups_went [] w = tt
backups_went (t ∷ ts) w = (λ _. went t w, backups_went ts _)

kinds_done :
    (labels : Labels) (ns : String) (gs : List Gvk) (w : World shelf) → Swept shelf labels ns gs w
kinds_done labels ns [] w = tt
kinds_done labels ns (g ∷ gs) w = (_, refl, targets_went _ _, kinds_done labels ns gs _)

shelf_cleaned : (c : Cleanup) (w : World shelf) → (cleanup_preflight_resources shelf c w).0 ≡ ok tt
shelf_cleaned c w = (cleanup_preflight_resources-eq-ok shelf c w).1 (record {
  groups = (shelf.server_groups w.cluster).0.0;
  answered = refl;
  swept = kinds_done _ _ _ _;
  namespaces = (_, refl, backups_went _ _);
})

-- A pod that carries the labels of the run when it begins.
abbrev own_pod : Address
own_pod = record {
  gvk = record { group = ""; version = "v1"; kind = "Pod" };
  namespace = "tvk";
  name = "dnsutils-zzzzzz";
}

suffix_drawn : (create_resource_name_suffix shelf full).0 ≡ ok "zzzzzz"
unfolding create_resource_name_suffix ◌>>=◌ ask
suffix_drawn = refl

perform_preflight_checks-leaves_example :
    ¬ shelf-IsStore.IsThere own_pod
      (selector (own_cleanup shelf options "zzzzzz"))
      (perform_preflight_checks shelf options full).1.cluster
unfolding tvk_plugins.Preflight.Cleanup.gvks_of_versions tvk_plugins.Preflight.Cleanup.versions_in
    tvk_plugins.Preflight.Cleanup.delete_namespace
perform_preflight_checks-leaves_example =
    perform_preflight_checks-leaves shelf options shelf-IsStore full "zzzzzz" own_pod suffix_drawn
      (inr refl)
      (shelf_cleaned (own_cleanup shelf options "zzzzzz") (checked shelf options "zzzzzz" full))
      (inl (inr (inr (inl refl)), refl))
