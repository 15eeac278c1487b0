-- ===== src/Preflight/Cleanup/Safety.antt =====
-- What a cleanup may delete. The proofs follow the write requests through the loops.
use tvk_plugins.Base.{
  String, Bool, true, false, ◌≡◌, refl, ◌∙◌, ◌⊎◌, inl, inr, List, [], ◌∷◌, some, none, Option, All,
  starts_with, Bool-cases,
}
use tvk_plugins.Base.Dict.{lookup}
use tvk_plugins.Action.{Result, ok, err}
use tvk_plugins.Action.Keeps.{
  Keeps, Keeps-bind, Keeps-bind-known, Keeps-attempt, Keeps-pure, Keeps-raise, Keeps-if,
}
use tvk_plugins.Kube.{
  Externals, Labels, Gvk, Target, Cluster, World, Request, created, deleted, patched, executed,
}
use tvk_plugins.Kube.Trace.{
  Extends, Extends-refl, ask-Extends, send-Extends, ask-answers, attempt-ask-answers,
}
use tvk_plugins.Preflight.Options.{backup_namespace_prefix}
use tvk_plugins.Preflight.Delete.{delete_k8s_resource, remove_finalizer, drop_finalizers}
use tvk_plugins.Preflight.Cleanup.{
  Cleanup, selector, delete_namespace, cleanup_gvks, delete_all, delete_listed, sweep,
  delete_if_backup, delete_backup_namespaces, sweep_namespaces, cleanup_preflight_resources,
  finish_cleanup, versions_of_group,
}

-- The labels hold every pair of the selector.
abbrev pub Selects : Labels → Labels → Type 0
Selects wanted labels = All (λ kv. lookup kv.0 labels ≡ some kv.1) wanted

-- What the API documents of the calls: a list holds what was asked for, and a get returns the
-- object of the name that was asked for.
pub record IsHonest {X : Externals} (K : Cluster X) : Type 0 where
  pub lists :
      (g : Gvk) (labels : Labels) (ns : String) (s : K.State) (ts : List Target)
      → (K.list_targets g labels ns s).0 ≡ ok ts
      → All (λ t. Selects labels t.metadata.labels × (t.metadata.namespace ≡ ns)) ts
  pub lists_namespaces :
      (labels : Labels) (s : K.State) (ts : List Target)
      → (K.list_namespaces labels s).0 ≡ ok ts
      → All (λ t. Selects labels t.metadata.labels) ts
  pub gets :
      (g : Gvk) (ns name : String) (s : K.State) (t : Target)
      → (K.get_target g ns name s).0 ≡ ok t
      → (t.metadata.namespace ≡ ns) × (t.metadata.name ≡ name)

-- An object that the cleanup is meant for: it carries the labels, and it lies in the namespace
-- that is cleaned or is a backup namespace by its name.
pub record IsOwn (c : Cleanup) (t : Target) : Type 0 where
  pub labelled : Selects (selector c) t.metadata.labels
  pub placed :
      (t.metadata.namespace ≡ delete_namespace c)
      ⊎ (starts_with t.metadata.name backup_namespace_prefix ≡ true)

-- The requests that a cleanup may send: it deletes its own objects, patches what has the place and
-- the name of one, and creates and runs nothing.
abbrev pub IsCleanupRequest : {X : Externals} → Cleanup → Request X → Type 0
IsCleanupRequest c (created _) = ⊥
IsCleanupRequest c (deleted t) = IsOwn c t
IsCleanupRequest c (patched t) =
    (own : Target) × IsOwn c own
    × (t.metadata.namespace ≡ own.metadata.namespace)
    × (t.metadata.name ≡ own.metadata.name)
IsCleanupRequest c (executed _) = ⊥

module _ {X : Externals} (K : Cluster X) (honest : IsHonest K) (c : Cleanup)
    (before : List (Request X)) where
  abbrev Safe : World K → Type 0
  Safe = Extends {K = K} (IsCleanupRequest c) before

  drop_finalizers-Safe :
      (t : Target) (f : Option (List String)) → IsOwn c t → Keeps Safe (drop_finalizers K t f)
  unfolding drop_finalizers
  drop_finalizers-Safe t none own = Keeps-pure tt
  drop_finalizers-Safe t (some _) own =
      Keeps-bind-known _ _ (ask-Extends _ before _) λ latest w got.
        let (place, name) = honest.gets _ _ _ w.cluster latest (ask-answers _ w latest got) in
        send-Extends _ before _ _ (t, own, place, name)

  delete_k8s_resource-Safe : (t : Target) → IsOwn c t → Keeps Safe (delete_k8s_resource K t)
  unfolding delete_k8s_resource remove_finalizer
  delete_k8s_resource-Safe t own =
      Keeps-bind _ _ (send-Extends _ before _ _ own)
        (λ _. drop_finalizers-Safe t t.metadata.finalizers own)

  delete_all-Safe :
      (ts : List Target) (good : Bool) → All (IsOwn c) ts → Keeps Safe (delete_all K ts good)
  unfolding delete_all
  delete_all-Safe [] good _ = Keeps-pure good
  delete_all-Safe (t ∷ ts) good (own, rest) =
      Keeps-bind _ _ (Keeps-attempt _ (delete_k8s_resource-Safe t own))
        (λ r. delete_all-Safe ts _ rest)

  -- What was listed with the selector in the namespace is the cleanup's own.
  listed-IsOwn :
      (ts : List Target)
      → All
          (λ t.
            Selects (selector c) t.metadata.labels × (t.metadata.namespace ≡ delete_namespace c))
          ts
      → All (IsOwn c) ts
  listed-IsOwn [] _ = tt
  listed-IsOwn (t ∷ ts) ((l, p), rest) =
      (record { labelled = l; placed = inl p }, listed-IsOwn ts rest)

  delete_listed-Safe :
      (r : Result (List Target)) (good : Bool)
      → ((ts : List Target) → r ≡ ok ts → All (IsOwn c) ts)
      → Keeps Safe (delete_listed K r good)
  unfolding delete_listed
  delete_listed-Safe (ok ts) good own = delete_all-Safe ts good (own ts refl)
  delete_listed-Safe (err e) good own = Keeps-pure false

  sweep-Safe :
      (gs : List Gvk) (good : Bool) → Keeps Safe (sweep K (selector c) (delete_namespace c) gs good)
  unfolding sweep
  sweep-Safe [] good = Keeps-pure good
  sweep-Safe (g ∷ gs) good =
      Keeps-bind-known _ _ (Keeps-attempt _ (ask-Extends _ before _)) λ r w got.
        Keeps-bind _ _
          (delete_listed-Safe r good λ ts e.
            listed-IsOwn ts (honest.lists g _ _ w.cluster ts (attempt-ask-answers _ w r got ∙ e)))
          (λ good'. sweep-Safe gs good')

  delete_if_backup-Safe :
      (t : Target) (good : Bool)
      → Selects (selector c) t.metadata.labels
      → Keeps Safe (delete_if_backup K t good)
  unfolding delete_if_backup
  delete_if_backup-Safe t good l =
      elim (Bool-cases (starts_with t.metadata.name backup_namespace_prefix)) [
        | inl named ↦
            rw named
              (delete_all-Safe (t ∷ []) good (record { labelled = l; placed = inr named }, tt))
        | inr other ↦ rw other (Keeps-pure good)
      ]

  delete_backup_namespaces-Safe :
      (ts : List Target) (good : Bool)
      → All (λ t. Selects (selector c) t.metadata.labels) ts
      → Keeps Safe (delete_backup_namespaces K ts good)
  unfolding delete_backup_namespaces
  delete_backup_namespaces-Safe [] good _ = Keeps-pure good
  delete_backup_namespaces-Safe (t ∷ ts) good (l, rest) =
      Keeps-bind _ _ (delete_if_backup-Safe t good l)
        (λ good'. delete_backup_namespaces-Safe ts good' rest)

  sweep_namespaces-Safe :
      (r : Result (List Target)) (good : Bool)
      → ((ts : List Target) → r ≡ ok ts → All (λ t. Selects (selector c) t.metadata.labels) ts)
      → Keeps Safe (sweep_namespaces K r good)
  unfolding sweep_namespaces
  sweep_namespaces-Safe (ok ts) good l = delete_backup_namespaces-Safe ts good (l ts refl)
  sweep_namespaces-Safe (err e) good l = Keeps-pure false

  cleanup_gvks-Safe : Keeps Safe (cleanup_gvks K)
  unfolding cleanup_gvks versions_of_group
  cleanup_gvks-Safe =
      Keeps-bind _ _ (Keeps-bind _ _ (ask-Extends _ before _) (λ groups. Keeps-pure _))
        (λ versions. Keeps-pure _)

  pub cleanup_preflight_resources-Safe : Keeps Safe (cleanup_preflight_resources K c)
  unfolding cleanup_preflight_resources finish_cleanup
  cleanup_preflight_resources-Safe = Keeps-bind _ _ cleanup_gvks-Safe λ gvks.
      Keeps-bind _ _ (sweep-Safe gvks true) λ good.
        Keeps-bind-known _ _ (Keeps-attempt _ (ask-Extends _ before _)) λ r w got.
          Keeps-bind _ _
            (sweep_namespaces-Safe r good
              λ ts e. honest.lists_namespaces _ w.cluster ts (attempt-ask-answers _ w r got ∙ e))
            (λ good'. Keeps-if good' _ _ (Keeps-pure tt) (Keeps-raise _))

-- On a cluster whose answers are what was asked for, every request that a cleanup sends deletes an
-- object that carries the cleanup's labels and lies in its namespace or is a backup namespace by
-- its name, or patches the object of such an object's place and name. It creates and runs nothing.
pub cleanup_preflight_resources-IsCleanupRequest :
    {X : Externals} (K : Cluster X)
    → IsHonest K
    → (c : Cleanup) (w : World K)
    → Extends (IsCleanupRequest c) w.trace (cleanup_preflight_resources K c w).1
cleanup_preflight_resources-IsCleanupRequest K honest c w =
    (cleanup_preflight_resources-Safe K honest c w.trace).after w (Extends-refl _ w)
