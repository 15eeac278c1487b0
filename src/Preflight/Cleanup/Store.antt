-- ===== src/Preflight/Cleanup/Store.antt =====
-- A cluster as a store of objects in which nobody creates anything during a cleanup, and the calls of
-- a cleanup on it.
use tvk_plugins.Base.{
  ℕ, String, Bool, true, false, ◌≡◌, refl, inl, inr, List, [], ◌∷◌, some, none, Option, Any,
}
use tvk_plugins.Action.{Result, ok, err, Action, lift, attempt, ◌>>=◌}
use tvk_plugins.Action.Keeps.{Keeps, Keeps-bind, Keeps-attempt, Keeps-pure, Keeps-raise, Keeps-if}
use tvk_plugins.Kube.{Externals, Labels, Gvk, Target, Cluster, World, ask, send, Request}
use tvk_plugins.Preflight.Delete.{delete_k8s_resource, remove_finalizer, drop_finalizers}
use tvk_plugins.Preflight.Cleanup.{
  Cleanup, selector, delete_all, delete_listed, sweep, delete_if_backup, delete_backup_namespaces,
  sweep_namespaces, finish_cleanup, is_gone,
}
use tvk_plugins.Preflight.Cleanup.Success.{AllGone}

-- Where an object lies.
pub record Address : Type 0 where
  pub gvk : Gvk
  pub namespace : String
  pub name : String

-- What the API documents of a cluster: `IsThere` says that an object lies at an address, is not
-- being deleted and carries the labels, `IsAt` that an answer stands for the object of an address. A
-- delete that succeeds or finds nothing leaves no object that is not being deleted, a list is
-- complete, and no call of a cleanup creates an object or takes a deletion back.
pub record IsStore {X : Externals} (K : Cluster X) : Type 1 where
  pub IsThere : Address → Labels → K.State → Type 0
  pub IsAt : Address → Target → Type 0
  pub named : (a : Address) (t : Target) → IsAt a t → t.metadata.name ≡ a.name
  pub deletes :
      (a : Address) (t : Target) (grace : ℕ) (s : K.State)
      → IsAt a t
      → is_gone (K.delete t grace s).0 ≡ true
      → (labels : Labels) → ¬ IsThere a labels (K.delete t grace s).1
  pub lists :
      (a : Address) (g : Gvk) (labels : Labels) (ns : String) (s : K.State) (ts : List Target)
      → (K.list_targets g labels ns s).0 ≡ ok ts
      → a.gvk ≡ g
      → a.namespace ≡ ns
      → IsThere a labels s
      → Any (IsAt a) ts
  pub lists_namespaces :
      (a : Address) (labels : Labels) (s : K.State) (ts : List Target)
      → (K.list_namespaces labels s).0 ≡ ok ts
      → a.gvk.kind ≡ "Namespace"
      → IsThere a labels s
      → Any (IsAt a) ts
  pub delete_creates :
      (a : Address) (labels : Labels) (t : Target) (grace : ℕ) (s : K.State)
      → IsThere a labels (K.delete t grace s).1
      → IsThere a labels s
  pub patch_creates :
      (a : Address) (labels : Labels) (t : Target) (body : String) (s : K.State)
      → IsThere a labels (K.patch t body s).1
      → IsThere a labels s
  pub get_creates :
      (a : Address) (labels : Labels) (g : Gvk) (ns name : String) (s : K.State)
      → IsThere a labels (K.get_target g ns name s).1
      → IsThere a labels s
  pub list_creates :
      (a : Address) (labels : Labels) (g : Gvk) (wanted : Labels) (ns : String) (s : K.State)
      → IsThere a labels (K.list_targets g wanted ns s).1
      → IsThere a labels s
  pub list_namespaces_creates :
      (a : Address) (labels wanted : Labels) (s : K.State)
      → IsThere a labels (K.list_namespaces wanted s).1
      → IsThere a labels s

module _ {X : Externals} (K : Cluster X) (store : IsStore K) (a : Address) (labels : Labels) where
  abbrev pub There : World K → Type 0
  There w = store.IsThere a labels w.cluster

  abbrev pub Absent : World K → Type 0
  Absent w = ¬ There w

  -- What is gone wherever it was there, and stays gone, is gone.
  pub gone-if : (v w : World K) → (Absent v → Absent w) → (There v → Absent w) → Absent w
  gone-if v w kept gone h = kept (λ there. gone there h) h

  module _ {A : Type 0} (call : Action K.State A)
      (none_new : (s : K.State)
        → store.IsThere a labels (call s).1
        → store.IsThere a labels s) where
    ask-Absent : Keeps Absent (ask K call)
    unfolding ask
    ask-Absent = record { after = λ w gone h. gone (none_new w.cluster h) }

    send-Absent : (q : Request X) → Keeps Absent (send K q call)
    unfolding send
    send-Absent q = record { after = λ w gone h. gone (none_new w.cluster h) }

  drop_finalizers-Absent :
      (t : Target) (f : Option (List String)) → Keeps Absent (drop_finalizers K t f)
  unfolding drop_finalizers
  drop_finalizers-Absent t none = Keeps-pure tt
  drop_finalizers-Absent t (some _) =
      Keeps-bind _ _ (ask-Absent _ (store.get_creates a labels _ _ _))
        λ latest. send-Absent _ (store.patch_creates a labels latest _) _

  delete_k8s_resource-Absent : (t : Target) → Keeps Absent (delete_k8s_resource K t)
  unfolding delete_k8s_resource remove_finalizer
  delete_k8s_resource-Absent t =
      Keeps-bind _ _ (send-Absent _ (store.delete_creates a labels t _) _)
        (λ _. drop_finalizers-Absent t t.metadata.finalizers)

  after_delete :
      (r : Result (Unit {0})) (f : Unit {0} → Action (World K) (Unit {0})) (v : World K)
      → (is_gone r ≡ true → Absent v)
      → Keeps Absent (f tt)
      → is_gone ((lift r >>= f) v).0 ≡ true
      → Absent ((lift r >>= f) v).1
  unfolding ◌>>=◌
  after_delete (ok tt) f v gone kept h = kept.after v (gone refl)
  after_delete (err e) f v gone kept h = gone h

  -- A delete that went well for the loop leaves nothing at the object's address.
  delete_k8s_resource-gone :
      (t : Target) (w : World K)
      → store.IsAt a t
      → is_gone (delete_k8s_resource K t w).0 ≡ true
      → Absent (delete_k8s_resource K t w).1
  unfolding delete_k8s_resource remove_finalizer ◌>>=◌ send
  delete_k8s_resource-gone t w at h =
      after_delete _ (λ _. remove_finalizer K t) _
        (λ went. store.deletes a t _ w.cluster at went labels)
        (drop_finalizers-Absent t t.metadata.finalizers) h

  pub delete_all-Absent : (ts : List Target) (good : Bool) → Keeps Absent (delete_all K ts good)
  unfolding delete_all
  delete_all-Absent [] good = Keeps-pure good
  delete_all-Absent (t ∷ ts) good =
      Keeps-bind _ _ (Keeps-attempt _ (delete_k8s_resource-Absent t)) (λ r. delete_all-Absent ts _)

  pub delete_all-gone :
      (ts : List Target) (good : Bool) (w : World K)
      → AllGone K ts w
      → Any (store.IsAt a) ts
      → Absent (delete_all K ts good w).1
  unfolding delete_all ◌>>=◌ attempt
  delete_all-gone [] good w _ h = absurd h
  delete_all-gone (t ∷ ts) good w (went, rest) (inl at) =
      (delete_all-Absent ts _).after _ (delete_k8s_resource-gone t w at went)
  delete_all-gone (t ∷ ts) good w (went, rest) (inr later) = delete_all-gone ts _ _ rest later

  delete_if_backup-Absent : (t : Target) (good : Bool) → Keeps Absent (delete_if_backup K t good)
  unfolding delete_if_backup
  delete_if_backup-Absent t good =
      Keeps-if _ _ _ (delete_all-Absent (t ∷ []) good) (Keeps-pure good)

  pub delete_backup_namespaces-Absent :
      (ts : List Target) (good : Bool) → Keeps Absent (delete_backup_namespaces K ts good)
  unfolding delete_backup_namespaces
  delete_backup_namespaces-Absent [] good = Keeps-pure good
  delete_backup_namespaces-Absent (t ∷ ts) good =
      Keeps-bind _ _ (delete_if_backup-Absent t good) (delete_backup_namespaces-Absent ts)

  sweep_namespaces-Absent :
      (r : Result (List Target)) (good : Bool) → Keeps Absent (sweep_namespaces K r good)
  unfolding sweep_namespaces
  sweep_namespaces-Absent (ok ts) good = delete_backup_namespaces-Absent ts good
  sweep_namespaces-Absent (err e) good = Keeps-pure false

  delete_listed-Absent :
      (r : Result (List Target)) (good : Bool) → Keeps Absent (delete_listed K r good)
  unfolding delete_listed
  delete_listed-Absent (ok ts) good = delete_all-Absent ts good
  delete_listed-Absent (err e) good = Keeps-pure false

  list-Absent : (g : Gvk) (ns : String) → Keeps Absent (ask K (K.list_targets g labels ns))
  list-Absent g ns = ask-Absent _ (store.list_creates a labels g labels ns)

  pub sweep-Absent :
      (ns : String) (gs : List Gvk) (good : Bool) → Keeps Absent (sweep K labels ns gs good)
  unfolding sweep
  sweep-Absent ns [] good = Keeps-pure good
  sweep-Absent ns (g ∷ gs) good =
      Keeps-bind _ _ (Keeps-attempt _ (list-Absent g ns))
        λ r. Keeps-bind _ _ (delete_listed-Absent r good) (sweep-Absent ns gs)

  pub finish_cleanup-Absent : (c : Cleanup) (good : Bool) → Keeps Absent (finish_cleanup K c good)
  unfolding finish_cleanup
  finish_cleanup-Absent c good =
      Keeps-bind _ _
        (Keeps-attempt _ (ask-Absent _ (store.list_namespaces_creates a labels (selector c))))
        λ r.
          Keeps-bind _ _ (sweep_namespaces-Absent r good)
            λ good'. Keeps-if _ _ _ (Keeps-pure tt) (Keeps-raise _)
