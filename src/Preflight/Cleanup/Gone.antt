-- ===== src/Preflight/Cleanup/Gone.antt =====
-- What a cleanup without an error leaves behind, on a cluster in which nobody creates anything
-- meanwhile.
use tvk_plugins.Base.{
  String, Bool, true, false, if◌then◌else◌, ◌≡◌, refl, ◌∙◌, ◌⊎◌, inl, inr, List, [], ◌∷◌,
  starts_with, Any, ap,
}
use tvk_plugins.Action.{
  Result, ok, err, Action, pure, attempt, ◌>>=◌, >>=-eq-ok, ok->>=, ok-injective,
}
use tvk_plugins.Action.Keeps.{Keeps-after, Keeps-if, Keeps-pure, Keeps-raise}
use tvk_plugins.Kube.{Externals, Labels, Gvk, ApiGroup, Target, Cluster, World, ask}
use tvk_plugins.Preflight.Options.{backup_namespace_prefix, storage_snapshot_group}
use tvk_plugins.Preflight.Delete.{delete_k8s_resource}
use tvk_plugins.Preflight.Cleanup.{
  Cleanup, selector, delete_namespace, cleanup_gvks, delete_all, delete_listed, sweep,
  delete_if_backup, delete_backup_namespaces, sweep_namespaces, cleanup_preflight_resources,
  finish_cleanup, gvks_of_versions, versions_in, is_gone,
}
use tvk_plugins.Preflight.Cleanup.Success.{
  AllGone, BackupsGone, Swept, NamespacesSwept, delete_all-world, delete_all_total,
  cleanup_gvks-eq-ok, sweep_then_finish,
}
use tvk_plugins.Preflight.Cleanup.Store.{
  Address, IsStore, Absent, gone-if, delete_all-gone, sweep-Absent, delete_backup_namespaces-Absent,
  finish_cleanup-Absent,
}

module _ {X : Externals} (K : Cluster X) (store : IsStore K) (a : Address) (labels : Labels) where
  module _ (ns : String) (gs : List Gvk) where
    -- One listing and what follows it: what was listed is gone.
    listed-gone :
        (r : Result (List Target)) (ts : List Target) (good : Bool) (w : World K)
        → r ≡ ok ts
        → AllGone K ts w
        → Any (store.IsAt a) ts
        → Absent K store a labels ((delete_listed K r good >>= sweep K labels ns gs) w).1
    unfolding delete_listed
    listed-gone (ok ts') ts good w listed gone at =
        let same = ok-injective ts' ts listed in
        Keeps-after (delete_all K ts' good) _ w
          (rw same (delete_all-gone K store a labels ts good w gone at))
          (sweep-Absent K store a labels ns gs)
    listed-gone (err e) ts good w listed gone at = absurd (cc listed)

    -- What the later kinds leave nothing of is gone.
    later-gone :
        (r : Result (List Target)) (ts : List Target) (good : Bool) (w : World K)
        → r ≡ ok ts
        → ((b : Bool)
            → Absent K store a labels (sweep K labels ns gs b (delete_all K ts true w).1).1)
        → Absent K store a labels ((delete_listed K r good >>= sweep K labels ns gs) w).1
    unfolding delete_listed
    later-gone (ok ts') ts good w listed later =
        let same = ok-injective ts' ts listed in
        let (b, total) = delete_all_total K ts' good w in
        rw
          (
            ok->>= (delete_all K ts' good) (sweep K labels ns gs) w b total,
            delete_all-world K ts' good true w,
            same,
          )
          (later (delete_all_total K ts good w).0)
    later-gone (err e) ts good w listed later = absurd (cc listed)

  sweep-gone :
      (ns : String) (gs : List Gvk) (good : Bool) (w : World K)
      → Swept K labels ns gs w
      → Any (λ g. a.gvk ≡ g) gs
      → a.namespace ≡ ns
      → Absent K store a labels (sweep K labels ns gs good w).1
  unfolding sweep ◌>>=◌ attempt ask
  sweep-gone ns [] good w _ h place = absurd h
  sweep-gone ns (g ∷ gs) good w (ts, listed, gone, later) (inl same) place =
      gone-if K store a labels w (sweep K labels ns (g ∷ gs) good w).1
        ((sweep-Absent K store a labels ns (g ∷ gs) good).after w)
        (λ there.
          listed-gone ns gs _ ts good _ listed gone
            (store.lists a g labels ns w.cluster ts listed same place there))
  sweep-gone ns (g ∷ gs) good w (ts, listed, gone, later) (inr h) place =
      later-gone ns gs _ ts good _ listed (λ b. sweep-gone ns gs b _ later h place)

  delete_if_backup_total :
      (t : Target) (good : Bool) (w : World K)
      → (b : Bool) × (delete_if_backup K t good w ≡ (ok b, (delete_if_backup K t true w).1))
  unfolding delete_if_backup delete_all ◌>>=◌
  delete_if_backup_total t good w = by_test (starts_with t.metadata.name backup_namespace_prefix)
    where
      either : Bool → Bool → Action (World K) Bool
      either named g = if named then delete_all K (t ∷ []) g else pure g

      by_test : (n : Bool) → (b : Bool) × (either n good w ≡ (ok b, (either n true w).1))
      by_test true = (_, refl)
      by_test false = (good, refl)

  module _ (backup : starts_with a.name backup_namespace_prefix ≡ true) where
    delete_if_backup-gone :
        (t : Target) (good : Bool) (w : World K)
        → store.IsAt a t
        → (starts_with t.metadata.name backup_namespace_prefix ≡ true
            → is_gone (delete_k8s_resource K t w).0 ≡ true)
        → Absent K store a labels (delete_if_backup K t good w).1
    unfolding delete_if_backup
    delete_if_backup-gone t good w at went =
        let named = ap (λ n. starts_with n backup_namespace_prefix) (store.named a t at) ∙ backup in
        rw named (delete_all-gone K store a labels (t ∷ []) good w (went named, tt) (inl at))

    delete_backup_namespaces-gone :
        (ts : List Target) (good : Bool) (w : World K)
        → BackupsGone K ts w
        → Any (store.IsAt a) ts
        → Absent K store a labels (delete_backup_namespaces K ts good w).1
    unfolding delete_backup_namespaces
    delete_backup_namespaces-gone [] good w _ h = absurd h
    delete_backup_namespaces-gone (t ∷ ts) good w (went, rest) (inl at) =
        Keeps-after (delete_if_backup K t good) _ w (delete_if_backup-gone t good w at went)
          (delete_backup_namespaces-Absent K store a labels ts)
    delete_backup_namespaces-gone (t ∷ ts) good w (went, rest) (inr later) =
        let (b, total) = delete_if_backup_total t good w in
        rw
          (
            ok->>= (delete_if_backup K t good) (delete_backup_namespaces K ts) w b
                (ap (λ (p : Result Bool × World K). p.0) total),
            total,
          )
          (delete_backup_namespaces-gone ts b _ rest later)

-- An object that a cleanup is meant for: one of a kind that it sweeps, in its namespace, or a backup
-- namespace by its name.
abbrev pub IsMeant : Cleanup → List ApiGroup → Address → Type 0
IsMeant c groups a =
    (Any (λ g. a.gvk ≡ g) (gvks_of_versions (versions_in storage_snapshot_group groups))
      × (a.namespace ≡ delete_namespace c))
    ⊎ ((a.gvk.kind ≡ "Namespace") × (starts_with a.name backup_namespace_prefix ≡ true))

module _ {X : Externals} (K : Cluster X) (store : IsStore K) (c : Cleanup) (a : Address) where
  sweep_namespaces-gone :
      (r : Result (List Target)) (ts : List Target) (good : Bool) (w : World K)
      → r ≡ ok ts
      → BackupsGone K ts w
      → Any (store.IsAt a) ts
      → starts_with a.name backup_namespace_prefix ≡ true
      → Absent K store a (selector c) (sweep_namespaces K r good w).1
  unfolding sweep_namespaces
  sweep_namespaces-gone (ok ts') ts good w listed gone at backup =
      rw (ok-injective ts' ts listed)
        (delete_backup_namespaces-gone K store a (selector c) backup ts good w gone at)
  sweep_namespaces-gone (err e) ts good w listed gone at backup = absurd (cc listed)

  finish_cleanup-gone :
      (good : Bool) (w : World K)
      → NamespacesSwept K c w
      → a.gvk.kind ≡ "Namespace"
      → starts_with a.name backup_namespace_prefix ≡ true
      → Absent K store a (selector c) (finish_cleanup K c good w).1
  unfolding finish_cleanup attempt ask ◌>>=◌
  finish_cleanup-gone good w (ts, listed, gone) kind backup =
      let asked = (ask K (K.list_namespaces (selector c)) w).1 in
      let answer = (K.list_namespaces (selector c) w.cluster).0 in
      gone-if K store a (selector c) w (finish_cleanup K c good w).1
        ((finish_cleanup-Absent K store a (selector c) c good).after w)
        (λ there.
          Keeps-after {P = Absent K store a (selector c)} (sweep_namespaces K answer good) _ asked
            (sweep_namespaces-gone answer ts good asked listed gone
              (store.lists_namespaces a (selector c) w.cluster ts listed kind there) backup)
            (λ good'. Keeps-if good' _ _ (Keeps-pure tt) (Keeps-raise _)))

  sweep_then_finish-gone :
      (gvks : List Gvk) (good : Bool) (w : World K)
      → Swept K (selector c) (delete_namespace c) gvks w
      → NamespacesSwept K c (sweep K (selector c) (delete_namespace c) gvks true w).1
      → (sweep K (selector c) (delete_namespace c) gvks true w).0 ≡ ok good
      → (Any (λ g. a.gvk ≡ g) gvks × (a.namespace ≡ delete_namespace c))
        ⊎ ((a.gvk.kind ≡ "Namespace") × (starts_with a.name backup_namespace_prefix ≡ true))
      → Absent K store a
          (selector c)
          ((sweep K (selector c) (delete_namespace c) gvks true >>= finish_cleanup K c) w).1
  sweep_then_finish-gone gvks good w swept namespaces done (inl (kind, place)) =
      Keeps-after (sweep K (selector c) (delete_namespace c) gvks true) (finish_cleanup K c) w
        (sweep-gone K store a (selector c) (delete_namespace c) gvks true w swept kind place)
        (finish_cleanup-Absent K store a (selector c) c)
  sweep_then_finish-gone gvks good w swept namespaces done (inr (kind, backup)) =
      rw
        (ok->>= (sweep K (selector c) (delete_namespace c) gvks true) (finish_cleanup K c) w good
          done)
        (finish_cleanup-gone good _ namespaces kind backup)

-- On a cluster in which nobody creates anything meanwhile, where lists are complete and a delete that
-- succeeds or finds nothing leaves nothing that is not being deleted: after a cleanup without an error,
-- no object that it is meant for (of a swept kind in its namespace, or a backup namespace) carries its
-- labels, unless the object is being deleted.
pub cleanup_preflight_resources-gone :
    {X : Externals} (K : Cluster X) (store : IsStore K) (c : Cleanup) (a : Address) (w : World K)
    → (cleanup_preflight_resources K c w).0 ≡ ok tt
    → IsMeant c (K.server_groups w.cluster).0.0 a
    → ¬ store.IsThere a (selector c) (cleanup_preflight_resources K c w).1.cluster
unfolding cleanup_preflight_resources
cleanup_preflight_resources-gone K store c a w h meant =
    let (gvks, known, h1) = >>=-eq-ok _ _ w tt h in
    let (quiet, same) = (cleanup_gvks-eq-ok K _ _ _ w gvks refl).0 known in
    let (swept, namespaces) = (sweep_then_finish K c gvks _).0 h1 in
    let (good, done, _) = >>=-eq-ok _ _ _ tt h1 in
    rw (ok->>= (cleanup_gvks K) _ w gvks known)
      (sweep_then_finish-gone K store c a gvks good _ swept namespaces done (rw same meant))
