-- ===== src/Preflight/Cleanup/Success.antt =====
-- When a cleanup returns no error. `Swept` says, without the code's success flag, that every list
-- was answered and every listed object was deleted or was no longer there.
use tvk_plugins.Base.{
  String, Bool, true, false, ◌≡◌, refl, ◌∙◌, ◌↔◌, inl, inr, ◌&&◌, List, [], ◌∷◌, some, none, Option,
  starts_with, Bool-cases, arith, ap, if◌then◌else◌,
}
use tvk_plugins.Action.{
  Error, Result, ok, err, lift, >>=-eq-ok, ok->>=, ok-injective, Action, pure, raise, ◌>>=◌,
}
use tvk_plugins.Kube.{Externals, Labels, Gvk, ApiGroup, Target, Cluster, World, ask}
use tvk_plugins.Preflight.Options.{backup_namespace_prefix, storage_snapshot_group}
use tvk_plugins.Preflight.Delete.{delete_k8s_resource}
use tvk_plugins.Preflight.Cleanup.{
  Cleanup, selector, delete_namespace, cleanup_gvks, delete_all, delete_listed, sweep,
  delete_if_backup, delete_backup_namespaces, sweep_namespaces, cleanup_preflight_resources,
  finish_cleanup, gvks_of_versions, versions_in, is_gone,
}

module _ {X : Externals} (K : Cluster X) where
  -- Each object is deleted or found missing, one after the other.
  abbrev pub AllGone : List Target → World K → Type 0
  AllGone [] w = Unit
  AllGone (t ∷ ts) w =
      (is_gone (delete_k8s_resource K t w).0 ≡ true) × AllGone ts (delete_k8s_resource K t w).1

  -- The same of the namespaces whose name has the prefix of backup namespaces.
  abbrev pub BackupsGone : List Target → World K → Type 0
  BackupsGone [] w = Unit
  BackupsGone (t ∷ ts) w =
      (starts_with t.metadata.name backup_namespace_prefix ≡ true
        → is_gone (delete_k8s_resource K t w).0 ≡ true)
      × BackupsGone ts (delete_if_backup K t true w).1

  -- Each kind is listed, and then all of the list is gone.
  abbrev pub Swept : Labels → String → List Gvk → World K → Type 0
  Swept labels ns [] w = Unit
  Swept labels ns (g ∷ gs) w =
      let w' = (ask K (K.list_targets g labels ns) w).1 in
      (ts : List Target) × ((K.list_targets g labels ns w.cluster).0 ≡ ok ts)
      × AllGone ts w'
      × Swept labels ns gs (delete_all K ts true w').1

  pub delete_all-world :
      (ts : List Target) (a b : Bool) (w : World K)
      → (delete_all K ts a w).1 ≡ (delete_all K ts b w).1
  unfolding delete_all ◌>>=◌
  delete_all-world [] a b w = refl
  delete_all-world (t ∷ ts) a b w = delete_all-world ts _ _ _

  delete_all-eq-ok :
      (ts : List Target) (good : Bool) (w : World K)
      → ((delete_all K ts good w).0 ≡ ok true) ↔ ((good ≡ true) × AllGone ts w)
  unfolding delete_all ◌>>=◌
  delete_all-eq-ok [] good w = ground arith
  delete_all-eq-ok (t ∷ ts) good w = ground (
    arith,
    delete_all-eq-ok ts (good && is_gone (delete_k8s_resource K t w).0)
        (delete_k8s_resource K t w).1,
  )

  pub delete_all_total :
      (ts : List Target) (good : Bool) (w : World K)
      → (b : Bool) × ((delete_all K ts good w).0 ≡ ok b)
  unfolding delete_all ◌>>=◌
  delete_all_total [] good w = (good, refl)
  delete_all_total (t ∷ ts) good w = delete_all_total ts _ _

  -- One listing and what follows it, where `k` is known to succeed exactly under `Q`.
  module _ (k : Bool → Action (World K) Bool) (Q : World K → Type 0)
      (exact : (good : Bool) (w : World K) → ((k good w).0 ≡ ok true) ↔ ((good ≡ true) × Q w)) where
    listed_then :
        (r : Result (List Target)) (good : Bool) (w : World K)
        → ((delete_listed K r good >>= k) w).0 ≡ ok true
        → (good ≡ true)
          × ((ts : List Target) × (r ≡ ok ts) × AllGone ts w × Q (delete_all K ts true w).1)
    unfolding delete_listed ◌>>=◌
    listed_then (err e) good w h = cc ((exact false w).0 h).0
    listed_then (ok ts) good w h =
        let (b, total) = delete_all_total ts good w in
        let (passed, later) = (exact b _).0 (rw total at h) in
        let (start, gone) = (delete_all-eq-ok ts good w).0 (total ∙ ap ok passed) in
        (start, (ts, refl, gone, rw (delete_all-world ts true good w) later))

    then_listed :
        (r : Result (List Target)) (good : Bool) (w : World K)
        → good ≡ true
        → ((ts : List Target) × (r ≡ ok ts) × AllGone ts w × Q (delete_all K ts true w).1)
        → ((delete_listed K r good >>= k) w).0 ≡ ok true
    unfolding delete_listed ◌>>=◌
    then_listed (err e) good w start (ts, listed, _, _) = cc listed
    then_listed (ok ts) good w start (ts', listed, gone, later) =
        let same = ok-injective ts ts' listed in
        let all_gone = (delete_all-eq-ok ts good w).1 (start, rw same gone) in
        rw all_gone ((exact true _).1 (refl, rw (delete_all-world ts good true w, same) later))

  sweep-eq-ok :
      (labels : Labels) (ns : String) (gs : List Gvk) (good : Bool) (w : World K)
      → ((sweep K labels ns gs good w).0 ≡ ok true) ↔ ((good ≡ true) × Swept labels ns gs w)
  unfolding sweep ask ◌>>=◌
  sweep-eq-ok labels ns [] good w = ground arith
  sweep-eq-ok labels ns (g ∷ gs) good w =
      let k = λ (b : Bool). sweep K labels ns gs b in
      let Q = λ (v : World K). Swept labels ns gs v in
      (
        λ h. listed_then k Q (sweep-eq-ok labels ns gs) _ good _ h,
        λ h. then_listed k Q (sweep-eq-ok labels ns gs) _ good _ h.0 h.1,
      )

  delete_backup_namespaces-eq-ok :
      (ts : List Target) (good : Bool) (w : World K)
      → ((delete_backup_namespaces K ts good w).0 ≡ ok true) ↔ ((good ≡ true) × BackupsGone ts w)
  unfolding delete_backup_namespaces delete_if_backup delete_all ◌>>=◌
  delete_backup_namespaces-eq-ok [] good w = ground arith
  delete_backup_namespaces-eq-ok (t ∷ ts) good w =
      elim (Bool-cases (starts_with t.metadata.name backup_namespace_prefix)) [
        | inl named ↦ rw named (
            ground (
              arith,
              delete_backup_namespaces-eq-ok ts (good && is_gone (delete_k8s_resource K t w).0)
                  (delete_k8s_resource K t w).1,
            ))
        | inr other ↦ rw other (ground (arith, delete_backup_namespaces-eq-ok ts good w))
      ]

  sweep_namespaces-eq-ok :
      (r : Result (List Target)) (good : Bool) (w : World K)
      → ((sweep_namespaces K r good w).0 ≡ ok true)
        ↔ ((good ≡ true) × ((ts : List Target) × (r ≡ ok ts) × BackupsGone ts w))
  unfolding sweep_namespaces ◌>>=◌
  sweep_namespaces-eq-ok (err e) good w = (λ h. cc, λ h. cc h.1.1)
  sweep_namespaces-eq-ok (ok ts) good w =
      let (to, from) = delete_backup_namespaces-eq-ok ts good w in
      (
        λ h. ((to h).0, (ts, refl, (to h).1)),
        λ h. from (h.0, rw (ok-injective ts h.1.0 h.1.1) h.1.2),
      )

  if_done :
      (r : Result Bool) (e : Error) (v : World K)
      → (((lift r >>= λ b. if b then pure tt else raise e) v).0 ≡ ok tt) ↔ (r ≡ ok true)
  unfolding ◌>>=◌
  if_done (ok true) e v = (λ h. refl, λ h. refl)
  if_done (ok false) e v = (λ h. cc, λ h. cc)
  if_done (err e') e v = (λ h. cc, λ h. cc)

  -- The labelled namespaces are listed, and those that are backup namespaces are gone.
  abbrev pub NamespacesSwept : Cleanup → World K → Type 0
  NamespacesSwept c w =
      (ts : List Target) × ((K.list_namespaces (selector c) w.cluster).0 ≡ ok ts)
      × BackupsGone ts (ask K (K.list_namespaces (selector c)) w).1

  finish_cleanup-eq-ok :
      (c : Cleanup) (good : Bool) (w : World K)
      → ((finish_cleanup K c good w).0 ≡ ok tt) ↔ ((good ≡ true) × NamespacesSwept c w)
  unfolding finish_cleanup ◌>>=◌ ask
  finish_cleanup-eq-ok c good w =
      let (to, from) =
        sweep_namespaces-eq-ok (K.list_namespaces (selector c) w.cluster).0 good
          (ask K (K.list_namespaces (selector c)) w).1 in
      let (of_done, done) =
        if_done
          (sweep_namespaces K (K.list_namespaces (selector c) w.cluster).0 good
            (ask K (K.list_namespaces (selector c)) w).1).0
          _ _ in
      (λ h. to (of_done h), λ h. done (from h))

  abbrev after_sweep : Cleanup → List Gvk → World K → World K
  after_sweep c gvks w = (sweep K (selector c) (delete_namespace c) gvks true w).1

  pub sweep_then_finish :
      (c : Cleanup) (gvks : List Gvk) (w : World K)
      → (((sweep K (selector c) (delete_namespace c) gvks true >>= finish_cleanup K c) w).0 ≡ ok tt)
        ↔ (Swept (selector c) (delete_namespace c) gvks w
            × NamespacesSwept c (after_sweep c gvks w))
  sweep_then_finish c gvks w = (
    λ h.
        let (good, es, h2) = >>=-eq-ok _ _ w tt h in
        let (start, tail) = (finish_cleanup-eq-ok c good _).0 h2 in
        (((sweep-eq-ok _ _ gvks true w).0 (es ∙ ap ok start)).1, tail),
    λ h.
        ap (λ (p : Result (Unit {0}) × World K). p.0)
          (ok->>= _ _ w true ((sweep-eq-ok _ _ gvks true w).1 (refl, h.0)))
        ∙ (finish_cleanup-eq-ok c true _).1 (refl, h.1),
  )

  -- The kinds that a cleanup sweeps, from the cluster's groups.
  abbrev gvks_of : List ApiGroup → List Gvk
  gvks_of groups = gvks_of_versions (versions_in storage_snapshot_group groups)

  pub cleanup_gvks-eq-ok :
      (groups : List ApiGroup) (e : Option Error) (s : K.State) (w : World K) (gvks : List Gvk)
      → K.server_groups w.cluster ≡ ((groups, e), s)
      → ((cleanup_gvks K w).0 ≡ ok gvks) ↔ ((e ≡ none) × (gvks ≡ gvks_of groups))
  unfolding cleanup_gvks ◌>>=◌ ask
  cleanup_gvks-eq-ok groups none s w gvks h = rw h (λ q. (refl, cc), λ q. cc q.1)
  cleanup_gvks-eq-ok groups (some e) s w gvks h = rw h (λ q. cc, λ q. cc q.0)

  -- The groups were answered, each kind was swept, and the backup namespaces are gone.
  pub record IsCleanedUp (c : Cleanup) (w : World K) : Type 0 where
    pub groups : List ApiGroup
    pub answered : (K.server_groups w.cluster).0 ≡ (groups, none)
    pub swept : Swept (selector c) (delete_namespace c) (gvks_of groups) (cleanup_gvks K w).1
    pub namespaces : NamespacesSwept c (after_sweep c (gvks_of groups) (cleanup_gvks K w).1)

  -- A cleanup returns no error exactly when the API groups were answered, every kind could be
  -- listed, the labelled namespaces could be listed, and each delete of a listed object and of a
  -- listed backup namespace succeeded or found the object missing.
  pub cleanup_preflight_resources-eq-ok :
      (c : Cleanup) (w : World K)
      → ((cleanup_preflight_resources K c w).0 ≡ ok tt) ↔ IsCleanedUp c w
  unfolding cleanup_preflight_resources
  cleanup_preflight_resources-eq-ok c w = (
    λ h.
        let (gvks, eg, h1) = >>=-eq-ok _ _ w tt h in
        let (quiet, same) = (cleanup_gvks-eq-ok _ _ _ w gvks refl).0 eg in
        let (swept, namespaces) = (sweep_then_finish c gvks _).0 h1 in
        record {
          groups = (K.server_groups w.cluster).0.0;
          answered = λ i. ((K.server_groups w.cluster).0.0, quiet i);
          swept = rw (← same) swept;
          namespaces = rw (← same) namespaces;
        },
    λ h.
        let answered =
          (cleanup_gvks-eq-ok h.groups none _ w _
              (λ i. (h.answered i, (K.server_groups w.cluster).1))).1
            (refl, refl) in
        ap (λ (p : Result (Unit {0}) × World K). p.0) (ok->>= _ _ w _ answered)
        ∙ (sweep_then_finish c _ _).1 (h.swept, h.namespaces),
  )
