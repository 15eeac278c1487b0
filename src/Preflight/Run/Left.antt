-- ===== src/Preflight/Run/Left.antt =====
-- What a run leaves behind after its cleanup, on a cluster in which nobody else creates anything
-- meanwhile.
use tvk_plugins.Base.{String, Bool, true, false, ◌≡◌, refl, ◌⊎◌, inl, inr}
use tvk_plugins.Action.{ok}
use tvk_plugins.Kube.{Externals, Cluster, World}
use tvk_plugins.Preflight.Options.{Run}
use tvk_plugins.Preflight.Suffix.{create_resource_name_suffix}
use tvk_plugins.Preflight.Cleanup.{selector, cleanup_preflight_resources}
use tvk_plugins.Preflight.Cleanup.Store.{Address, IsStore}
use tvk_plugins.Preflight.Cleanup.Gone.{IsMeant, cleanup_preflight_resources-gone}
use tvk_plugins.Preflight.Run.{perform_preflight_checks}
use tvk_plugins.Preflight.Run.Whole.{
  own_cleanup, checked, outcome, cleaned, perform_preflight_checks-ends,
}

module _ {X : Externals} (K : Cluster X) (o : Run X) where
  -- Where the run succeeds, or is told to clean up on failure, it cleans up.
  cleaned_up :
      (suffix : String) (status : Bool) (w : World K)
      → (outcome K o status ≡ ok tt) ⊎ (o.perform_cleanup_on_fail ≡ true)
      → cleaned K o suffix status w ≡ (cleanup_preflight_resources K (own_cleanup K o suffix) w).1
  cleaned_up suffix true w asked = refl
  cleaned_up suffix false w (inl h) = cc h
  cleaned_up suffix false w (inr h) = rw h refl

  -- Where a run with a drawn suffix succeeds or is told to clean up on failure, and its cleanup returns no
  -- error: at its end no object that its cleanup is meant for carries the labels of the run, unless the
  -- object is being deleted.
  pub perform_preflight_checks-leaves :
      (store : IsStore K) (w : World K) (suffix : String) (a : Address)
      → (create_resource_name_suffix K w).0 ≡ ok suffix
      → ((perform_preflight_checks K o w).0 ≡ ok tt) ⊎ (o.perform_cleanup_on_fail ≡ true)
      → (cleanup_preflight_resources K (own_cleanup K o suffix) (checked K o suffix w)).0 ≡ ok tt
      → IsMeant (own_cleanup K o suffix) (K.server_groups (checked K o suffix w).cluster).0.0 a
      → ¬ store.IsThere a
          (selector (own_cleanup K o suffix))
          (perform_preflight_checks K o w).1.cluster
  perform_preflight_checks-leaves store w suffix a drawn asked succeeded meant =
      let (v, _, ended) = perform_preflight_checks-ends K o w suffix drawn in
      rw (ended, cleaned_up suffix _ (checked K o suffix w) (rw ended at asked))
        (cleanup_preflight_resources-gone K store (own_cleanup K o suffix) a (checked K o suffix w)
          succeeded meant)
