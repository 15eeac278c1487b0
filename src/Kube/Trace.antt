-- ===== src/Kube/Trace.antt =====
-- What an action adds to the trace of write requests, as an invariant with a rule for each call.
use tvk_plugins.Base.{
  ◌≡◌, sym, Bool, List, [], ◌∷◌, ◌++◌, append-nil, append_assoc, ap, ◌∙◌, All, All-append,
  All-weaken,
}
use tvk_plugins.Action.{Result, ok, Action, attempt}
use tvk_plugins.Action.Keeps.{Keeps}
use tvk_plugins.Kube.Objects.{Externals}
use tvk_plugins.Kube.Clients.{Cluster, World, Request, Check, ask, send, verdict}

-- The trace is `before` and then requests that all satisfy `Q`.
pub record Extends {X : Externals} {K : Cluster X} (Q : Request X → Type 0)
    (before : List (Request X)) (w : World K) : Type 0 where
  pub added : List (Request X)
  pub is_extended : w.trace ≡ before ++ added
  pub holds : All Q added

module _ {X : Externals} {K : Cluster X} (Q : Request X → Type 0) where
  pub Extends-refl : (w : World K) → Extends Q w.trace w
  Extends-refl w = record { added = []; is_extended = sym (append-nil w.trace); holds = tt }

  module _ (before : List (Request X)) where
    module _ {A : Type 0} where
      pub ask-Extends : (call : Action K.State A) → Keeps (Extends {K = K} Q before) (ask K call)
      unfolding ask
      ask-Extends call = record {
        after = λ w h. record { added = h.added; is_extended = h.is_extended; holds = h.holds };
      }

      pub send-Extends :
          (q : Request X) (call : Action K.State A)
          → Q q
          → Keeps (Extends {K = K} Q before) (send K q call)
      unfolding send
      send-Extends q call p = record {
        after = λ w h. record {
          added = h.added ++ (q ∷ []);
          is_extended = rw h.is_extended (append_assoc before h.added (q ∷ []));
          holds = All-append Q h.added (q ∷ []) h.holds (p, tt);
        };
      }

    pub verdict-Extends :
        (c : Check) (passed : Bool) → Keeps (Extends {K = K} Q before) (verdict K c passed)
    unfolding verdict
    verdict-Extends c passed = record {
      after = λ w h. record { added = h.added; is_extended = h.is_extended; holds = h.holds };
    }

module _ {X : Externals} {K : Cluster X} where
  pub Extends-trans :
      {Q R : Request X → Type 0} {before : List (Request X)} {v w : World K}
      → ((q : Request X) → R q → Q q)
      → Extends Q before v
      → Extends R v.trace w
      → Extends Q before w
  Extends-trans {Q = Q} {before = before} weaken first rest = record {
    added = first.added ++ rest.added;
    is_extended =
        rest.is_extended
        ∙ ap (λ (t : List (Request X)). t ++ rest.added) first.is_extended
        ∙ append_assoc before first.added rest.added;
    holds =
        All-append Q first.added rest.added first.holds (All-weaken weaken rest.added rest.holds);
  }

-- What a call has answered, from what the action has returned.
module _ {X : Externals} {K : Cluster X} {A : Type 0} (call : Action K.State A) (w : World K) where
  pub ask-answers : (a : A) → (ask K call w).0 ≡ ok a → (call w.cluster).0 ≡ ok a
  unfolding ask
  ask-answers a h = h

  pub attempt-ask-answers :
      (r : Result A) → (attempt (ask K call) w).0 ≡ ok r → (call w.cluster).0 ≡ r
  unfolding attempt ask
  attempt-ask-answers r h = cc

  pub send-answers :
      (q : Request X) (a : A) → (send K q call w).0 ≡ ok a → (call w.cluster).0 ≡ ok a
  unfolding send
  send-answers q a h = h
