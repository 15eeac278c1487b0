-- ===== src/Collector/Host/Changes.antt =====
-- What an action changes, as an invariant with a rule for each call.
use tvk_plugins.Base.{[], ◌∷◌, All-append}
use tvk_plugins.Action.{Action}
use tvk_plugins.Action.Keeps.{Keeps}
use tvk_plugins.Collector.Host.{Objects, Host, Change, Done, ask, change}

module _ {O : Objects} {H : Host O} (Q : Change O → Type 0) {A : Type 0} where
  pub ask-Done : (call : Action H.State A) → Keeps (Done {H = H} Q) (ask H call)
  unfolding ask
  ask-Done call = record { after = λ w h. h }

  pub change-Done :
      (c : Change O) (call : Action H.State A) → Q c → Keeps (Done {H = H} Q) (change H c call)
  unfolding change
  change-Done c call q = record { after = λ w h. All-append Q w.done (c ∷ []) h (q, tt) }
