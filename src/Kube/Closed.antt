-- ===== src/Kube/Closed.antt =====
-- Invariants of worlds that every call keeps, as long as the requests that are sent satisfy `Q`.
-- The lemmas on the checks are stated for any such invariant, and serve for the trace of requests
-- and for the report alike.
use tvk_plugins.Base.{String}
use tvk_plugins.Action.{Action}
use tvk_plugins.Action.Keeps.{Keeps}
use tvk_plugins.Kube.Objects.{Externals}
use tvk_plugins.Kube.Clients.{Cluster, World, Request, ask, send}

pub record IsClosed {X : Externals} {K : Cluster X} (Q : Request X → Type 0) (P : World K → Type 0)
    : Type 1 where
  pub asks : {A : Type 0} → (call : Action K.State A) → Keeps P (ask K call)
  pub sends :
      {A : Type 0} → (q : Request X) (call : Action K.State A) → Q q → Keeps P (send K q call)
  pub sets :
      (w : World K) (wanted found : String)
      → P w
      → P (record w { snapshot_class = wanted; vol_snap_class = found })
