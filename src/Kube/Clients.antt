-- ===== src/Kube/Clients.antt =====
-- The cluster and the machine that the program runs on, as calls on an unknown state, and the
-- world of a run: that state, the write requests sent so far, the verdicts reported so far, and
-- the variables that the checks change.
use tvk_plugins.Base.{ℕ, String, Bool, Option, List, [], ◌∷◌, ◌++◌}
use tvk_plugins.Action.{Result, ok, Action, Error}
use tvk_plugins.Kube.Objects.{
  Externals, Labels, Gvk, ApiGroup, Pod, Pvc, Meta, Object, Target, Snapshot, SnapshotContent,
  SnapshotClass,
}

pub record ServerVersion : Type 0 where
  pub git_version : String
  pub text : String

pub record CmdOut : Type 0 where
  pub out : String
  pub exit_code : ℕ

-- `wait.Backoff`; the duration in seconds, the factor and the jitter in tenths.
pub record Backoff : Type 0 where
  pub steps : ℕ
  pub duration : ℕ
  pub factor : ℕ
  pub jitter : ℕ

pub record ExecOptions : Type 0 where
  pub namespace : String
  pub command : List String
  pub pod_name : String
  pub container_name : String

-- `Response` of tools/preflight/exec
pub record Response : Type 0 where
  pub stdout : String
  pub stderr : String
  pub error : Option Error

pub record Cluster (X : Externals) : Type 1 where
  pub State : Type 0
  -- the machine: $PATH, processes, crypto/rand
  pub look_path : String → Action State String
  pub run_command : String → List String → Action State CmdOut
  pub rand_int : ℕ → Action State ℕ
  -- discovery; a list of groups can come with an error
  pub server_version : Action State ServerVersion
  pub server_groups : State → (List ApiGroup × Option Error) × State
  pub server_resources : String → Action State (List String)
  -- reads
  pub get_namespace : String → Action State Meta
  pub review_access : String → String → Gvk → Action State (Bool × String)
  pub get_crd : String → Action State X.Crd
  pub get_provisioner : String → Action State String
  pub list_snapshot_classes : String → Action State (List SnapshotClass)
  pub get_snapshot_class : String → String → Action State SnapshotClass
  pub get_pod : String → String → Action State (Pod X)
  pub get_snapshot : String → String → Action State Snapshot
  pub get_content : String → Action State SnapshotContent
  -- `status.readyToUse` of a VolumeSnapshot, as `NestedBool` reads it
  pub get_ready : Gvk → String → String → Action State (Result (Option Bool))
  pub get_target : Gvk → String → String → Action State Target
  pub list_targets : Gvk → Labels → String → Action State (List Target)
  pub list_namespaces : Labels → Action State (List Target)
  -- writes
  pub create_pod : String → Pod X → Action State (Pod X)
  pub create_pvc : String → Pvc X → Action State (Pvc X)
  pub create : Object X → Action State (Unit {0})
  pub delete : Target → ℕ → Action State (Unit {0})
  pub patch : Target → String → Action State (Unit {0})
  -- one remote command; and whether the caller's timer fires before its answer comes
  pub stream : ExecOptions → State → Response × State
  pub timed_out : State → Bool
  -- `wait.ExponentialBackoff`, which runs its condition until it holds or fails or it gives up
  pub backoff : Backoff → Action State Bool → Action State (Unit {0})

-- The write requests, in the order they are sent, whatever the answer.
pub data Request (X : Externals) : Type 0 where
  created : Object X → Request X
  deleted : Target → Request X
  patched : Target → Request X
  executed : ExecOptions → Request X

-- The checks of a run, by the name in their log lines.
pub data Check : Type 0 where
  kubectl access helm kubernetes_version rbac snapshot_crds snapshot_class_found pod_capability :
      Check
  storage_snapshot_class dns namespace_permissions cluster_volume namespace_volume : Check

pub record World {X : Externals} (K : Cluster X) : Type 0 where
  pub cluster : K.State
  pub trace : List (Request X)
  pub report : List (Check × Bool)
  -- `o.SnapshotClass` and the package variable `storageVolSnapClass`
  pub snapshot_class : String
  pub vol_snap_class : String

module _ {X : Externals} (K : Cluster X) where
  module _ {A : Type 0} where
    -- A call that writes nothing.
    unfoldable pub ask : Action K.State A → Action (World K) A
    ask call w = let (r, s) = call w.cluster in (r, record w { cluster = s })

    -- A call that sends a write request.
    unfoldable pub send : Request X → Action K.State A → Action (World K) A
    send q call w =
        let (r, s) = call w.cluster in (r, record w { cluster = s; trace = w.trace ++ (q ∷ []) })

  -- The log line with a check's verdict.
  unfoldable pub verdict : Check → Bool → Action (World K) (Unit {0})
  verdict c passed w = (ok tt, record w { report = w.report ++ ((c, passed) ∷ []) })
