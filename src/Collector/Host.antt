-- ===== src/Collector/Host.antt =====
-- What the log collector calls: the cluster and the machine as calls on an unknown state, and the
-- session of a run: that state, the changes to the file system that were asked for so far, and the
-- fields of `LogCollector` that a run changes.
pub mod Changes
use tvk_plugins.Base.{ℕ, zero, suc, String, Bool, Option, List, [], ◌∷◌, ◌++◌, All, All-append}
use tvk_plugins.Base.Dict.{Dict}
use tvk_plugins.Collector.Labels.{Requirement}
use tvk_plugins.Action.{Error, Result, Action}

-- `int64`
pub data ℤ : Type 0 where
  pos negsuc : ℕ → ℤ

abbrev pub Bytes : Type 0
Bytes = List ℕ

-- `types.NamespacedName`
pub record NamespacedName : Type 0 where
  pub namespace : String
  pub name : String

pub record OwnerReference : Type 0 where
  pub kind : String
  pub name : String

-- `unstructured.Unstructured` and its helpers. The nested functions answer a value, that there is
-- none, or an error where the path leads through a value of another type.
pub record Objects : Type 1 where
  pub Map : Type 0
  pub Value : Type 0
  pub kind : Map → String
  pub name : Map → String
  pub namespace : Map → String
  pub labels : Map → Dict String
  pub annotations : Map → Dict String
  pub set_annotations : Dict String → Map → Map
  pub owner_references : Map → List OwnerReference
  pub nested_string : List String → Map → Result (Option String)
  pub nested_map : List String → Map → Result (Option Map)
  pub nested_slice : List String → Map → Result (Option (List Value))
  pub as_map : Value → Option Map
  pub remove_nested_field : List String → Map → Map
  pub set_nested_map : Map → List String → Map → Map
  -- `labels.NewRequirement` and `Matches`; nothing where the requirement is not valid
  pub requirement_matches : Requirement → Dict String → Option Bool

-- `tar.Header`, with the bytes that the reader gives for it and the error that stops it early
pub data Typeflag : Type 0 where
  type_dir type_reg type_other : Typeflag

pub record Header : Type 0 where
  pub name : String
  pub mode : ℤ
  pub typeflag : Typeflag
  pub size : ℤ
  pub body : Bytes
  pub body_error : Option Error

-- `corev1.Pod`, what the collector reads of it
pub record ContainerState : Type 0 where
  pub waiting : Bool
  pub terminated : Bool
  pub running : Bool

pub record ContainerStatus : Type 0 where
  pub name : String
  pub last_state : ContainerState
  pub state : ContainerState

pub record PodView : Type 0 where
  pub labels : Dict String
  pub containers : List String
  pub container_statuses : List ContainerStatus
  pub init_container_statuses : List ContainerStatus

-- The chunks of a log up to the first empty read, and the error that stops it early.
pub record LogStream : Type 0 where
  pub chunks : List Bytes
  pub broken : Option Error

-- What a command in a pod wrote before it ended, and its error.
pub record ExecAnswer : Type 0 where
  pub stdout : Bytes
  pub stderr : String
  pub error : Option Error

-- `metav1.APIResource` and `metav1.APIResourceList`
pub record ApiResource : Type 0 where
  pub name : String
  pub kind : String
  pub group : String
  pub version : String
  pub namespaced : Bool
  pub verbs : List String

pub record ResourceGroup : Type 0 where
  pub group_version : String
  pub resources : List ApiResource

-- `corev1.Namespace`
pub record NamespaceView : Type 0 where
  pub name : String
  pub labels : Dict String

-- What `Next` of a tar reader answers, call by call.
pub data TarStream : Type 0 where
  end_of_archive : TarStream
  broken_archive : Error → TarStream
  entry : Header → TarStream → TarStream

-- What a gzip reader gives, and the error that stops it early.
pub record GzipStream : Type 0 where
  pub content : Bytes
  pub broken : Option Error

-- What `filepath.Walk` visits.
pub data Visit : Type 0 where
  visit_dir visit_file : String → Visit
  visit_error : Error → Visit

pub record Host (O : Objects) : Type 1 where
  pub State : Type 0
  -- the file system: `os`, `filepath.Walk`, `archive/tar`, `compress/gzip`
  pub is_absent : String → Action State Bool
  pub mkdir_all : String → ℕ → Action State (Unit {0})
  pub create : String → Action State (Unit {0})
  pub open_file : String → ℕ → Action State (Unit {0})
  pub write : String → Bytes → Action State (Unit {0})
  pub write_yaml : String → O.Map → Action State (Unit {0})
  pub create_temp : String → String → Action State String
  pub close : String → Action State (Unit {0})
  pub remove : String → Action State (Unit {0})
  pub remove_all : String → Action State (Unit {0})
  pub walk : String → State → List Visit × State
  pub open_read : String → Action State (Unit {0})
  pub read_tar : String → State → TarStream × State
  pub read_gzip : String → Action State GzipStream
  pub add_to_zip : String → String → Action State (Unit {0})
  -- reads of the cluster: by a path of its API, and by the typed clients
  pub list_objects : String → Action State (List O.Map)
  pub get_object : String → Action State O.Map
  pub get_pod : String → String → Action State PodView
  pub list_namespaces : Action State (List NamespaceView)
  pub preferred_resources : State → (List ResourceGroup × Option Error) × State
  pub server_resources : String → Action State (List String)
  -- pods: logs of a container, the previous one or the current one, and commands
  pub pod_logs : String → String → String → Bool → Action State LogStream
  pub new_executor : String → String → String → List String → Action State (Unit {0})
  pub exec : String → String → String → List String → State → ExecAnswer × State

-- A change to the file system.
pub data Change (O : Objects) : Type 0 where
  directory : String → ℕ → Change O
  file : String → Change O
  bytes : String → Bytes → Change O
  yaml : String → O.Map → Change O
  event : String → O.Map → Change O
  removal : String → Change O
  removal_all : String → Change O
  archived : String → String → Change O

-- The fields are `Namespaces`, `InstallNamespace` and `collectedPVCs` of `LogCollector`.
pub record Session {O : Objects} (H : Host O) : Type 0 where
  pub host : H.State
  pub done : List (Change O)
  pub namespaces : List String
  pub install_namespace : String
  pub collected : List NamespacedName

module _ {O : Objects} (H : Host O) {A : Type 0} where
  -- A call that changes no file.
  unfoldable pub ask : Action H.State A → Action (Session H) A
  ask call w = let (r, s) = call w.host in (r, record w { host = s })

  -- A call that changes a file. It counts as done whatever its answer is.
  unfoldable pub change : Change O → Action H.State A → Action (Session H) A
  change c call w =
      let (r, s) = call w.host in (r, record w { host = s; done = w.done ++ (c ∷ []) })

module _ {O : Objects} {H : Host O} where
  -- All changes so far satisfy `Q`.
  abbrev pub Done : (Change O → Type 0) → Session H → Type 0
  Done Q w = All Q w.done
