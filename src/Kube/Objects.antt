-- ===== src/Kube/Objects.antt =====
-- API objects (k8s.io/api, external-snapshotter), reduced to the fields that tools/preflight sets
-- or reads.
use tvk_plugins.Base.{ℕ, String, Bool, Option, List}
use tvk_plugins.Base.Dict.{Dict}
use tvk_plugins.Action.{Error, Result}

abbrev pub Labels : Type 0
Labels = Dict String

pub record Gvk : Type 0 where
  pub group : String
  pub version : String
  pub kind : String

-- `finalizers` is `none` where Go has a nil slice.
pub record Meta : Type 0 where
  pub name : String
  pub namespace : String
  pub labels : Labels
  pub finalizers : Option (List String)

pub record NamespacedName : Type 0 where
  pub namespace : String
  pub name : String

pub record ApiVersion : Type 0 where
  pub group_version : String
  pub version : String

pub record ApiGroup : Type 0 where
  pub name : String
  pub preferred : ApiVersion
  pub versions : List ApiVersion

-- Types and pure functions of other projects: quantities, scheduling types, hashicorp/go-version,
-- the discovery helpers, the embedded files and the YAML decoder.
pub record Externals : Type 1 where
  pub Quantity : Type 0
  pub Affinity : Type 0
  pub Toleration : Type 0
  pub Crd : Type 0
  pub Version : Type 0
  pub zero_quantity : Quantity
  pub new_version : String → Result Version
  pub new_semver : String → Result (Option Version)
  pub less_than : Version → Version → Bool
  pub extract_group_versions : List ApiGroup → List String
  pub parse_group_version : String → Result (String × String)
  pub read_crd_file : String → Result String
  pub unmarshal_crd : String → Result Crd
  -- `errors.NewAggregate` of a list that is not empty
  pub aggregate : List Error → Error

pub record Resources (X : Externals) : Type 0 where
  pub requests : Dict X.Quantity
  pub limits : Dict X.Quantity

-- `SecurityContext` of a container
pub record Security : Type 0 where
  pub add : List String
  pub allow_privilege_escalation : Bool
  pub read_only_root_filesystem : Bool
  pub privileged : Bool

pub record PodSecurity : Type 0 where
  pub run_as_non_root : Bool
  pub run_as_user : Option ℕ

pub record Probe : Type 0 where
  pub initial_delay_seconds : ℕ
  pub command : List String

pub record VolumeMount : Type 0 where
  pub name : String
  pub mount_path : String

pub record Volume : Type 0 where
  pub name : String
  pub claim_name : String
  pub read_only : Bool

pub record Container (X : Externals) : Type 0 where
  pub name : String
  pub image : String
  pub command : List String
  pub args : List String
  pub pull_policy : String
  pub resources : Resources X
  pub volume_mounts : List VolumeMount
  pub readiness_probe : Option Probe
  pub security_context : Option Security

pub record PodSpec (X : Externals) : Type 0 where
  pub service_account_name : String
  pub node_selector : Labels
  pub affinity : Option X.Affinity
  pub tolerations : List X.Toleration
  pub image_pull_secrets : List String
  pub containers : List (Container X)
  pub volumes : List Volume
  pub security_context : Option PodSecurity

pub record Condition : Type 0 where
  pub status : String
  pub kind : String

pub record Pod (X : Externals) : Type 0 where
  pub metadata : Meta
  pub spec : PodSpec X
  pub conditions : List Condition

pub record DataSource : Type 0 where
  pub api_group : String
  pub kind : String
  pub name : String

pub record PvcSpec (X : Externals) : Type 0 where
  pub access_modes : List String
  pub storage_class_name : Option String
  pub requests : Dict X.Quantity
  pub data_source : Option DataSource

pub record Pvc (X : Externals) : Type 0 where
  pub metadata : Meta
  pub spec : PvcSpec X

-- The unstructured VolumeSnapshot that the preflight run builds.
pub record SnapshotRequest : Type 0 where
  pub gvk : Gvk
  pub metadata : Meta
  pub class_name : String
  pub source_claim : String

-- The typed VolumeSnapshot; `bound_content` is `status.boundVolumeSnapshotContentName`.
pub record Snapshot : Type 0 where
  pub metadata : Meta
  pub source_content : Option String
  pub class_name : Option String
  pub bound_content : Option String

pub record SnapshotContent : Type 0 where
  pub metadata : Meta
  pub spec_handle : Option String
  pub status_handle : Option String
  pub snapshot_ref : NamespacedName
  pub deletion_policy : String
  pub driver : String
  pub class_name : Option String

pub record SnapshotClass : Type 0 where
  pub gvk : Gvk
  pub metadata : Meta
  pub driver : String
  pub deletion_policy : String
  -- `metadata.annotations` at the default-class key, as `NestedString` reads it
  pub is_default : Result (Option String)

-- What a create request carries.
pub data Object (X : Externals) : Type 0 where
  pod_object : Pod X → Object X
  pvc_object : Pvc X → Object X
  namespace_object : Meta → Object X
  request_object : SnapshotRequest → Object X
  snapshot_object : Snapshot → Object X
  content_object : SnapshotContent → Object X
  class_object : SnapshotClass → Object X
  crd_object : X.Crd → Object X

-- The Go type of an object that is handed to the runtime client, with the kind that it carries.
pub data GoType : Type 0 where
  go_pod go_pvc go_other : GoType

pub record Target : Type 0 where
  pub go_type : GoType
  pub gvk : Gvk
  pub metadata : Meta
