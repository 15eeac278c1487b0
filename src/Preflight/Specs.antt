-- ===== src/Preflight/Specs.antt =====
-- The objects that a run creates: the spec builders of tools/preflight/helper.go.
use tvk_plugins.Base.{
  ℕ, nat_eq, String, ◌<>◌, Bool, true, false, ◌==◌, none, some, List, [], ◌∷◌, if◌then◌else◌,
}
use tvk_plugins.Kube.{
  Externals, Labels, Meta, NamespacedName, Container, Pod, Pvc, SnapshotRequest, Volume,
  VolumeMount, Probe,
}
use tvk_plugins.Preflight.Options.{
  Run, storage_snapshot_group, label_k8s_part_of, label_k8s_name, label_trilio_key,
  label_tvk_preflight_value, label_preflight_run_key, source_pod_name_prefix, dns_utils,
  pod_capability_prefix, volume_snapshot_kind, command_sleep, command_bin_sh, touch_data_file,
  data_check_command,
}

-- `capability`
pub record Capability : Type 0 where
  pub user_id : ℕ
  pub allow_privilege_escalation : Bool
  pub privileged : Bool

unfoldable pub preflight_resource_labels : String → Labels
preflight_resource_labels uid =
    (label_k8s_name, "k8s-triliovault")
    ∷ (label_trilio_key, label_tvk_preflight_value)
    ∷ (label_preflight_run_key, uid)
    ∷ (label_k8s_part_of, "k8s-triliovault")
    ∷ []

unfoldable pub object_meta_template : String → String → String → Meta
object_meta_template name namespace uid = record {
  name = name;
  namespace = namespace;
  labels = preflight_resource_labels uid;
  finalizers = none;
}

abbrev pull_if_not_present : String
pull_if_not_present = "IfNotPresent"

abbrev data_mount : VolumeMount
data_mount = record { name = "source-data"; mount_path = "/demo/data" }

abbrev data_volume : String → Volume
data_volume claim = record { name = "source-data"; claim_name = claim; read_only = false }

abbrev data_probe : Probe
data_probe = record { initial_delay_seconds = 30; command = data_check_command }

abbrev capabilities : List String
capabilities =
    "KILL" ∷ "AUDIT_WRITE" ∷ "NET_BIND_SERVICE" ∷ "CHOWN" ∷ "FOWNER" ∷ "DAC_OVERRIDE" ∷ "SETGID"
    ∷ "SETUID" ∷ "SYS_ADMIN" ∷ []

module _ {X : Externals} (op : Run X) where
  unfoldable pub pod_template : NamespacedName → String → Pod X
  unfolding object_meta_template
  pod_template ns_name uid = record {
    metadata = object_meta_template ns_name.name ns_name.namespace uid;
    spec = record {
      service_account_name = op.service_account_name;
      node_selector = op.scheduling.node_selector;
      affinity = op.scheduling.affinity;
      tolerations = op.scheduling.tolerations;
      image_pull_secrets = if op.image_pull_secret == "" then [] else op.image_pull_secret ∷ [];
      containers = [];
      volumes = [];
      security_context = none;
    };
    conditions = [];
  }

  -- The registry given by the user, or the default one.
  abbrev registry_or : String → String
  registry_or default = if op.local_registry == "" then default else op.local_registry

  unfoldable pub busybox_image : String
  busybox_image = registry_or "quay.io/triliodata" <> "/" <> "busybox"

  -- A container with the fields that every builder sets; Go leaves the others at their zero.
  abbrev plain_container : String → String → Container X
  plain_container name image = record {
    name = name;
    image = image;
    command = [];
    args = [];
    pull_policy = "";
    resources = op.resources;
    volume_mounts = [];
    readiness_probe = none;
    security_context = none;
  }

  abbrev with_containers : Pod X → List (Container X) → List Volume → Pod X
  with_containers p cs vs = record p { spec = record p.spec { containers = cs; volumes = vs } }

  unfoldable pub dns_pod_spec : String → Pod X
  unfolding pod_template
  dns_pod_spec suffix =
      let ns_name : NamespacedName = record {
        name = dns_utils <> suffix;
        namespace = op.namespace;
      } in
      let image = registry_or "gcr.io/kubernetes-e2e-test-images" <> "/" <> "dnsutils:1.3" in
      with_containers (pod_template ns_name suffix)
        (record (plain_container "dnsutils" image) {
          command = command_sleep;
          pull_policy = pull_if_not_present;
        }
          ∷ [])
        []

  unfoldable pub volume_snapshot_pvc_spec : NamespacedName → String → Pvc X
  unfolding object_meta_template
  volume_snapshot_pvc_spec ns_name uid = record {
    metadata = object_meta_template ns_name.name ns_name.namespace uid;
    spec = record {
      access_modes = "ReadWriteOnce" ∷ [];
      storage_class_name = some op.storage_class;
      requests = ("storage", op.pvc_storage_request) ∷ [];
      data_source = none;
    };
  }

  -- `getPodSpecWithPVC`, with the container fields that its two callers set afterwards.
  abbrev mounted : Container X
  mounted = record (plain_container "busybox" busybox_image) { volume_mounts = data_mount ∷ [] }

  unfoldable pub pvc_data_writer_pod_spec : String → NamespacedName → String → Pod X
  unfolding pod_template busybox_image
  pvc_data_writer_pod_spec pod_name pvc_name suffix =
      let ns_name : NamespacedName = record { name = pod_name; namespace = pvc_name.namespace } in
      with_containers (pod_template ns_name suffix)
        (record mounted {
          command = command_bin_sh;
          args = touch_data_file;
          readiness_probe = some data_probe;
        }
          ∷ [])
        (data_volume pvc_name.name ∷ [])

  unfoldable pub pvc_data_reader_pod_spec : String → NamespacedName → String → Pod X
  unfolding pod_template busybox_image
  pvc_data_reader_pod_spec pod_name pvc_name suffix =
      let ns_name : NamespacedName = record { name = pod_name; namespace = pvc_name.namespace } in
      with_containers (pod_template ns_name suffix)
        (record mounted { command = command_sleep; pull_policy = pull_if_not_present } ∷ [])
        (data_volume pvc_name.name ∷ [])

  unfoldable pub pod_spec_with_pvc : NamespacedName → String → Pod X
  unfolding pod_template busybox_image
  pod_spec_with_pvc pvc_name suffix =
      let ns_name : NamespacedName = record {
        name = source_pod_name_prefix <> suffix;
        namespace = pvc_name.namespace;
      } in
      with_containers (pod_template ns_name suffix)
        (record mounted {
          command = command_bin_sh;
          args = touch_data_file;
          readiness_probe = some data_probe;
        }
          ∷ [])
        (data_volume pvc_name.name ∷ [])

  -- The pod's suffix is handed on to the template as its uid.
  unfoldable pub pod_spec_with_capability : String → Capability → Pod X
  unfolding pod_template busybox_image
  pod_spec_with_capability pod_name c =
      let ns_name : NamespacedName = record {
        name = pod_capability_prefix <> pod_name;
        namespace = op.namespace;
      } in
      let base = pod_template ns_name pod_name in
      let main = record (plain_container "busybox" busybox_image) {
        command = command_sleep;
        pull_policy = pull_if_not_present;
        security_context = some (record {
          add = capabilities;
          allow_privilege_escalation = c.allow_privilege_escalation;
          read_only_root_filesystem = false;
          privileged = c.privileged;
        });
      } in
      let context =
        if nat_eq c.user_id 0
        then some (record { run_as_non_root = false; run_as_user = none })
        else some (record { run_as_non_root = true; run_as_user = some c.user_id }) in
      record base { spec = record base.spec { containers = main ∷ []; security_context = context } }

-- `createVolumeSnapsotSpec`
unfoldable pub volume_snapshot_spec :
    NamespacedName → String → String → String → String → SnapshotRequest
unfolding preflight_resource_labels
volume_snapshot_spec ns_name snapshot_class snap_ver pvc_name uid = record {
  gvk = record { group = storage_snapshot_group; version = snap_ver; kind = volume_snapshot_kind };
  metadata = record {
    name = ns_name.name;
    namespace = ns_name.namespace;
    labels = preflight_resource_labels uid;
    finalizers = none;
  };
  class_name = snapshot_class;
  source_claim = pvc_name;
}

-- `createNamespace`
unfoldable pub namespace_spec : String → String → Meta
unfolding preflight_resource_labels
namespace_spec name uid = record {
  name = name;
  namespace = "";
  labels = preflight_resource_labels uid;
  finalizers = none;
}
