-- ===== src/Tests/Sample.antt =====
-- A small cluster that answers from a fixed store, for the tests and the examples.
use tvk_plugins.Base.{
  ℕ, zero, suc, ◌<◌, String, Bool, true, false, ◌&&◌, ◌==◌, eq_iff, ◌≡◌, refl, sym, ap, ◌∙◌, Option,
  none, some, List, [], ◌∷◌, All, all, ltb, if◌then◌else◌, Bool-cases, inl, inr, arith,
}
use tvk_plugins.Base.Dict.{lookup}
use tvk_plugins.Action.{api, interrupted, failure, not_found, Result, ok, err, ok-injective}
use tvk_plugins.Kube.{
  Snapshot, SnapshotContent, ApiGroup, ApiVersion, Externals, Labels, Meta, Pod, Target, go_other,
  Cluster, World, SnapshotClass,
}
use tvk_plugins.Preflight.Options.{Run}
use tvk_plugins.Preflight.Specs.{preflight_resource_labels}
use tvk_plugins.Preflight.Cleanup.Safety.{IsHonest, Selects}
use tvk_plugins.Preflight.Run.Requests.{IsNaming}
use tvk_plugins.Preflight.Suffix.Drawn.{IsBounded}
use tvk_plugins.Preflight.Wait.Reached.{IsBackoff}
use tvk_plugins.Preflight.SnapshotClasses.Chosen.{filter}

abbrev pub plain : Externals
plain = record {
  Quantity = ℕ;
  Affinity = Unit;
  Toleration = Unit;
  Crd = String;
  Version = ℕ;
  zero_quantity = 0;
  new_version = λ text. ok (if text == "1.29" then 29 else 31);
  new_semver = λ text. ok (some (if text == "v1.20.0" then 20 else 31));
  less_than = ltb;
  extract_group_versions = λ gs. "rbac.authorization.k8s.io/v1" ∷ [];
  parse_group_version = λ text. ok ("rbac.authorization.k8s.io", "v1");
  read_crd_file = λ path. ok path;
  unmarshal_crd = λ bytes. ok bytes;
  aggregate = λ es. failure "several errors";
}

abbrev missing : {A : Type 0} → String → Result A
missing name = err (api not_found name)

abbrev meta_of : String → String → String → Meta
meta_of namespace name uid = record {
  name = name;
  namespace = namespace;
  labels = preflight_resource_labels uid;
  finalizers = some [];
}

abbrev target_of : String → String → String → String → Target
target_of kind namespace name uid = record {
  go_type = go_other;
  gvk = record { group = ""; version = "v1"; kind = kind };
  metadata = meta_of namespace name uid;
}

-- What two runs have left in the namespace "tvk", and a pod of another namespace.
abbrev pub store : List Target
store =
    target_of "Pod" "tvk" "dnsutils-abcdef" "abcdef"
    ∷ target_of "Pod" "tvk" "dnsutils-zzzzzz" "zzzzzz"
    ∷ target_of "Pod" "other" "dnsutils-abcdef" "abcdef"
    ∷ []

abbrev pub namespaces : List Target
namespaces =
    target_of "Namespace" "" "preflight-backup-ns-abcdef" "abcdef"
    ∷ target_of "Namespace" "" "tvk" "abcdef"
    ∷ []

abbrev holds : Labels → String × String → Bool
holds labels (k, v) = elim (lookup k labels) [ none ↦ false | some found ↦ found == v ]

abbrev pub fits : Labels → Labels → Bool
fits wanted labels = all (holds labels) wanted

abbrev is_at : String → String → Target → Bool
is_at ns name t = t.metadata.namespace == ns && t.metadata.name == name

abbrev pub get_from : List Target → String → String → Result Target
get_from [] ns name = missing name
get_from (t ∷ ts) ns name = if is_at ns name t then ok t else get_from ts ns name

abbrev last_below : ℕ → Result ℕ
last_below zero = err (failure "the bound is zero")
last_below (suc n) = ok n

-- Every pod is there, and ready.
abbrev ready_pod : String → String → Pod plain
ready_pod ns name = record {
  metadata = meta_of ns name "abcdef";
  spec = record {
    service_account_name = "";
    node_selector = [];
    affinity = none;
    tolerations = [];
    image_pull_secrets = [];
    containers =
        record {
          name = "busybox";
          image = "busybox";
          command = [];
          args = [];
          pull_policy = "";
          resources = record { requests = []; limits = [] };
          volume_mounts = [];
          readiness_probe = none;
          security_context = none;
        }
        ∷ [];
    volumes = [];
    security_context = none;
  };
  conditions = record { status = "True"; kind = "Ready" } ∷ [];
}

abbrev snapshot_group : ApiGroup
snapshot_group =
    let v1 : ApiVersion = record { group_version = "snapshot.storage.k8s.io/v1"; version = "v1" } in
    record { name = "snapshot.storage.k8s.io"; preferred = v1; versions = v1 ∷ [] }

abbrev bound_snapshot : String → String → Snapshot
bound_snapshot ns name = record {
  metadata = meta_of ns name "abcdef";
  source_content = none;
  class_name = none;
  bound_content = some "content";
}

abbrev content : String → SnapshotContent
content name = record {
  metadata = meta_of "" name "abcdef";
  spec_handle = none;
  status_handle = some "handle";
  snapshot_ref = record { namespace = "tvk"; name = "snapshot" };
  deletion_policy = "Delete";
  driver = "csi.example.com";
  class_name = none;
}

abbrev pub once : Result Bool → Result (Unit {0})
once (ok true) = ok tt
once (ok false) = err (interrupted "timed out waiting for the condition")
once (err e) = err e

abbrev pub kube : Cluster plain
kube = record {
  State = ℕ;
  look_path = λ name s. (ok name, s);
  run_command = λ name args s. (ok (record { out = "v3.12.0"; exit_code = 0 }), s);
  rand_int = λ n s. (last_below n, s);
  server_version = λ s. (ok (record { git_version = "v1.31.0"; text = "v1.31.0" }), s);
  server_groups = λ s. ((snapshot_group ∷ [], none), s);
  server_resources = λ group s. (missing group, s);
  get_namespace = λ name s. (ok (meta_of "" name "abcdef"), s);
  review_access = λ verb ns gvr s. (ok (true, ""), s);
  get_crd = λ name s. (ok name, s);
  get_provisioner = λ name s. (if name == "csi" then ok "csi.example.com" else missing name, s);
  list_snapshot_classes = λ version s. (ok [], s);
  get_snapshot_class = λ version name s. (missing name, s);
  get_pod = λ ns name s. (ok (ready_pod ns name), s);
  get_snapshot = λ ns name s. (ok (bound_snapshot ns name), s);
  get_content = λ name s. (ok (content name), s);
  get_ready = λ gvk ns name s. (ok (ok (some true)), s);
  get_target = λ gvk ns name s. (get_from store ns name, s);
  list_targets = λ gvk labels ns s. (
    ok (
        filter
          (λ t.
            fits labels t.metadata.labels && t.metadata.namespace == ns && t.gvk.kind == gvk.kind)
          store),
    s,
  );
  list_namespaces = λ labels s. (ok (filter (λ t. fits labels t.metadata.labels) namespaces), s);
  create_pod = λ ns p s. (ok p, s);
  create_pvc = λ ns p s. (ok p, s);
  create = λ object s. (ok tt, s);
  delete = λ t grace s. (ok tt, s);
  patch = λ t body s. (ok tt, s);
  stream = λ op s. (record { stdout = ""; stderr = ""; error = none }, s);
  timed_out = λ s. false;
  backoff = λ b condition s. let (r, s') = condition s in (once r, s');
}

and_true : (a b : Bool) → (a && b) ≡ true → (a ≡ true) × (b ≡ true)
and_true true b h = (refl, h)
and_true false b h = cc

filter-All :
    {A : Type 0} (p : A → Bool) (P : A → Type 0) (xs : List A)
    → ((x : A) → p x ≡ true → P x)
    → All P (filter p xs)
filter-All p P [] sound = tt
filter-All p P (x ∷ xs) sound = elim (Bool-cases (p x)) [
  | inl h ↦ rw h (sound x h, filter-All p P xs sound)
  | inr h ↦ rw h (filter-All p P xs sound)
]

holds-lookup :
    (labels : Labels) (k v : String) (r : Option String)
    → (elim r [ none ↦ false | some found ↦ found == v ]) ≡ true
    → r ≡ some v
holds-lookup labels k v none h = cc
holds-lookup labels k v (some found) h = ap some ((eq_iff found v).0 h)

fits-Selects : (wanted labels : Labels) → fits wanted labels ≡ true → Selects wanted labels
fits-Selects [] labels h = tt
fits-Selects ((k, v) ∷ wanted) labels h =
    let (a, b) = and_true (holds labels (k, v)) (fits wanted labels) h in
    (holds-lookup labels k v (lookup k labels) a, fits-Selects wanted labels b)

get_from-is_at :
    (ts : List Target) (ns name : String) (t : Target)
    → get_from ts ns name ≡ ok t
    → (t.metadata.namespace ≡ ns) × (t.metadata.name ≡ name)
get_from-is_at [] ns name t h = cc
get_from-is_at (x ∷ ts) ns name t h = elim (Bool-cases (is_at ns name x)) [
  | inl here ↦
      let (a, b) = and_true _ _ here in
      let same = ok-injective x t (sym (rw (here, get_from) refl) ∙ h) in
      rw (← same) ((eq_iff _ ns).0 a, (eq_iff _ name).0 b)
  | inr later ↦ get_from-is_at ts ns name t (sym (rw (later, get_from) refl) ∙ h)
]

pub kube-IsHonest : IsHonest kube
kube-IsHonest = record {
  lists = λ g labels ns s ts h. rw (← ok-injective _ ts h) (
      filter-All
        (λ t. fits labels t.metadata.labels && t.metadata.namespace == ns && t.gvk.kind == g.kind)
        (λ t. Selects labels t.metadata.labels × (t.metadata.namespace ≡ ns)) store
        λ t fit.
          let (ab, _) =
            and_true (fits labels t.metadata.labels && t.metadata.namespace == ns)
              (t.gvk.kind == g.kind) fit in
          let (a, b) = and_true _ _ ab in
          (fits-Selects labels t.metadata.labels a, (eq_iff _ ns).0 b));
  lists_namespaces = λ labels s ts h. rw (← ok-injective _ ts h) (
      filter-All _ (λ t. Selects labels t.metadata.labels) namespaces
        λ t fit. fits-Selects labels t.metadata.labels fit);
  gets = λ g ns name s t h. get_from-is_at store ns name t h;
}

pub kube-IsNaming : IsNaming kube
kube-IsNaming = record {
  gets_pod = λ ns name s p h. rw (← ok-injective _ p h) (refl, refl);
  gets_target = λ g ns name s t h. get_from-is_at store ns name t h;
}

last_below-below : (n i : ℕ) → last_below n ≡ ok i → i < n
last_below-below zero i h = cc
last_below-below (suc n) i h = rw (← ok-injective n i h) (omega arith)

pub kube-IsBounded : IsBounded kube
kube-IsBounded = record { draws = λ n s i h. last_below-below n i h }

once-held : (r : Result Bool) → once r ≡ ok tt → r ≡ ok true
once-held (ok true) h = refl
once-held (ok false) h = cc h
once-held (err e) h = cc h

pub kube-IsBackoff : IsBackoff kube
kube-IsBackoff = record { held = λ b condition s h. (s, once-held (condition s).0 h) }

-- A run outside the cluster, in the namespace "tvk".
abbrev pub options : Run plain
options = record {
  storage_class = "csi";
  local_registry = "";
  image_pull_secret = "";
  service_account_name = "";
  perform_cleanup_on_fail = true;
  pvc_storage_request = 1;
  resources = record { requests = []; limits = [] };
  scheduling = record { node_selector = []; affinity = none; tolerations = [] };
  namespace = "tvk";
  kubeconfig = "";
  log_level = "INFO";
  in_cluster = false;
  scope = "namespace";
}

abbrev pub start : World kube
start = record { cluster = 0; trace = []; report = []; snapshot_class = ""; vol_snap_class = "" }

-- The same cluster on a machine without random numbers.
abbrev pub broken : Cluster plain
broken = record kube { rand_int = λ n s. (err (failure "no entropy"), s) }

abbrev pub start_broken : World broken
start_broken = record {
  cluster = 0;
  trace = [];
  report = [];
  snapshot_class = "";
  vol_snap_class = "";
}

abbrev class_of : String → String → Result (Option String) → SnapshotClass
class_of name driver is_default = record {
  gvk = record { group = "snapshot.storage.k8s.io"; version = "v1"; kind = "VolumeSnapshotClass" };
  metadata = meta_of "" name "";
  driver = driver;
  deletion_policy = "Delete";
  is_default = is_default;
}

abbrev pub classes : List SnapshotClass
classes =
    class_of "first" "csi.example.com" (ok none)
    ∷ class_of "foreign" "csi.other.com" (ok (some "true"))
    ∷ class_of "chosen" "csi.example.com" (ok (some "true"))
    ∷ []
