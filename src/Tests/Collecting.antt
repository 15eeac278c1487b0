-- ===== src/Tests/Collecting.antt =====
-- The theorems on the log collector, applied to small values.
use tvk_plugins.Base.{String, true, false, ◌==◌, ◌≡◌, refl, none, List, [], ◌∷◌, if◌then◌else◌, All}
use tvk_plugins.Base.Dict.{Dict}
use tvk_plugins.Action.{Result, ok, err, failure, api, not_found}
use tvk_plugins.Collector.Labels.{GroupVersionKind}
use tvk_plugins.Collector.Host.{
  pos, Header, type_dir, type_reg, end_of_archive, entry, TarStream, GzipStream, visit_dir,
  visit_file, directory, file, yaml, ApiResource, ResourceGroup, NamespaceView, Host, Session,
}
use tvk_plugins.Collector.Filters.{Options}
use tvk_plugins.Collector.Archive.{extract_tar_file, decompress_gz_file}
use tvk_plugins.Collector.Archive.Within.{IsExtracted, extract_tar_file-IsExtracted}
use tvk_plugins.Collector.Archive.Bounded.{
  IsBounded, AllAccepted, extract_tar_file-IsBounded, extract_tar_file-AllAccepted,
}
use tvk_plugins.Collector.Archive.Unpacked.{Outcome, decompress_gz_file-Outcome}
use tvk_plugins.Collector.Gather.Run.{collect_logs_and_dump, get_trilio_group_resources}
use tvk_plugins.Collector.Gather.Run.Licenses.{IsRedacted, get_trilio_group_resources-IsRedacted}
use tvk_plugins.Collector.Gather.Run.Safety.{IsSafeChange, collect_logs_and_dump-IsSafeChange}
use tvk_plugins.Tests.Trees.{PathMap, path_objects, path_objects-IsTree}

abbrev volume : PathMap
volume = record {
  kind = "PersistentVolume";
  name = "pv1";
  namespace = "";
  paths =
      ("spec" ∷ "nfs" ∷ "server" ∷ [])
      ∷ ("spec" ∷ "nfs" ∷ "path" ∷ [])
      ∷ ("metadata" ∷ "name" ∷ [])
      ∷ [];
}

abbrev license : PathMap
license = record {
  kind = "License";
  name = "tvk-license";
  namespace = "tvk";
  paths =
      ("spec" ∷ "key" ∷ [])
      ∷ ("metadata" ∷ "annotations" ∷ "last-applied" ∷ [])
      ∷ ("metadata" ∷ "name" ∷ [])
      ∷ [];
}

abbrev log_header : Header
log_header = record {
  name = "./tvk-manager.log";
  mode = pos 420;
  typeflag = type_reg;
  size = pos 2;
  body = b'o' ∷ b'k' ∷ [];
  body_error = none;
}

abbrev volumes : ApiResource
volumes = record {
  name = "persistentvolumes";
  kind = "PersistentVolume";
  group = "";
  version = "";
  namespaced = false;
  verbs = "get" ∷ "list" ∷ [];
}

abbrev licenses : ApiResource
licenses = record {
  name = "licenses";
  kind = "License";
  group = "";
  version = "";
  namespaced = true;
  verbs = "get" ∷ "list" ∷ [];
}

-- The machine's cluster at a path.
abbrev objects_at : String → List PathMap
objects_at path =
    if path == "/api/v1/persistentvolumes"
    then volume ∷ []
    else if path == "/apis/triliovault.trilio.io/v1/licenses"
    then license ∷ []
    else []

abbrev core : ResourceGroup
core = record { group_version = "v1"; resources = volumes ∷ [] }

abbrev unpacked_log : GzipStream
unpacked_log = record { content = b'o' ∷ b'k' ∷ []; broken = none }

-- A machine on which everything succeeds, and a cluster with one volume and one license.
abbrev pub machine : Host path_objects
machine = record {
  State = Unit {0};
  is_absent = λ p s. (ok true, s);
  mkdir_all = λ p m s. (ok tt, s);
  create = λ p s. (ok tt, s);
  open_file = λ p m s. (ok tt, s);
  write = λ p b s. (ok tt, s);
  write_yaml = λ p m s. (ok tt, s);
  create_temp = λ d p s. (ok "out/Pod/tvk/tvklog-1.tar", s);
  close = λ p s. (ok tt, s);
  remove = λ p s. (ok tt, s);
  remove_all = λ p s. (ok tt, s);
  walk = λ p s. (visit_dir "out" ∷ visit_file "out/PersistentVolume/pv1.yaml" ∷ [], s);
  open_read = λ p s. (ok tt, s);
  read_tar = λ p s. (entry log_header end_of_archive, s);
  read_gzip = λ p s. (ok unpacked_log, s);
  add_to_zip = λ z p s. (ok tt, s);
  list_objects = λ p s. (ok (objects_at p), s);
  get_object = λ p s. (err (api not_found p), s);
  get_pod = λ n ns s. (err (api not_found n), s);
  list_namespaces = λ s. (ok [], s);
  preferred_resources = λ s. ((core ∷ [], none), s);
  server_resources = λ v s. (err (api not_found v), s);
  pod_logs = λ a b c d s. (err (failure "waiting"), s);
  new_executor = λ a b c d s. (ok tt, s);
  exec = λ a b c d s. (record { stdout = []; stderr = ""; error = none }, s);
}

abbrev pub fresh : Session machine
fresh = record { host = tt; done = []; namespaces = []; install_namespace = ""; collected = [] }

abbrev pub all_volumes : GroupVersionKind
all_volumes = record { group = ""; version = "v1"; kind = "PersistentVolume" }

abbrev pub clustered_run : Options
clustered_run = record {
  output_dir = "out";
  clean_output = false;
  clustered = true;
  label_selectors = [];
  gvks = all_volumes ∷ [];
}

extract_tar_file-IsExtracted_example :
    All (IsExtracted "out/Pod/tvk") (extract_tar_file machine "t.tar" "out/Pod/tvk" fresh).1.done
extract_tar_file-IsExtracted_example =
    extract_tar_file-IsExtracted machine "t.tar" "out/Pod/tvk" fresh refl

extract_tar_file-IsBounded_example :
    All IsBounded (extract_tar_file machine "t.tar" "out/Pod/tvk" fresh).1.done
extract_tar_file-IsBounded_example =
    extract_tar_file-IsBounded machine "t.tar" "out/Pod/tvk" fresh refl

extracted : (extract_tar_file machine "t.tar" "out/Pod/tvk" fresh).0 ≡ ok tt
unfolding extract_tar_file tvk_plugins.Action.◌>>=◌ tvk_plugins.Collector.Host.ask
    tvk_plugins.Paths.rel tvk_plugins.Paths.join_path tvk_plugins.Collector.Host.change
extracted = refl

extract_tar_file-AllAccepted_example : AllAccepted (entry log_header end_of_archive)
extract_tar_file-AllAccepted_example =
    extract_tar_file-AllAccepted machine "t.tar" "out/Pod/tvk" fresh extracted

decompress_gz_file-Outcome_example :
    Outcome
      (λ g. (s : Unit {0}) × (Path (Result GzipStream) (ok unpacked_log) (ok g)))
      "a.log.gz"
      []
      (decompress_gz_file machine "a.log.gz" fresh).0
      (decompress_gz_file machine "a.log.gz" fresh).1.done
decompress_gz_file-Outcome_example = decompress_gz_file-Outcome machine "a.log.gz" fresh

collect_logs_and_dump-IsSafeChange_example :
    All
      (IsSafeChange path_objects-IsTree clustered_run)
      (collect_logs_and_dump machine clustered_run fresh).1.done
collect_logs_and_dump-IsSafeChange_example =
    collect_logs_and_dump-IsSafeChange path_objects-IsTree clustered_run machine fresh refl

get_trilio_group_resources-IsRedacted_example :
    All
      (IsRedacted path_objects-IsTree)
      (get_trilio_group_resources machine clustered_run
        (licenses ∷ [])
        "triliovault.trilio.io/v1"
        fresh).1.done
get_trilio_group_resources-IsRedacted_example =
    get_trilio_group_resources-IsRedacted path_objects-IsTree machine clustered_run (licenses ∷ [])
      "triliovault.trilio.io/v1" fresh refl

license_written :
    (get_trilio_group_resources machine clustered_run
      (licenses ∷ [])
      "triliovault.trilio.io/v1"
      fresh).1.done
    ≡ directory "out/License/tvk" 0o755
      ∷ file "out/License/tvk/tvk-license.yaml"
      ∷ yaml "out/License/tvk/tvk-license.yaml"
          (record license { paths = ("metadata" ∷ "name" ∷ []) ∷ [] })
      ∷ []
unfolding get_trilio_group_resources tvk_plugins.Action.◌>>=◌ tvk_plugins.Collector.Host.ask
    tvk_plugins.Collector.Filters.resource_path tvk_plugins.Collector.Host.change
    tvk_plugins.Paths.join_path
license_written = refl

abbrev pub two_labels : Dict String
two_labels = ("disk", "ssd") ∷ ("zone", "a") ∷ []
