-- ===== src/Collector/Writer.antt =====
-- What the log collector writes for an object: `writeYaml`, `writeLogs`, `writeLog`,
-- `writeEventsToFile`, `writeObjectsAndLogs`, `CopyDirFromPod` and `zipDir` of log_collector.go.
pub mod Safe
pub mod EventFiles
use tvk_plugins.Base.{
  ℕ, String, ◌<>◌, ◌==◌, ◌||◌, Bool, true, false, if◌then◌else◌, Option, none, some, List, [], ◌∷◌,
  ◌++◌,
}
use tvk_plugins.Base.Dict.{Dict}
use tvk_plugins.Action.{
  Error, Result, ok, err, Action, failure, message, is_not_found, pure, raise, lift, attempt, ◌>>=◌,
  ◌>>◌,
}
use tvk_plugins.Text.{contains_text, dot_first_slash}
use tvk_plugins.Paths.{join_path}
use tvk_plugins.Collector.Host.{
  Bytes, Objects, Host, LogStream, ExecAnswer, PodView, NamespacedName, Visit, visit_dir,
  visit_file, visit_error, Session, Change, directory, file, bytes, yaml, event, removal,
  removal_all, archived, ask, change,
}
use tvk_plugins.Collector.Filters.{Options, ContainerStat, get_containers, is_control_plane_pod}
use tvk_plugins.Collector.Redaction.{to_write}
use tvk_plugins.Collector.Archive.{remove_quietly, extract_tar_file, decompress_gz_in_dir}

module _ {O : Objects} (H : Host O) (l : Options) where
  -- `execInPod`
  unfoldable pub exec_in_pod :
      String → String → String → List String → Action (Session H) ExecAnswer
  exec_in_pod ns pod container cmd = do
    r ← attempt (ask H (H.new_executor ns pod container cmd))
    elim r [
      | err e ↦ pure (record { stdout = []; stderr = ""; error = some e })
      | ok _ ↦ ask H (λ s. let (a, s') = H.exec ns pod container cmd s in (ok a, s'))
    ]

  -- What `checkDirectoryHasFiles` makes of the answer of `ls`.
  unfoldable pub has_files : ExecAnswer → Result Bool
  has_files a = elim a.error [
    | none ↦ ok true
    | some e ↦
        if contains_text a.stderr "No such file or directory" || contains_text a.stderr "not found"
        then ok false
        else err (failure ("failed to check directory: " <> message e))
  ]

  -- The archive is written to a temporary file, and then extracted from it.
  unfoldable pub stream_and_extract :
      String → String → String → String → String → String → Action (Session H) (Unit {0})
  unfolding extract_tar_file
  stream_and_extract ns pod container src dest tar = do
    let cmd = "tar" ∷ "cf" ∷ "-" ∷ "-C" ∷ src ∷ "." ∷ []
    ask H (H.new_executor ns pod container cmd)
    a ← ask H (λ s. let (a, s') = H.exec ns pod container cmd s in (ok a, s'))
    change H (bytes tar a.stdout) (H.write tar a.stdout)
    lift (elim a.error [
      | none ↦ ok tt
      | some e ↦ err (failure ("exec stream error: " <> message e <> "; stderr: " <> a.stderr))
    ])
    ask H (H.close tar)
    extract_tar_file H tar dest

  -- `CopyDirFromPod`, with clients that are there. The temporary file is removed in all cases.
  unfoldable pub copy_dir_from_pod :
      String → String → String → String → String → Action (Session H) (Unit {0})
  unfolding exec_in_pod has_files stream_and_extract remove_quietly
  copy_dir_from_pod ns pod container src dest = do
    a ← exec_in_pod ns pod container ("ls" ∷ "-la" ∷ src ∷ [])
    found ← lift (has_files a)
    if found
        then (do
          change H (directory dest 0o755) (H.mkdir_all dest 0o755)
          tar ← ask H (H.create_temp dest "tvklog-*.tar")
          r ← attempt (stream_and_extract ns pod container src dest tar)
          remove_quietly H tar
          lift r)
        else pure tt

  -- `writeYaml`
  unfoldable pub write_yaml : String → O.Map → Action (Session H) (Unit {0})
  unfolding to_write
  write_yaml resource_dir obj = do
    let path = join_path (l.output_dir ∷ resource_dir ∷ O.namespace obj ∷ [])
    change H (directory path 0o755) (H.mkdir_all path 0o755)
    let target = join_path (path ∷ O.name obj ∷ []) <> ".yaml"
    change H (file target) (H.create target)
    change H (yaml target (to_write O obj)) (H.write_yaml target (to_write O obj))

  unfoldable pub write_chunks : String → List Bytes → Action (Session H) (Unit {0})
  write_chunks path [] = pure tt
  write_chunks path (b ∷ bs) = do change H (bytes path b) (H.write path b); write_chunks path bs

  abbrev copy_log : String → LogStream → Action (Session H) (Unit {0})
  copy_log path s = do
    change H (file path) (H.create path)
    write_chunks path s.chunks
    lift (elim s.broken [ none ↦ ok tt | some e ↦ err e ])

  -- `writeLog`: a stream that cannot be opened is skipped.
  unfoldable pub write_log :
      String → String → String → String → Bool → Action (Session H) (Unit {0})
  unfolding write_chunks
  write_log resource_dir ns pod container previous = do
    r ← attempt (ask H (H.pod_logs ns pod container previous))
    let sub_path = if previous then "previous" else "current"
    let path = join_path (resource_dir ∷ pod ∷ []) <> "." <> container <> "." <> sub_path <> ".log"
    elim r [ err e ↦ pure tt | ok s ↦ copy_log path s ]

  unfoldable pub write_container_logs :
      String → String → String → Dict ContainerStat → Action (Session H) (Unit {0})
  unfolding write_log
  write_container_logs path ns pod [] = pure tt
  write_container_logs path ns pod ((c, s) ∷ cs) = do
    if s.curr then write_log path ns pod c false else pure tt
    if s.prev then write_log path ns pod c true else pure tt
    write_container_logs path ns pod cs

  -- The containers of a control plane pod: errors are logged.
  unfoldable pub copy_control_plane_logs :
      String → String → String → List String → Action (Session H) (Unit {0})
  unfolding copy_dir_from_pod decompress_gz_in_dir
  copy_control_plane_logs dest ns pod [] = pure tt
  copy_control_plane_logs dest ns pod (c ∷ cs) = do
    if c == "triliovault-control-plane"
        then (do
          r ← attempt (copy_dir_from_pod ns pod c "/var/log/triliovault" dest)
          elim r [
            | err e ↦ pure tt
            | ok _ ↦ attempt (decompress_gz_in_dir H dest) >>= λ _. pure tt
          ])
        else pure tt
    copy_control_plane_logs dest ns pod cs

  abbrev write_pod : String → String → String → PodView → Action (Session H) (Unit {0})
  write_pod path ns pod p = do
    if is_control_plane_pod p then copy_control_plane_logs path ns pod p.containers else pure tt
    write_container_logs path ns pod (get_containers p)

  abbrev unless_not_found : Error → Action (Session H) (Unit {0})
  unless_not_found e = if is_not_found e then pure tt else raise e

  -- `writeLogs`: a pod that is gone is skipped.
  unfoldable pub write_logs : String → O.Map → Action (Session H) (Unit {0})
  unfolding copy_control_plane_logs write_container_logs is_control_plane_pod get_containers
  write_logs resource_dir obj = do
    let path = join_path (l.output_dir ∷ resource_dir ∷ O.namespace obj ∷ [])
    absent ← ask H (H.is_absent path)
    if absent then change H (directory path 0o755) (H.mkdir_all path 0o755) else pure tt
    r ← attempt (ask H (H.get_pod (O.name obj) (O.namespace obj)))
    elim r [ err e ↦ unless_not_found e | ok p ↦ write_pod path (O.namespace obj) (O.name obj) p ]

  -- `writeObjectsAndLogs`: the kind with the names of the objects, or nothing where there is none.
  unfoldable pub write_objects_and_logs :
      List O.Map → String → Action (Session H) (List NamespacedName)
  unfolding write_logs write_yaml
  write_objects_and_logs [] kind = pure []
  write_objects_and_logs (obj ∷ objs) kind = do
    if kind == "Pod" then write_logs kind obj else pure tt
    write_yaml kind obj
    rest ← write_objects_and_logs objs kind
    pure (record { namespace = O.namespace obj; name = O.name obj } ∷ rest)

  unfoldable pub write_events_of : String → List (String × O.Map) → Action (Session H) (Unit {0})
  unfolding dot_first_slash
  write_events_of dir [] = pure tt
  write_events_of dir ((key, value) ∷ more) = do
    let path = join_path (dir ∷ dot_first_slash key ∷ []) <> ".yaml"
    change H (file path) (H.create path)
    change H (event path value) (H.write_yaml path value)
    write_events_of dir more

  -- `writeEventsToFile`
  unfoldable pub write_events_to_file : Dict (List (String × O.Map)) → Action (Session H) (Unit {0})
  unfolding write_events_of
  write_events_to_file [] = pure tt
  write_events_to_file ((ns, events) ∷ more) = do
    let dir = join_path (l.output_dir ∷ "Events" ∷ ns ∷ [])
    absent ← ask H (H.is_absent dir)
    if absent then change H (directory dir 0o755) (H.mkdir_all dir 0o755) else pure tt
    write_events_of dir events
    write_events_to_file more

  unfoldable pub zip_visits : String → List Visit → Action (Session H) (Unit {0})
  zip_visits zip [] = pure tt
  zip_visits zip (visit_error e ∷ vs) = raise e
  zip_visits zip (visit_dir p ∷ vs) = zip_visits zip vs
  zip_visits zip (visit_file p ∷ vs) = do
    ask H (H.open_read p)
    change H (archived zip p) (H.add_to_zip zip p)
    zip_visits zip vs

  abbrev pub remove_output : Action (Session H) (Unit {0})
  remove_output =
      if l.clean_output
      then pure tt
      else change H (removal_all l.output_dir) (H.remove_all l.output_dir)

  -- `zipDir`
  unfoldable pub zip_dir : Action (Session H) (Unit {0})
  unfolding zip_visits
  zip_dir = do
    let zip = l.output_dir <> ".zip"
    change H (file zip) (H.create zip)
    visits ← ask H (λ s. let (v, s') = H.walk l.output_dir s in (ok v, s'))
    zip_visits zip visits
    remove_output
