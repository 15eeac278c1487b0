-- ===== src/Collector/Writer/Safe.antt =====
-- Invariants of the changes that the writers make: any `Q` that holds of what they do to files.
use tvk_plugins.Base.{ℕ, String, ◌≡◌, Bool, false, List, [], ◌∷◌}
use tvk_plugins.Base.Dict.{Dict}
use tvk_plugins.Action.{Error, Result, ok, err, Action}
use tvk_plugins.Action.Keeps.{
  Keeps, Keeps-pure, Keeps-raise, Keeps-lift, Keeps-attempt, Keeps-if, Keeps-unless, Keeps-bind,
  Keeps-cases,
}
use tvk_plugins.Collector.Host.{
  Bytes, Objects, Host, Header, Typeflag, type_dir, type_reg, type_other, TarStream, end_of_archive,
  broken_archive, entry, GzipStream, Visit, visit_dir, visit_file, visit_error, Session, Change,
  directory, file, bytes, yaml, event, removal, removal_all, archived, Done, ask,
}
use tvk_plugins.Collector.Host.Changes.{ask-Done, change-Done}
use tvk_plugins.Collector.Filters.{Options, ContainerStat}
use tvk_plugins.Collector.Redaction.{to_write}
use tvk_plugins.Collector.Archive.{
  extract_regular, extract_as, extract_entry, extract_entries, extract_tar_file, remove_quietly,
  copy_capped, give_up, settle, unpack, unpack_valid, decompress_gz_file, visit_all,
  decompress_gz_in_dir,
}
use tvk_plugins.Collector.Writer.{
  exec_in_pod, stream_and_extract, copy_dir_from_pod, write_yaml, write_chunks, write_log,
  write_container_logs, copy_control_plane_logs, write_logs, write_objects_and_logs,
  write_events_of, write_events_to_file, zip_visits, zip_dir, remove_output,
}

-- What the collector does to files: an object is written as `to_write` makes it, and only the output
-- directory is removed as a whole.
pub record Allows {O : Objects} (l : Options) (Q : Change O → Type 0) : Type 0 where
  pub directories : (p : String) (mode : ℕ) → Q (directory p mode)
  pub files : (p : String) → Q (file p)
  pub writes : (p : String) (b : Bytes) → Q (bytes p b)
  pub yamls : (p : String) (m : O.Map) → Q (yaml p (to_write O m))
  pub events : (p : String) (m : O.Map) → Q (event p m)
  pub removals : (p : String) → Q (removal p)
  pub archives : (zip p : String) → Q (archived zip p)
  pub output : l.clean_output ≡ false → Q (removal_all l.output_dir)

module _ {O : Objects} (H : Host O) (l : Options) {Q : Change O → Type 0} (A : Allows l Q) where
  abbrev pub Safe : {B : Type 0} → Action (Session H) B → Type 0
  Safe m = Keeps (Done Q) m

  pub asks : {B : Type 0} (call : Action H.State B) → Safe (ask H call)
  asks call = ask-Done Q call

  extract_as-Safe :
      (flag : Typeflag) (h : Header) (t : String) (mode : ℕ) → Safe (extract_as H flag h t mode)
  unfolding extract_as extract_regular
  extract_as-Safe type_dir h t mode = change-Done Q _ _ (A.directories _ _)
  extract_as-Safe type_reg h t mode = Keeps-bind _ _ (Keeps-lift _) λ n.
      Keeps-bind _ _ (change-Done Q _ _ (A.directories _ _)) λ _.
        Keeps-bind _ _ (change-Done Q _ _ (A.files _))
          λ _. Keeps-bind _ _ (change-Done Q _ _ (A.writes _ _)) λ _. Keeps-lift _
  extract_as-Safe type_other h t mode = Keeps-pure tt

  extract_entries-Safe : (dest : String) (s : TarStream) → Safe (extract_entries H dest s)
  unfolding extract_entries extract_entry
  extract_entries-Safe dest end_of_archive = Keeps-pure tt
  extract_entries-Safe dest (broken_archive e) = Keeps-raise e
  extract_entries-Safe dest (entry h rest) =
      Keeps-bind _ _
        (Keeps-bind _ _ (Keeps-lift _)
          λ t. Keeps-bind _ _ (Keeps-lift _) λ mode. extract_as-Safe h.typeflag h t mode)
        λ _. extract_entries-Safe dest rest

  extract_tar_file-Safe : (tar dest : String) → Safe (extract_tar_file H tar dest)
  unfolding extract_tar_file
  extract_tar_file-Safe tar dest =
      Keeps-bind _ _ (asks _) λ _. Keeps-bind _ _ (asks _) λ s. extract_entries-Safe dest s

  remove_quietly-Safe : (p : String) → Safe (remove_quietly H p)
  unfolding remove_quietly
  remove_quietly-Safe p =
      Keeps-bind _ _ (Keeps-attempt _ (change-Done Q _ _ (A.removals p))) λ _. Keeps-pure tt

  give_up-Safe : (p q : String) (e : Error) → Safe (give_up H p q e)
  unfolding give_up
  give_up-Safe p q e =
      Keeps-bind _ _ (remove_quietly-Safe q)
        λ _. Keeps-bind _ _ (remove_quietly-Safe p) λ _. Keeps-raise e

  settle-Safe : (p q : String) (r : Result ℕ) → Safe (settle H p q r)
  unfolding settle
  settle-Safe p q (err e) = give_up-Safe p q e
  settle-Safe p q (ok n) = Keeps-if _ _ _ (give_up-Safe p q _) (remove_quietly-Safe p)

  unpack_valid-Safe : (p : String) (r : Result GzipStream) → Safe (unpack_valid H p r)
  unfolding unpack copy_capped
  unpack_valid-Safe p (err e) = Keeps-pure tt
  unpack_valid-Safe p (ok g) = Keeps-bind _ _ (change-Done Q _ _ (A.files _)) λ _.
      Keeps-bind _ _
        (Keeps-attempt _ (
          Keeps-bind _ _ (change-Done Q _ _ (A.writes _ _))
            λ _. Keeps-bind _ _ (Keeps-lift _) λ _. Keeps-pure _))
        λ r. settle-Safe p _ r

  visit_all-Safe : (vs : List Visit) → Safe (visit_all H vs)
  unfolding visit_all decompress_gz_file
  visit_all-Safe [] = Keeps-pure tt
  visit_all-Safe (visit_error e ∷ vs) = Keeps-raise e
  visit_all-Safe (visit_dir p ∷ vs) = visit_all-Safe vs
  visit_all-Safe (visit_file p ∷ vs) =
      Keeps-bind _ _
        (Keeps-if _ _ _
          (Keeps-bind _ _ (asks _)
            λ _. Keeps-bind _ _ (Keeps-attempt _ (asks _)) λ r. unpack_valid-Safe p r)
          (Keeps-pure tt))
        λ _. visit_all-Safe vs

  decompress_gz_in_dir-Safe : (root : String) → Safe (decompress_gz_in_dir H root)
  unfolding decompress_gz_in_dir
  decompress_gz_in_dir-Safe root = Keeps-bind _ _ (asks _) λ vs. visit_all-Safe vs

  exec_in_pod-Safe :
      (ns pod container : String) (cmd : List String) → Safe (exec_in_pod H l ns pod container cmd)
  unfolding exec_in_pod
  exec_in_pod-Safe ns pod container cmd =
      Keeps-bind _ _ (Keeps-attempt _ (asks _))
        λ r. Keeps-cases r _ _ (λ _. asks _) (λ e. Keeps-pure _)

  stream_and_extract-Safe :
      (ns pod container src dest tar : String)
      → Safe (stream_and_extract H l ns pod container src dest tar)
  unfolding stream_and_extract
  stream_and_extract-Safe ns pod container src dest tar = Keeps-bind _ _ (asks _) λ _.
      Keeps-bind _ _ (asks _) λ a. Keeps-bind _ _ (change-Done Q _ _ (A.writes _ _)) λ _.
        Keeps-bind _ _ (Keeps-lift _)
          λ _. Keeps-bind _ _ (asks _) λ _. extract_tar_file-Safe tar dest

  copy_dir_from_pod-Safe :
      (ns pod container src dest : String) → Safe (copy_dir_from_pod H l ns pod container src dest)
  unfolding copy_dir_from_pod
  copy_dir_from_pod-Safe ns pod container src dest = Keeps-bind _ _ (exec_in_pod-Safe _ _ _ _) λ a.
      Keeps-bind _ _ (Keeps-lift _) λ found.
        Keeps-if _ _ _
          (Keeps-bind _ _ (change-Done Q _ _ (A.directories _ _)) λ _.
            Keeps-bind _ _ (asks _) λ tar.
              Keeps-bind _ _ (Keeps-attempt _ (stream_and_extract-Safe _ _ _ _ _ _))
                λ r. Keeps-bind _ _ (remove_quietly-Safe tar) λ _. Keeps-lift r)
          (Keeps-pure tt)

  pub write_yaml-Safe : (dir : String) (m : O.Map) → Safe (write_yaml H l dir m)
  unfolding write_yaml
  write_yaml-Safe dir m =
      Keeps-bind _ _ (change-Done Q _ _ (A.directories _ _))
        λ _. Keeps-bind _ _ (change-Done Q _ _ (A.files _)) λ _. change-Done Q _ _ (A.yamls _ m)

  write_chunks-Safe : (p : String) (bs : List Bytes) → Safe (write_chunks H l p bs)
  unfolding write_chunks
  write_chunks-Safe p [] = Keeps-pure tt
  write_chunks-Safe p (b ∷ bs) =
      Keeps-bind _ _ (change-Done Q _ _ (A.writes p b)) λ _. write_chunks-Safe p bs

  write_log-Safe :
      (dir ns pod container : String) (previous : Bool)
      → Safe (write_log H l dir ns pod container previous)
  unfolding write_log
  write_log-Safe dir ns pod container previous = Keeps-bind _ _ (Keeps-attempt _ (asks _)) λ r.
      Keeps-cases r _ _
        (λ s.
          Keeps-bind _ _ (change-Done Q _ _ (A.files _))
            λ _. Keeps-bind _ _ (write_chunks-Safe _ s.chunks) λ _. Keeps-lift _)
        (λ e. Keeps-pure tt)

  write_container_logs-Safe :
      (dir ns pod : String) (cs : Dict ContainerStat)
      → Safe (write_container_logs H l dir ns pod cs)
  unfolding write_container_logs
  write_container_logs-Safe dir ns pod [] = Keeps-pure tt
  write_container_logs-Safe dir ns pod ((c, s) ∷ cs) =
      Keeps-bind _ _ (Keeps-if _ _ _ (write_log-Safe _ _ _ _ _) (Keeps-pure tt)) λ _.
        Keeps-bind _ _ (Keeps-if _ _ _ (write_log-Safe _ _ _ _ _) (Keeps-pure tt))
          λ _. write_container_logs-Safe dir ns pod cs

  copy_control_plane_logs-Safe :
      (dest ns pod : String) (cs : List String) → Safe (copy_control_plane_logs H l dest ns pod cs)
  unfolding copy_control_plane_logs
  copy_control_plane_logs-Safe dest ns pod [] = Keeps-pure tt
  copy_control_plane_logs-Safe dest ns pod (c ∷ cs) =
      Keeps-bind _ _
        (Keeps-if _ _ _
          (Keeps-bind _ _ (Keeps-attempt _ (copy_dir_from_pod-Safe _ _ _ _ _)) λ r.
            Keeps-cases r _ _
              (λ _.
                Keeps-bind _ _ (Keeps-attempt _ (decompress_gz_in_dir-Safe dest))
                  λ _. Keeps-pure tt)
              (λ e. Keeps-pure tt))
          (Keeps-pure tt))
        λ _. copy_control_plane_logs-Safe dest ns pod cs

  write_logs-Safe : (dir : String) (m : O.Map) → Safe (write_logs H l dir m)
  unfolding write_logs
  write_logs-Safe dir m = Keeps-bind _ _ (asks _) λ absent.
      Keeps-bind _ _ (Keeps-if _ _ _ (change-Done Q _ _ (A.directories _ _)) (Keeps-pure tt)) λ _.
        Keeps-bind _ _ (Keeps-attempt _ (asks _)) λ r.
          Keeps-cases r _ _
            (λ p.
              Keeps-bind _ _
                (Keeps-if _ _ _ (copy_control_plane_logs-Safe _ _ _ p.containers) (Keeps-pure tt))
                λ _. write_container_logs-Safe _ _ _ _)
            (λ e. Keeps-if _ _ _ (Keeps-pure tt) (Keeps-raise e))

  pub write_objects_and_logs-Safe :
      (ms : List O.Map) (kind : String) → Safe (write_objects_and_logs H l ms kind)
  unfolding write_objects_and_logs
  write_objects_and_logs-Safe [] kind = Keeps-pure []
  write_objects_and_logs-Safe (m ∷ ms) kind =
      Keeps-bind _ _ (Keeps-if _ _ _ (write_logs-Safe kind m) (Keeps-pure tt)) λ _.
        Keeps-bind _ _ (write_yaml-Safe kind m)
          λ _. Keeps-bind _ _ (write_objects_and_logs-Safe ms kind) λ rest. Keeps-pure _

  write_events_of-Safe :
      (dir : String) (es : List (String × O.Map)) → Safe (write_events_of H l dir es)
  unfolding write_events_of
  write_events_of-Safe dir [] = Keeps-pure tt
  write_events_of-Safe dir ((key, m) ∷ es) =
      Keeps-bind _ _ (change-Done Q _ _ (A.files _))
        λ _. Keeps-bind _ _ (change-Done Q _ _ (A.events _ m)) λ _. write_events_of-Safe dir es

  pub write_events_to_file-Safe :
      (es : Dict (List (String × O.Map))) → Safe (write_events_to_file H l es)
  unfolding write_events_to_file
  write_events_to_file-Safe [] = Keeps-pure tt
  write_events_to_file-Safe ((ns, events) ∷ es) = Keeps-bind _ _ (asks _) λ absent.
      Keeps-bind _ _ (Keeps-if _ _ _ (change-Done Q _ _ (A.directories _ _)) (Keeps-pure tt))
        λ _. Keeps-bind _ _ (write_events_of-Safe _ events) λ _. write_events_to_file-Safe es

  zip_visits-Safe : (zip : String) (vs : List Visit) → Safe (zip_visits H l zip vs)
  unfolding zip_visits
  zip_visits-Safe zip [] = Keeps-pure tt
  zip_visits-Safe zip (visit_error e ∷ vs) = Keeps-raise e
  zip_visits-Safe zip (visit_dir p ∷ vs) = zip_visits-Safe zip vs
  zip_visits-Safe zip (visit_file p ∷ vs) =
      Keeps-bind _ _ (asks _)
        λ _. Keeps-bind _ _ (change-Done Q _ _ (A.archives zip p)) λ _. zip_visits-Safe zip vs

  pub remove_output-Safe : Safe (remove_output H l)
  remove_output-Safe = Keeps-unless _ _ _ (Keeps-pure tt) λ k. change-Done Q _ _ (A.output k)

  pub zip_dir-Safe : Safe (zip_dir H l)
  unfolding zip_dir
  zip_dir-Safe = Keeps-bind _ _ (change-Done Q _ _ (A.files _)) λ _.
      Keeps-bind _ _ (asks _) λ vs. Keeps-bind _ _ (zip_visits-Safe _ vs) λ _. remove_output-Safe
