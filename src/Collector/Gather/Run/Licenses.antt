-- ===== src/Collector/Gather/Run/Licenses.antt =====
-- What `getTrilioGroupResources` of log_collector.go writes.
use mathlib.Core.Path.{subst}
use tvk_plugins.Base.{String, ◌≡◌, sym, List, [], ◌∷◌, All}
use tvk_plugins.Action.Keeps.{Keeps, Keeps-pure, Keeps-bind}
use tvk_plugins.Collector.Host.{
  Objects, Host, ApiResource, Session, Change, directory, file, bytes, yaml, event, removal,
  removal_all, archived, Done,
}
use tvk_plugins.Collector.Host.Changes.{change-Done}
use tvk_plugins.Collector.Filters.{Options}
use tvk_plugins.Collector.Redaction.{license_kind}
use tvk_plugins.Collector.Redaction.Redacted.{IsTree, HasNoKey, to_write-redact_license-HasNoKey}
use tvk_plugins.Collector.Writer.{write_yaml}
use tvk_plugins.Collector.Gather.Reads.{get_resource_objects-Done}
use tvk_plugins.Collector.Gather.Run.{write_redacted, get_trilio_group_resources}

module _ {O : Objects} (T : IsTree O) where
  -- Directories and files are made, and no license is written with its key or with annotations.
  abbrev pub IsRedacted : Change O → Type 0
  IsRedacted (yaml p m) = O.kind m ≡ license_kind → HasNoKey T m
  IsRedacted (directory p mode) = Unit
  IsRedacted (file p) = Unit
  IsRedacted (bytes p b) = ⊥
  IsRedacted (event p m) = ⊥
  IsRedacted (removal p) = ⊥
  IsRedacted (removal_all p) = ⊥
  IsRedacted (archived zip p) = ⊥

module _ {O : Objects} (T : IsTree O) (H : Host O) (l : Options) where
  write_redacted-IsRedacted :
      (dir : String) (ms : List O.Map) → Keeps (Done (IsRedacted T)) (write_redacted H l dir ms)
  unfolding write_redacted write_yaml
  write_redacted-IsRedacted dir [] = Keeps-pure tt
  write_redacted-IsRedacted dir (m ∷ ms) =
      Keeps-bind _ _
        (Keeps-bind _ _ (change-Done _ _ _ tt) λ _.
          Keeps-bind _ _ (change-Done _ _ _ tt)
            λ _. change-Done _ _ _ (to_write-redact_license-HasNoKey T m))
        λ _. write_redacted-IsRedacted dir ms

  group-IsRedacted :
      (rs : List ApiResource) (gv : String)
      → Keeps (Done (IsRedacted T)) (get_trilio_group_resources H l rs gv)
  unfolding get_trilio_group_resources
  group-IsRedacted [] gv = Keeps-pure tt
  group-IsRedacted (r ∷ rs) gv =
      Keeps-bind _ _ (get_resource_objects-Done H l _ r)
        λ ms. Keeps-bind _ _ (write_redacted-IsRedacted r.kind ms) λ _. group-IsRedacted rs gv

  -- Where the helpers of unstructured objects keep their promises, whatever the cluster and the file
  -- system answer: from a session without changes, the collection of the group of the product only
  -- makes directories and files and writes objects, and no object of the kind of a license that it
  -- writes has a key or annotations.
  pub get_trilio_group_resources-IsRedacted :
      (rs : List ApiResource) (gv : String) (w : Session H)
      → w.done ≡ []
      → All (IsRedacted T) (get_trilio_group_resources H l rs gv w).1.done
  get_trilio_group_resources-IsRedacted rs gv w h =
      (group-IsRedacted rs gv).after w (subst (All (IsRedacted T)) (sym h) tt)
