-- ===== src/Collector/Archive/Within.antt =====
-- Where the extraction of an archive writes.
use tvk_plugins.Base.{
  ℕ, String, ◌≡◌, sym, ap, ◌∙◌, ◌⊎◌, inl, inr, List, [], if◌then◌else◌, All, Bool-cases, refl, ◌++◌,
  ◌<>◌,
}
use mathlib.Core.Path.{subst}
use tvk_plugins.Action.{Result, ok, err, ok-injective, lift, failure}
use tvk_plugins.Action.Keeps.{
  Keeps, Keeps-pure, Keeps-raise, Keeps-lift, Keeps-bind, Keeps-bind-known,
}
use tvk_plugins.Paths.{route, rel, dir, clean}
use tvk_plugins.Paths.Clean.{route-clean, IsName}
use tvk_plugins.Paths.Relative.{leaves, IsWithin, rel-IsWithin}
use tvk_plugins.Collector.Host.{
  Objects, Host, Header, Typeflag, TarStream, end_of_archive, broken_archive, entry, type_dir,
  type_reg, type_other, Session, Change, directory, file, bytes, yaml, event, archived, removal,
  removal_all, Done,
}
use tvk_plugins.Collector.Host.Changes.{ask-Done, change-Done}
use tvk_plugins.Collector.Archive.{
  accept, ensure_within_dir, extract_regular, extract_as, extract_entry, extract_entries,
  extract_tar_file,
}

accept-IsWithin :
    (base target t : String) (r : Result String)
    → rel base target ≡ r
    → accept target r ≡ ok t
    → IsWithin base t
accept-IsWithin base target t (err e) h k = cc k
accept-IsWithin base target t (ok r) h k = elim (Bool-cases (leaves r)) [
  | inl out ↦ cc (out, k)
  | inr stays ↦
      let e = failure ("illegal file path outside destination: " <> target) in
      let same = ok-injective target t (sym (ap (λ b. if b then err e else ok target) stays) ∙ k) in
      subst (IsWithin base) same (rel-IsWithin base target r h stays)
]

-- A path that `ensureWithinDir` returns lies in the directory.
pub ensure_within_dir-IsWithin :
    (base target t : String) → ensure_within_dir base target ≡ ok t → IsWithin base t
unfolding ensure_within_dir
ensure_within_dir-IsWithin base target t h =
    subst
      (λ r.
        (below : List String) × All IsName below
        × (route t ≡ record r { names = r.names ++ below }))
      (route-clean base) (accept-IsWithin (clean base) (clean target) t _ refl h)

module _ {O : Objects} (dest : String) where
  -- Files are written in the directory; directories are made there, or are where such a file lies.
  abbrev pub IsExtracted : Change O → Type 0
  IsExtracted (directory p mode) = IsWithin dest p ⊎ ((t : String) × IsWithin dest t × (p ≡ dir t))
  IsExtracted (file p) = IsWithin dest p
  IsExtracted (bytes p b) = IsWithin dest p
  IsExtracted (yaml p m) = ⊥
  IsExtracted (event p m) = ⊥
  IsExtracted (archived p q) = ⊥
  IsExtracted (removal p) = ⊥
  IsExtracted (removal_all p) = ⊥

  module _ (H : Host O) where
    extract_regular-IsExtracted :
        (h : Header) (t : String) (mode : ℕ)
        → IsWithin dest t
        → Keeps (Done IsExtracted) (extract_regular H h t mode)
    unfolding extract_regular
    extract_regular-IsExtracted h t mode within = Keeps-bind _ _ (Keeps-lift _) λ n.
        Keeps-bind _ _ (change-Done IsExtracted _ _ (inr (t, within, refl))) λ _.
          Keeps-bind _ _ (change-Done IsExtracted _ _ within)
            λ _. Keeps-bind _ _ (change-Done IsExtracted _ _ within) λ _. Keeps-lift _

    extract_as-IsExtracted :
        (flag : Typeflag) (h : Header) (t : String) (mode : ℕ)
        → IsWithin dest t
        → Keeps (Done IsExtracted) (extract_as H flag h t mode)
    unfolding extract_as
    extract_as-IsExtracted type_dir h t mode within = change-Done IsExtracted _ _ (inl within)
    extract_as-IsExtracted type_reg h t mode within = extract_regular-IsExtracted h t mode within
    extract_as-IsExtracted type_other h t mode within = Keeps-pure tt

    extract_entry-IsExtracted : (h : Header) → Keeps (Done IsExtracted) (extract_entry H dest h)
    unfolding extract_entry lift
    extract_entry-IsExtracted h = Keeps-bind-known _ _ (Keeps-lift _) λ t w e.
        Keeps-bind _ _ (Keeps-lift _)
          λ mode. extract_as-IsExtracted h.typeflag h t mode (ensure_within_dir-IsWithin dest _ t e)

    extract_entries-IsExtracted :
        (stream : TarStream) → Keeps (Done IsExtracted) (extract_entries H dest stream)
    unfolding extract_entries
    extract_entries-IsExtracted end_of_archive = Keeps-pure tt
    extract_entries-IsExtracted (broken_archive e) = Keeps-raise e
    extract_entries-IsExtracted (entry h rest) =
        Keeps-bind _ _ (extract_entry-IsExtracted h) λ _. extract_entries-IsExtracted rest

    extract_tar_file-Keeps :
        (tar_path : String) → Keeps (Done IsExtracted) (extract_tar_file H tar_path dest)
    unfolding extract_tar_file
    extract_tar_file-Keeps tar_path =
        Keeps-bind _ _ (ask-Done IsExtracted _)
          λ _. Keeps-bind _ _ (ask-Done IsExtracted _) λ stream. extract_entries-IsExtracted stream

-- Whatever the archive holds and however it ends: if the session has changed nothing yet, all files
-- that an extraction opens or writes lie in the destination directory, and each directory that it
-- makes lies there or is the directory of such a file.
pub extract_tar_file-IsExtracted :
    {O : Objects} (H : Host O) (tar_path dest : String) (w : Session H)
    → w.done ≡ []
    → All (IsExtracted dest) (extract_tar_file H tar_path dest w).1.done
extract_tar_file-IsExtracted H tar_path dest w h =
    (extract_tar_file-Keeps dest H tar_path).after w (subst (All (IsExtracted dest)) (sym h) tt)
