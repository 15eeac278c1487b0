-- ===== src/Cmd/Gvks.antt =====
-- The flag of group, version and kind, and the removal of doubles: `parseGVK`,
-- `deDuplicateAndFixGVKs` and `deDuplicateLabelSelector` of cmd/log-collector/cmd/helper.go.
pub mod RoundTrip
pub mod Unique
use tvk_plugins.Base.{
  String, ◌<>◌, ◌==◌, Bool, true, false, ◌||◌, if◌then◌else◌, Option, none, some, List, [], ◌∷◌,
  ◌++◌,
}
use tvk_plugins.Action.{Error, Result, ok, err, failure}
use tvk_plugins.Text.{split, equal_fold}
use tvk_plugins.Collector.Labels.{GroupVersionKind}

-- A Go function that can index past the end.
pub data Parsed {ℓ} (A : Type ℓ) : Type ℓ where
  parsed : A → Parsed A
  failed : Error → Parsed A
  panicked : Parsed A

abbrev pub kind_empty : Error
kind_empty = failure "kind cannot be empty in gvks flag "

abbrev pub gvk_error : Error
gvk_error = failure "error parsing gvks "

-- One round of the loop. The branch for texts of another form reads `splitGVK[2]` first.
unfoldable pub gvk_of_parts : List String → Parsed GroupVersionKind
gvk_of_parts (g ∷ v ∷ k ∷ []) =
    if k == "" then failed kind_empty else parsed (record { group = g; version = v; kind = k })
gvk_of_parts (g ∷ v ∷ k ∷ more) = if k == "" then failed kind_empty else failed gvk_error
gvk_of_parts _ = panicked

abbrev pub and_then {ℓ} : {A : Type ℓ} → Parsed A → Parsed (List A) → Parsed (List A)
and_then (parsed a) (parsed more) = parsed (a ∷ more)
and_then (parsed a) (failed e) = failed e
and_then (parsed a) panicked = panicked
and_then (failed e) r = failed e
and_then panicked r = panicked

unfoldable pub parse_gvk : List String → Parsed (List GroupVersionKind)
unfolding gvk_of_parts
parse_gvk [] = parsed []
parse_gvk (s ∷ rest) = and_then (gvk_of_parts (split "/" s)) (parse_gvk rest)

-- `deDuplicateLabelSelector`, for the text of a selector: the first of those with one text stays.
module _ {A : Type 0} (text_of : A → String) where
  unfoldable pub has_text : String → List String → Bool
  has_text t [] = false
  has_text t (s ∷ seen) = s == t || has_text t seen

  unfoldable pub unique_from : List String → List A → List A
  unfolding has_text
  unique_from seen [] = []
  unique_from seen (x ∷ xs) =
      let skipped = unique_from seen xs in
      let taken = x ∷ unique_from (text_of x ∷ seen) xs in
      if has_text (text_of x) seen then skipped else taken

  unfoldable pub de_duplicate_label_selector : List A → List A
  unfolding unique_from
  de_duplicate_label_selector xs = unique_from [] xs

-- `metav1.APIGroup`
pub record ApiGroupVersion : Type 0 where
  pub name : String
  pub preferred : String

-- The loop over the groups: the last one of the name gives the version.
unfoldable pub fix_version : List ApiGroupVersion → GroupVersionKind → GroupVersionKind
fix_version [] g = g
fix_version (a ∷ groups) g =
    fix_version groups (if equal_fold a.name g.group then record g { version = a.preferred } else g)

-- `fmt.Sprintf("%s", gvk)`. The set holds it in lower case: two are the same up to case.
abbrev pub gvk_text : GroupVersionKind → String
gvk_text g = "{" <> g.group <> " " <> g.version <> " " <> g.kind <> "}"

unfoldable pub has_folded : String → List String → Bool
has_folded t [] = false
has_folded t (s ∷ seen) = equal_fold s t || has_folded t seen

abbrev pub config_kind_empty : Error
config_kind_empty = failure "kind cannot be empty in gvks, check your config file"

abbrev pub in_front :
    GroupVersionKind → Result (List GroupVersionKind) → Result (List GroupVersionKind)
in_front g (ok gs) = ok (g ∷ gs)
in_front g (err e) = err e

-- The groups are read only if a version is missing; then `groups` is what the cluster answered.
unfoldable pub fix_if_missing : Option (List ApiGroupVersion) → GroupVersionKind → GroupVersionKind
unfolding fix_version
fix_if_missing none g = g
fix_if_missing (some groups) g = if g.version == "" then fix_version groups g else g

unfoldable pub unique_gvks :
    Option (List ApiGroupVersion)
    → List String
    → List GroupVersionKind
    → Result (List GroupVersionKind)
unfolding has_folded fix_if_missing
unique_gvks groups seen [] = ok []
unique_gvks groups seen (g ∷ gs) =
    let skipped = unique_gvks groups seen gs in
    let taken = in_front (fix_if_missing groups g) (unique_gvks groups (gvk_text g ∷ seen) gs) in
    if has_folded (gvk_text g) seen
    then skipped
    else if g.kind == ""
    then err config_kind_empty
    else taken

abbrev pub needs_preferred_version : List GroupVersionKind → Bool
needs_preferred_version [] = false
needs_preferred_version (g ∷ gs) = g.version == "" || needs_preferred_version gs
