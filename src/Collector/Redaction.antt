-- ===== src/Collector/Redaction.antt =====
-- What the log collector takes out of objects before it writes them: `isNFSPV` and `sanitizeNFSPV` of
-- tools/log-collector/helper.go, and the fields of a license in `getTrilioGroupResources`.
pub mod Redacted
use tvk_plugins.Base.{
  String, ◌==◌, Bool, true, false, ◌&&◌, if◌then◌else◌, Option, none, some, List, [], ◌∷◌,
}
use tvk_plugins.Base.Dict.{insert}
use tvk_plugins.Action.{Result, ok, err}
use tvk_plugins.Collector.Host.{Objects}

abbrev pub persistent_volume_kind : String
persistent_volume_kind = "PersistentVolume"

abbrev pub license_kind : String
license_kind = "License"

-- A value that was found without an error.
abbrev pub present {ℓ} : {A : Type ℓ} → Result (Option A) → Option A
present (ok o) = o
present (err e) = none

abbrev is_some {ℓ} : {A : Type ℓ} → Option A → Bool
is_some none = false
is_some (some a) = true

module _ (O : Objects) where
  abbrev pub field : String → O.Map → Option O.Map
  field name m = present (O.nested_map (name ∷ []) m)

  abbrev pub has_nfs : Option O.Map → Bool
  has_nfs none = false
  has_nfs (some spec) = is_some (field "nfs" spec)

  unfoldable pub is_nfs_pv : O.Map → Bool
  is_nfs_pv pv = has_nfs (field "spec" pv)

  abbrev pub without_credentials : O.Map → O.Map
  without_credentials nfs =
      O.remove_nested_field ("readOnly" ∷ [])
        (O.remove_nested_field ("path" ∷ []) (O.remove_nested_field ("server" ∷ []) nfs))

  abbrev pub with_nfs : O.Map → O.Map → O.Map → O.Map
  with_nfs nfs spec pv = O.set_nested_map (O.set_nested_map nfs ("nfs" ∷ []) spec) ("spec" ∷ []) pv

  abbrev pub annotated : O.Map → O.Map
  annotated pv =
      O.set_annotations
        (insert "log-collector.trilio.io/nfs-credentials-removed" "true" (O.annotations pv)) pv

  abbrev pub sanitize_nfs : O.Map → O.Map → Option O.Map → O.Map
  sanitize_nfs pv spec none = pv
  sanitize_nfs pv spec (some nfs) = annotated (with_nfs (without_credentials nfs) spec pv)

  abbrev pub sanitize_spec : O.Map → Option O.Map → O.Map
  sanitize_spec pv none = pv
  sanitize_spec pv (some spec) = sanitize_nfs pv spec (field "nfs" spec)

  unfoldable pub sanitize_nfs_pv : O.Map → O.Map
  sanitize_nfs_pv pv = sanitize_spec pv (field "spec" pv)

  -- The test in `writeYaml`.
  unfoldable pub to_write : O.Map → O.Map
  unfolding is_nfs_pv sanitize_nfs_pv
  to_write obj =
      if O.kind obj == persistent_volume_kind && is_nfs_pv obj then sanitize_nfs_pv obj else obj

  -- The test in `getTrilioGroupResources`.
  unfoldable pub redact_license : O.Map → O.Map
  redact_license obj =
      if O.kind obj == license_kind
      then O.remove_nested_field ("metadata" ∷ "annotations" ∷ [])
          (O.remove_nested_field ("spec" ∷ "key" ∷ []) obj)
      else obj
