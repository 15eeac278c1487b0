-- ===== src/Collector/Redaction/Redacted.antt =====
-- What is not in an object that is written.
use mathlib.Core.Path.{subst}
use tvk_plugins.Base.{
  String, ◌==◌, Bool, true, false, ◌&&◌, if◌then◌else◌, ◌≡◌, ◌≢◌, refl, sym, ap, ◌∙◌, Option, none,
  some, List, [], ◌∷◌, eq_iff, Bool-cases, inl, inr, All,
}
use tvk_plugins.Action.{ok}
use tvk_plugins.Collector.Host.{Objects}
use tvk_plugins.Collector.Redaction.{
  persistent_volume_kind, license_kind, present, field, has_nfs, is_nfs_pv, without_credentials,
  with_nfs, annotated, sanitize_nfs, sanitize_spec, sanitize_nfs_pv, to_write, redact_license,
}
use tvk_plugins.Base.Dict.{Dict}

-- What the helpers of `unstructured` do, said with the test whether a field is there
-- (`NestedFieldNoCopy`).
pub record IsTree (O : Objects) : Type 0 where
  pub has : List String → O.Map → Bool
  pub has-remove_self : (fs : List String) (m : O.Map) → has fs (O.remove_nested_field fs m) ≡ false
  pub has-remove :
      (fs gs : List String) (m : O.Map)
      → has gs m ≡ false
      → has gs (O.remove_nested_field fs m) ≡ false
  pub has-set :
      (f g : String) (gs : List String) (v m : O.Map)
      → has (f ∷ g ∷ gs) (O.set_nested_map v (f ∷ []) m) ≡ has (g ∷ gs) v
  pub has-set_annotations :
      (gs : List String) (a : Dict String) (m : O.Map)
      → has ("spec" ∷ gs) (O.set_annotations a m) ≡ has ("spec" ∷ gs) m
  -- a field below another one is there only if that one is a map
  pub has-below :
      (f g : String) (gs : List String) (m : O.Map)
      → has (f ∷ g ∷ gs) m ≡ true
      → (v : O.Map) × (O.nested_map (f ∷ []) m ≡ ok (some v)) × (has (g ∷ gs) v ≡ true)
  pub kind-remove :
      (f : String) (fs : List String) (m : O.Map)
      → f ≢ "kind"
      → O.kind (O.remove_nested_field (f ∷ fs) m) ≡ O.kind m
  pub kind-set :
      (f : String) (fs : List String) (v m : O.Map)
      → f ≢ "kind"
      → O.kind (O.set_nested_map v (f ∷ fs) m) ≡ O.kind m
  pub kind-set_annotations :
      (a : Dict String) (m : O.Map) → O.kind (O.set_annotations a m) ≡ O.kind m

module _ {O : Objects} (T : IsTree O) where
  abbrev pub HasNot : List String → O.Map → Type 0
  HasNot fs m = T.has fs m ≡ false

  -- No server, no path, and no word on read-only.
  abbrev pub HasNoCredentials : O.Map → Type 0
  HasNoCredentials m =
      All (λ k. HasNot ("spec" ∷ "nfs" ∷ k ∷ []) m) ("server" ∷ "path" ∷ "readOnly" ∷ [])

  removed :
      (nfs : O.Map)
      → All (λ k. HasNot (k ∷ []) (without_credentials O nfs)) ("server" ∷ "path" ∷ "readOnly" ∷ [])
  removed nfs = (
    T.has-remove _ _ _ (T.has-remove _ _ _ (T.has-remove_self _ nfs)),
    (T.has-remove _ _ _ (T.has-remove_self _ _), (T.has-remove_self _ _, tt)),
  )

  kept_below :
      (nfs spec pv : O.Map) (k : String)
      → HasNot (k ∷ []) nfs
      → HasNot ("spec" ∷ "nfs" ∷ k ∷ []) (annotated O (with_nfs O nfs spec pv))
  kept_below nfs spec pv k h =
      T.has-set_annotations _ _ _
      ∙ T.has-set "spec" "nfs" (k ∷ []) _ pv
      ∙ T.has-set "nfs" k [] nfs spec
      ∙ h

  sanitized :
      (nfs spec pv : O.Map)
      → HasNoCredentials (annotated O (with_nfs O (without_credentials O nfs) spec pv))
  sanitized nfs spec pv =
      let (a, (b, (c, _))) = removed nfs in
      (kept_below _ spec pv _ a, (kept_below _ spec pv _ b, (kept_below _ spec pv _ c, tt)))

  -- A field below spec.nfs is not there if the test for an NFS volume says no.
  below : (m : O.Map) (k : String) → is_nfs_pv O m ≡ false → HasNot ("spec" ∷ "nfs" ∷ k ∷ []) m
  unfolding is_nfs_pv
  below m k h = elim (Bool-cases (T.has ("spec" ∷ "nfs" ∷ k ∷ []) m)) [
    | inr out ↦ out
    | inl there ↦
        let (spec, s, more) = T.has-below "spec" "nfs" (k ∷ []) m there in
        let (nfs, n, _) = T.has-below "nfs" k [] spec more in
        cc (
          h,
          ap (λ r. has_nfs O (present r)) s,
          ap (λ r. has_nfs O (some spec)) n,
          ap (λ r. is_found (present r)) n,
        )
  ]
    where
      is_found : Option O.Map → Bool
      is_found none = false
      is_found (some a) = true

  sanitized_nfs :
      (pv spec : O.Map) (o : Option O.Map)
      → (field O "nfs" spec ≡ o → has_nfs O (some spec) ≡ true → o ≢ none)
      → field O "nfs" spec ≡ o
      → has_nfs O (some spec) ≡ true
      → HasNoCredentials (sanitize_nfs O pv spec o)
  sanitized_nfs pv spec none found e h = absurd (found e h refl)
  sanitized_nfs pv spec (some nfs) found e h = sanitized nfs spec pv

  sanitized_spec :
      (pv : O.Map) (o : Option O.Map) → has_nfs O o ≡ true → HasNoCredentials (sanitize_spec O pv o)
  sanitized_spec pv none h = cc h
  sanitized_spec pv (some spec) h =
      sanitized_nfs pv spec (field O "nfs" spec) (λ _ k e. cc (k, e)) refl h

  sanitize_nfs_pv-HasNoCredentials :
      (pv : O.Map) → is_nfs_pv O pv ≡ true → HasNoCredentials (sanitize_nfs_pv O pv)
  unfolding is_nfs_pv sanitize_nfs_pv
  sanitize_nfs_pv-HasNoCredentials pv h = sanitized_spec pv (field O "spec" pv) h

  written_cases :
      (obj : O.Map) (volume nfs : Bool)
      → (O.kind obj == persistent_volume_kind) ≡ volume
      → is_nfs_pv O obj ≡ nfs
      → let m = if volume && nfs then sanitize_nfs_pv O obj else obj in
        O.kind m ≡ persistent_volume_kind → HasNoCredentials m
  written_cases obj true true v n _ = sanitize_nfs_pv-HasNoCredentials obj n
  written_cases obj true false v n _ = (below obj _ n, (below obj _ n, (below obj _ n, tt)))
  written_cases obj false nfs v n k =
      absurd (cc (v, (eq_iff (O.kind obj) persistent_volume_kind).1 k))

  -- What is written for a persistent volume tells no server, path or mode of an NFS volume.
  pub to_write-HasNoCredentials :
      (obj : O.Map)
      → O.kind (to_write O obj) ≡ persistent_volume_kind
      → HasNoCredentials (to_write O obj)
  unfolding to_write
  to_write-HasNoCredentials obj = written_cases obj _ _ refl refl

  -- Neither the key of the license nor an annotation.
  abbrev pub HasNoKey : O.Map → Type 0
  HasNoKey m = HasNot ("spec" ∷ "key" ∷ []) m × HasNot ("metadata" ∷ "annotations" ∷ []) m

  redacted_cases :
      (obj : O.Map) (license : Bool)
      → (O.kind obj == license_kind) ≡ license
      → let m =
          if license
          then O.remove_nested_field
              ("metadata" ∷ "annotations" ∷ [])
              (O.remove_nested_field ("spec" ∷ "key" ∷ []) obj)
          else obj in
        O.kind m ≡ license_kind → HasNoKey m
  redacted_cases obj true e k = (T.has-remove _ _ _ (T.has-remove_self _ _), T.has-remove_self _ _)
  redacted_cases obj false e k = absurd (cc (e, (eq_iff (O.kind obj) license_kind).1 k))

  redact_license-HasNoKey :
      (obj : O.Map) → O.kind (redact_license O obj) ≡ license_kind → HasNoKey (redact_license O obj)
  unfolding redact_license
  redact_license-HasNoKey obj = redacted_cases obj _ refl

  sanitize_nfs-kind :
      (pv spec : O.Map) (o : Option O.Map) → O.kind (sanitize_nfs O pv spec o) ≡ O.kind pv
  sanitize_nfs-kind pv spec none = refl
  sanitize_nfs-kind pv spec (some nfs) =
      T.kind-set_annotations _ _
      ∙ T.kind-set "spec" [] _ pv (λ e. absurd (cc ((eq_iff "spec" "kind").1 e)))

  sanitize_spec-kind : (pv : O.Map) (o : Option O.Map) → O.kind (sanitize_spec O pv o) ≡ O.kind pv
  sanitize_spec-kind pv none = refl
  sanitize_spec-kind pv (some spec) = sanitize_nfs-kind pv spec (field O "nfs" spec)

  untouched_cases :
      (m : O.Map) (volume nfs : Bool)
      → (O.kind m == persistent_volume_kind) ≡ volume
      → let t = if volume && nfs then sanitize_nfs_pv O m else m in O.kind t ≡ license_kind → t ≡ m
  unfolding sanitize_nfs_pv
  untouched_cases m true true v k = absurd (
      cc (
        k,
        sanitize_spec-kind m (field O "spec" m),
        (eq_iff (O.kind m) persistent_volume_kind).0 v,
      ))
  untouched_cases m true false v k = refl
  untouched_cases m false nfs v k = refl

  -- An object of the kind of a license is written as it is.
  license_untouched : (m : O.Map) → O.kind (to_write O m) ≡ license_kind → to_write O m ≡ m
  unfolding to_write
  license_untouched m = untouched_cases m _ _ refl

  -- What is written for a license of the group of the product has no key and no annotation.
  pub to_write-redact_license-HasNoKey :
      (obj : O.Map)
      → O.kind (to_write O (redact_license O obj)) ≡ license_kind
      → HasNoKey (to_write O (redact_license O obj))
  to_write-redact_license-HasNoKey obj k =
      let same = license_untouched (redact_license O obj) k in
      subst HasNoKey (sym same) (redact_license-HasNoKey obj (sym (ap O.kind same) ∙ k))
