-- ===== src/Cmd/Gvks/Unique.antt =====
-- The removal of doubles keeps the first of those with one text.
use tvk_plugins.Base.{
  String, ◌==◌, Bool, true, false, ◌||◌, ◌≡◌, ◌≢◌, refl, sym, ap, ◌∙◌, List, [], ◌∷◌, map, All,
  All-weaken, if◌then◌else◌, eq_iff, Bool-cases, inl, inr, eq_refl, Option, none, some,
}
use mathlib.Core.Path.{subst}
use tvk_plugins.Text.{equal_fold}
use tvk_plugins.Action.{Result, ok, err, ok-injective}
use tvk_plugins.Collector.Labels.{GroupVersionKind}
use tvk_plugins.Cmd.Gvks.{
  has_text, unique_from, de_duplicate_label_selector, ApiGroupVersion, in_front, gvk_text,
  fix_version, fix_if_missing, config_kind_empty, unique_gvks,
}

module _ {A : Type 0} (text_of : A → String) where
  -- No text is among those seen before, or comes twice.
  abbrev pub IsUnique : List String → List A → Type 0
  IsUnique seen [] = Unit
  IsUnique seen (x ∷ xs) =
      (has_text text_of (text_of x) seen ≡ false) × IsUnique (text_of x ∷ seen) xs

  -- The text is one of those seen, or of an element.
  abbrev pub covered : List String → List A → A → Bool
  covered seen ys x =
      has_text text_of (text_of x) seen || has_text text_of (text_of x) (map text_of ys)

  unique_from-IsUnique :
      (seen : List String) (xs : List A) → IsUnique seen (unique_from text_of seen xs)
  unfolding unique_from
  unique_from-IsUnique seen [] = tt
  unique_from-IsUnique seen (x ∷ xs) = elim (Bool-cases (has_text text_of (text_of x) seen)) [
    | inl again ↦ rw (again) (unique_from-IsUnique seen xs)
    | inr new ↦ rw (new) (new, unique_from-IsUnique (text_of x ∷ seen) xs)
  ]

  unique_from_of_IsUnique :
      (seen : List String) (xs : List A) → IsUnique seen xs → unique_from text_of seen xs ≡ xs
  unfolding unique_from
  unique_from_of_IsUnique seen [] h = refl
  unique_from_of_IsUnique seen (x ∷ xs) (h, hs) =
      rw (h) (ap (λ ys. x ∷ ys) (unique_from_of_IsUnique (text_of x ∷ seen) xs hs))

  or-shift : (a b c : Bool) → ((a || b) || c) ≡ true → (b || (a || c)) ≡ true
  or-shift true true c h = refl
  or-shift true false c h = refl
  or-shift false true c h = refl
  or-shift false false c h = h

  or-left : (a b : Bool) → a ≡ true → (a || b) ≡ true
  or-left true b h = refl
  or-left false b h = cc h

  or-right : (a b : Bool) → b ≡ true → (a || b) ≡ true
  or-right true b h = refl
  or-right false b h = h

  unique_from-covered :
      (seen : List String) (xs : List A)
      → All (λ x. covered seen (unique_from text_of seen xs) x ≡ true) xs
  unfolding unique_from has_text
  unique_from-covered seen [] = tt
  unique_from-covered seen (x ∷ xs) = elim (Bool-cases (has_text text_of (text_of x) seen)) [
    | inl again ↦
        subst Covers (sym (ap (λ b. if b then skipped else taken) again))
          (or-left _ _ again, unique_from-covered seen xs)
    | inr new ↦ subst Covers (sym (ap (λ b. if b then skipped else taken) new)) (
      or-right _ _ (or-left _ _ (eq_refl (text_of x))),
      All-weaken (λ y h. or-shift (text_of x == text_of y) _ _ h) xs
          (unique_from-covered (text_of x ∷ seen) xs),
    )
  ]
    where
      Covers : List A → Type 0
      Covers ys = All (λ z. covered seen ys z ≡ true) (x ∷ xs)

      skipped : List A
      skipped = unique_from text_of seen xs

      taken : List A
      taken = x ∷ unique_from text_of (text_of x ∷ seen) xs

  -- After the removal of doubles no text comes twice, and the text of every selector is still there.
  pub de_duplicate_label_selector-IsUnique :
      (xs : List A)
      → IsUnique [] (de_duplicate_label_selector text_of xs)
        × All
            (λ x.
              has_text text_of (text_of x) (map text_of (de_duplicate_label_selector text_of xs))
              ≡ true)
            xs
  unfolding de_duplicate_label_selector has_text
  de_duplicate_label_selector-IsUnique xs = (unique_from-IsUnique [] xs, unique_from-covered [] xs)

  -- Selectors without doubles stay as they are, in order.
  pub de_duplicate_label_selector_of_IsUnique :
      (xs : List A) → IsUnique [] xs → de_duplicate_label_selector text_of xs ≡ xs
  unfolding de_duplicate_label_selector
  de_duplicate_label_selector_of_IsUnique xs h = unique_from_of_IsUnique [] xs h

fix_version-kind :
    (groups : List ApiGroupVersion) (g : GroupVersionKind) → (fix_version groups g).kind ≡ g.kind
unfolding fix_version
fix_version-kind [] g = refl
fix_version-kind (a ∷ groups) g = fix_version-kind groups _ ∙ chosen (equal_fold a.name g.group)
  where
    chosen : (b : Bool) → (if b then record g { version = a.preferred } else g).kind ≡ g.kind
    chosen true = refl
    chosen false = refl

missing-kind :
    (groups : List ApiGroupVersion) (g : GroupVersionKind) (b : Bool)
    → (if b then fix_version groups g else g).kind ≡ g.kind
missing-kind groups g true = fix_version-kind groups g
missing-kind groups g false = refl

fix_if_missing-kind :
    (groups : Option (List ApiGroupVersion)) (g : GroupVersionKind)
    → (fix_if_missing groups g).kind ≡ g.kind
unfolding fix_if_missing
fix_if_missing-kind none g = refl
fix_if_missing-kind (some groups) g = missing-kind groups g (g.version == "")

abbrev HaveKinds : List GroupVersionKind → Type 0
HaveKinds gs = All (λ r. r.kind ≢ "") gs

in_front-kinds :
    (g : GroupVersionKind) (more : Result (List GroupVersionKind)) (rs : List GroupVersionKind)
    → g.kind ≢ ""
    → ((r : List GroupVersionKind) → more ≡ ok r → HaveKinds r)
    → in_front g more ≡ ok rs
    → HaveKinds rs
in_front-kinds g (ok gs) rs ne k h = subst HaveKinds (ok-injective _ _ h) (ne, k gs refl)
in_front-kinds g (err e) rs ne k h = cc h

kinds_step :
    (again empty : Bool) (g : GroupVersionKind) (skipped more : Result (List GroupVersionKind))
    (rs : List GroupVersionKind)
    → (empty ≡ false → g.kind ≢ "")
    → ((r : List GroupVersionKind) → skipped ≡ ok r → HaveKinds r)
    → ((r : List GroupVersionKind) → more ≡ ok r → HaveKinds r)
    → (if again then skipped else if empty then err config_kind_empty else in_front g more) ≡ ok rs
    → HaveKinds rs
kinds_step true empty g skipped more rs ne ks km h = ks rs h
kinds_step false true g skipped more rs ne ks km h = cc h
kinds_step false false g skipped more rs ne ks km h = in_front-kinds g more rs (ne refl) km h

-- What the removal of doubles and the choice of versions return has a kind in every element.
pub unique_gvks-kinds :
    (groups : Option (List ApiGroupVersion)) (seen : List String) (gs rs : List GroupVersionKind)
    → unique_gvks groups seen gs ≡ ok rs
    → All (λ r. r.kind ≢ "") rs
unfolding unique_gvks
unique_gvks-kinds groups seen [] rs h = subst HaveKinds (ok-injective [] rs h) tt
unique_gvks-kinds groups seen (g ∷ gs) rs h =
    kinds_step _ (g.kind == "") (fix_if_missing groups g) _ _ rs
      (λ e c. cc (e, (eq_iff g.kind "").1 (sym (fix_if_missing-kind groups g) ∙ c)))
      (λ r. unique_gvks-kinds groups seen gs r)
      (λ r. unique_gvks-kinds groups (gvk_text g ∷ seen) gs r) h
