-- ===== src/Collector/Labels/Matched.antt =====
-- What the tests on labels say.
use tvk_plugins.Base.{
  String, Bool, true, false, ◌&&◌, ◌≡◌, ◌↔◌, refl, ap, Option, none, some, [], ◌∷◌, All, eq_iff,
}
use tvk_plugins.Base.Dict.{Dict, lookup}
use tvk_plugins.Collector.Labels.{has_value, decided, label_exists, check_label_exist, match_labels}

-- The labels hold the value under the key.
abbrev pub Holds : Dict String → String × String → Type 0
Holds labels (k, v) = lookup k labels ≡ some v

some-injective {ℓ} : {A : Type ℓ} (a b : A) → some a ≡ some b → a ≡ b
some-injective a b h = cc

has_value_iff : (o : Option String) (v : String) → (has_value o v ≡ true) ↔ (o ≡ some v)
has_value_iff none v = (λ h. cc h, λ h. cc h)
has_value_iff (some w) v =
    (λ h. ap some ((eq_iff w v).0 h), λ h. (eq_iff w v).1 (some-injective w v h))

and-split : (a b : Bool) → (a && b) ≡ true → (a ≡ true) × (b ≡ true)
and-split true b h = (refl, h)
and-split false b h = cc h

and-join : (a b : Bool) → a ≡ true → b ≡ true → (a && b) ≡ true
and-join true b h k = k
and-join false b h k = cc h

-- Labels match a map exactly when they hold all of its entries.
pub match_labels-Holds :
    (labels wanted : Dict String) → (match_labels labels wanted ≡ true) ↔ All (Holds labels) wanted
unfolding match_labels
match_labels-Holds labels [] = (λ h. tt, λ h. refl)
match_labels-Holds labels ((k, v) ∷ wanted) =
    let one = has_value_iff (lookup k labels) v in
    let more = match_labels-Holds labels wanted in
    (
      λ h. let (a, b) = and-split _ _ h in (one.0 a, more.0 b),
      λ h. and-join _ _ (one.1 h.0) (more.1 h.1),
    )

decided_iff : (o : Option String) (v : String) → (decided false o v ≡ true) ↔ (o ≡ some v)
decided_iff none v = has_value_iff none v
decided_iff (some w) v = has_value_iff (some w) v

-- The test for the label of one of the products is the test for its key and value.
pub check_label_exist-Holds :
    (k v : String) (labels : Dict String)
    → (check_label_exist ((k, v) ∷ []) labels ≡ true) ↔ Holds labels (k, v)
unfolding check_label_exist label_exists
check_label_exist-Holds k v labels = decided_iff (lookup k labels) v
