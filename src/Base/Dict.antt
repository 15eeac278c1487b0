-- ===== src/Base/Dict.antt =====
-- Go's `map[string]V` as an association list: an assignment replaces the entry of its key.
use tvk_plugins.Base.{
  ◌≡◌, refl, Bool, true, false, Option, none, some, List, [], ◌∷◌, String, ◌==◌, eq_iff, arith,
  if◌then◌else◌,
}

abbrev pub Dict {ℓ} : Type ℓ → Type ℓ
Dict V = List (String × V)

module _ {ℓ} {V : Type ℓ} where
  unfoldable pub lookup : String → Dict V → Option V
  lookup k [] = none
  lookup k ((j, v) ∷ d) = if j == k then some v else lookup k d

  unfoldable pub insert : String → V → Dict V → Dict V
  insert k v [] = (k, v) ∷ []
  insert k v ((j, w) ∷ d) = if j == k then (k, v) ∷ d else (j, w) ∷ insert k v d

  -- `m[k]`, where a missing key gives the type's zero value.
  unfoldable pub get_or : String → V → Dict V → V
  get_or k z d = elim (lookup k d) [ none ↦ z | some v ↦ v ]

  pub lookup-insert :
      (k j : String) (v : V) (d : Dict V)
      → lookup j (insert k v d) ≡ (if k == j then some v else lookup j d)
  unfolding lookup insert
  lookup-insert k j v [] = refl
  lookup-insert k j v ((i, w) ∷ d) =
      ground (arith, eq_iff k j, eq_iff i k, eq_iff i j, lookup-insert k j v d)

  pub get_or-insert :
      (k j : String) (z v : V) (d : Dict V)
      → get_or j z (insert k v d) ≡ (if k == j then v else get_or j z d)
  unfolding get_or
  get_or-insert k j z v d = rw (get_or, lookup-insert k j v d) (by_key (k == j))
    where
      by_key :
          (b : Bool)
          → elim (if b then some v else lookup j d) [ none ↦ z | some w ↦ w ]
            ≡ (if b then v else elim (lookup j d) [ none ↦ z | some w ↦ w ])
      by_key true = refl
      by_key false = refl
