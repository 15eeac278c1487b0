-- ===== src/Preflight/SnapshotClasses/Chosen.antt =====
-- Which class `checkAndCreateSnapshotClassForProvisioner` of tools/preflight/preflight.go chooses.
use tvk_plugins.Base.{
  String, Bool, ◌==◌, ◌≡◌, refl, Option, none, some, List, [], ◌∷◌, if◌then◌else◌, Bool-cases, inl,
  inr,
}
use tvk_plugins.Kube.{SnapshotClass}
use tvk_plugins.Preflight.SnapshotClasses.{
  Choice, default_class, last_class, is_default_class, choose_class,
}

module _ {A : Type 0} where
  abbrev pub filter : (A → Bool) → List A → List A
  filter p [] = []
  filter p (x ∷ xs) = if p x then x ∷ filter p xs else filter p xs

  abbrev pub find : (A → Bool) → List A → Option A
  find p [] = none
  find p (x ∷ xs) = if p x then some x else find p xs

  abbrev pub last_or : A → List A → A
  last_or d [] = d
  last_or d (x ∷ xs) = last_or x xs

abbrev pub of_driver : String → List SnapshotClass → List SnapshotClass
of_driver provisioner = filter (λ c. c.driver == provisioner)

abbrev pub names : List SnapshotClass → List String
names [] = []
names (c ∷ cs) = c.metadata.name ∷ names cs

-- The choice as a description: among the classes of the driver, the first default one, else the
-- last one, else what was seen before.
abbrev pub described : String → List SnapshotClass → Choice
described seen cs = elim (find is_default_class cs) [
  | some c ↦ default_class c.metadata.name
  | none ↦ last_class (last_or seen (names cs))
]

-- The loop over the classes chooses the first default class of the driver, and the last class of
-- the driver where none of them is a default one; classes of other drivers play no part.
pub choose_class-described :
    (provisioner seen : String) (cs : List SnapshotClass)
    → choose_class provisioner seen cs ≡ described seen (of_driver provisioner cs)
unfolding choose_class
choose_class-described provisioner seen [] = refl
choose_class-described provisioner seen (c ∷ cs) = elim (Bool-cases (c.driver == provisioner)) [
  | inl same ↦
      rw (same, choose_class)
        (elim (Bool-cases (is_default_class c)) [
          | inl chosen ↦ rw (chosen, described, choose_class) refl
          | inr plain ↦
              rw (plain, described, choose_class)
                (choose_class-described provisioner c.metadata.name cs)
        ])
  | inr other ↦ rw (other, choose_class) (choose_class-described provisioner seen cs)
]
