-- ===== src/Preflight/SnapshotClasses/Found.antt =====
-- The class that is found or created where the user has named none:
-- `checkAndCreateSnapshotClassForProvisioner` of tools/preflight/preflight.go.
use tvk_plugins.Base.{
  String, ◌<>◌, Bool, true, false, ◌==◌, eq_iff, ◌≡◌, refl, sym, ◌∙◌, ◌⊎◌, inl, inr, List, [], ◌∷◌,
  if◌then◌else◌,
}
use tvk_plugins.Action.{Error, Result, ok, err, attempt, lift, pure, ◌>>=◌, ok-injective, >>=-eq-ok}
use tvk_plugins.Kube.{Externals, SnapshotClass, class_object, Cluster, World, ask, send}
use tvk_plugins.Preflight.Options.{default_vsc_name_prefix}
use tvk_plugins.Preflight.Checks.{map_error}
use tvk_plugins.Preflight.SnapshotClasses.{
  Choice, default_class, last_class, is_default_class, choose_class, snapshot_class_spec,
  create_volume_snapshot_class, create_class_or_explain, use_choice,
  check_and_create_snapshot_class, set_vol_snap_class, find_class,
}

-- Some class of the list is of the driver and has the name.
abbrev pub Has : String → String → List SnapshotClass → Type 0
Has driver name [] = ⊥
Has driver name (c ∷ cs) = ((c.driver ≡ driver) × (c.metadata.name ≡ name)) ⊎ Has driver name cs

-- The choice is a class of the driver; only a last class may be the one seen before instead.
abbrev Chose : String → String → List SnapshotClass → Choice → Type 0
Chose driver seen cs (default_class name) = Has driver name cs
Chose driver seen cs (last_class name) = (name ≡ seen) ⊎ Has driver name cs

module _ (driver seen : String) (c : SnapshotClass) (cs : List SnapshotClass) where
  Chose-skip : (choice : Choice) → Chose driver seen cs choice → Chose driver seen (c ∷ cs) choice
  Chose-skip (default_class name) h = inr h
  Chose-skip (last_class name) (inl e) = inl e
  Chose-skip (last_class name) (inr h) = inr (inr h)

  Chose-keep :
      (choice : Choice)
      → c.driver ≡ driver
      → Chose driver c.metadata.name cs choice
      → Chose driver seen (c ∷ cs) choice
  Chose-keep (default_class name) same h = inr h
  Chose-keep (last_class name) same (inl e) = inr (inl (same, sym e))
  Chose-keep (last_class name) same (inr h) = inr (inr h)

  Chose-cons :
      (same default : Bool)
      → (same ≡ true → c.driver ≡ driver)
      → ((seen' : String) → Chose driver seen' cs (choose_class driver seen' cs))
      → Chose driver seen (c ∷ cs) (elim same [
        | false ↦ choose_class driver seen cs
        | true ↦ elim default [
          | true ↦ default_class c.metadata.name
          | false ↦ choose_class driver c.metadata.name cs
        ]
      ])
  Chose-cons false default h ih = Chose-skip _ (ih seen)
  Chose-cons true true h ih = inl (h refl, refl)
  Chose-cons true false h ih = Chose-keep _ (h refl) (ih c.metadata.name)

choose_class-Chose :
    (driver seen : String) (cs : List SnapshotClass)
    → Chose driver seen cs (choose_class driver seen cs)
unfolding choose_class
choose_class-Chose driver seen [] = inl refl
choose_class-Chose driver seen (c ∷ cs) =
    Chose-cons driver seen c cs (c.driver == driver) (is_default_class c) (eq_iff c.driver driver).0
      (λ seen'. choose_class-Chose driver seen' cs)

pub mapped :
    {A : Type 0} (f : Error → Error) (r : Result A) (a : A) → map_error f r ≡ ok a → r ≡ ok a
unfolding map_error
mapped f (ok b) a h = h
mapped f (err e) a h = cc h

module _ {X : Externals} (K : Cluster X) where
  -- At some moment the class was listed, or it was created with a fresh name.
  abbrev pub IsFound : String → String → String → Type 0
  IsFound provisioner version name =
      ((s : K.State) × ((cs : List SnapshotClass) × ((K.list_snapshot_classes version s).0 ≡ ok cs)
          × Has provisioner name cs))
      ⊎ ((s : K.State) × ((drawn : String) × (name ≡ default_vsc_name_prefix <> drawn)
            × ((K.create (class_object (snapshot_class_spec name provisioner version)) s).0
                ≡ ok tt)))

  renamed :
      (driver version name drawn : String) (s : K.State)
      → default_vsc_name_prefix <> drawn ≡ name
      → (K.create
          (class_object (snapshot_class_spec (default_vsc_name_prefix <> drawn) driver version))
          s).0
        ≡ ok tt
      → IsFound driver version name
  renamed driver version name drawn s same made = inr (s, (drawn, sym same, rw (← same) made))

  create_volume_snapshot_class-IsFound :
      (driver version name : String) (w : World K)
      → (create_volume_snapshot_class K driver version w).0 ≡ ok name
      → IsFound driver version name
  unfolding create_volume_snapshot_class send pure
  create_volume_snapshot_class-IsFound driver version name w h =
      let (r, tried, h1) = >>=-eq-ok _ _ w name h in
      let (drawn, got, h2) = >>=-eq-ok _ _ _ name h1 in
      let (_, made, h3) = >>=-eq-ok _ _ _ name h2 in
      let same = ok-injective _ name h3 in renamed driver version name drawn _ same made

  create_class_or_explain-IsFound :
      (provisioner version name : String) (w : World K)
      → (create_class_or_explain K provisioner version w).0 ≡ ok name
      → IsFound provisioner version name
  unfolding create_class_or_explain attempt lift
  create_class_or_explain-IsFound provisioner version name w h =
      let (r, tried, h1) = >>=-eq-ok _ _ w name h in
      create_volume_snapshot_class-IsFound provisioner version name w
        (ok-injective _ r tried ∙ mapped _ r name h1)

  named_or_created :
      (provisioner version name n : String) (empty : Bool) (cs : List SnapshotClass) (s : K.State)
      (w : World K)
      → (K.list_snapshot_classes version s).0 ≡ ok cs
      → (n ≡ "") ⊎ Has provisioner n cs
      → (n == "") ≡ empty
      → ((if empty then create_class_or_explain K provisioner version else pure n) w).0 ≡ ok name
      → IsFound provisioner version name
  unfolding pure
  named_or_created provisioner version name n true cs s w listed has e h =
      create_class_or_explain-IsFound provisioner version name w h
  named_or_created provisioner version name n false cs s w listed (inl none) e h =
      cc (e, (eq_iff n "").1 none)
  named_or_created provisioner version name n false cs s w listed (inr has) e h =
      inl (s, (cs, listed, rw (← ok-injective n name h) has))

  use_choice-IsFound :
      (provisioner version name : String) (choice : Choice) (cs : List SnapshotClass) (s : K.State)
      (w : World K)
      → (K.list_snapshot_classes version s).0 ≡ ok cs
      → Chose provisioner "" cs choice
      → (use_choice K provisioner version choice w).0 ≡ ok name
      → IsFound provisioner version name
  unfolding use_choice pure
  use_choice-IsFound provisioner version name (default_class n) cs s w listed has h =
      inl (s, (cs, listed, rw (← ok-injective n name h) has))
  use_choice-IsFound provisioner version name (last_class n) cs s w listed has h =
      named_or_created provisioner version name n (n == "") cs s w listed has refl h

  check_and_create_snapshot_class-IsFound :
      (version provisioner name : String) (w : World K)
      → (check_and_create_snapshot_class K version provisioner w).0 ≡ ok name
      → IsFound provisioner version name
  unfolding check_and_create_snapshot_class ask
  check_and_create_snapshot_class-IsFound version provisioner name w h =
      let (cs, listed, h1) = >>=-eq-ok _ _ w name h in
      use_choice-IsFound provisioner version name _ cs w.cluster _ listed
        (choose_class-Chose provisioner "" cs) h1

  found_then_set :
      (r : Result String) (w : World K)
      → ((set_vol_snap_class K (elim r [ ok name ↦ name | err _ ↦ "" ]) >>= λ _.
            (lift r >>= λ _. pure tt))
          w).0
        ≡ ok tt
      → (name : String) × (r ≡ ok name)
        × (((set_vol_snap_class K (elim r [ ok name ↦ name | err _ ↦ "" ]) >>= λ _.
                (lift r >>= λ _. pure tt))
              w).1.vol_snap_class
            ≡ name)
  unfolding set_vol_snap_class ◌>>=◌ lift pure
  found_then_set (ok name) w h = (name, refl, refl)
  found_then_set (err e) w h = cc h

  pub find_class-IsFound :
      (provisioner version : String) (w : World K)
      → (find_class K provisioner version w).0 ≡ ok tt
      → IsFound provisioner version (find_class K provisioner version w).1.vol_snap_class
  unfolding find_class attempt ◌>>=◌
  find_class-IsFound provisioner version w h =
      let (name, went, set) =
        found_then_set (check_and_create_snapshot_class K version provisioner w).0
          (check_and_create_snapshot_class K version provisioner w).1 h in
      rw set (check_and_create_snapshot_class-IsFound version provisioner name w went)
