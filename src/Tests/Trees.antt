-- ===== src/Tests/Trees.antt =====
-- Objects as lists of paths, and a machine that answers from fixed values, for the tests.
use tvk_plugins.Base.{
  String, Bool, true, false, not, ◌&&◌, ◌||◌, ◌==◌, ◌≡◌, refl, ap, ◌∙◌, Option, none, some, List,
  [], ◌∷◌, ◌++◌, map, if◌then◌else◌, eq_refl, Bool-cases, inl, inr,
}
use tvk_plugins.Action.{Result, ok}
use tvk_plugins.Collector.Host.{Objects}
use tvk_plugins.Collector.Redaction.Redacted.{IsTree}

pub record PathMap : Type 0 where
  pub kind : String
  pub name : String
  pub namespace : String
  pub paths : List (List String)

abbrev is_prefix : List String → List String → Bool
is_prefix [] path = true
is_prefix (f ∷ fs) [] = false
is_prefix (f ∷ fs) (g ∷ gs) = g == f && is_prefix fs gs

abbrev any : {A : Type 0} → (A → Bool) → List A → Bool
any p [] = false
any p (x ∷ xs) = p x || any p xs

abbrev filter : {A : Type 0} → (A → Bool) → List A → List A
filter p [] = []
filter p (x ∷ xs) = if p x then x ∷ filter p xs else filter p xs

abbrev under : String → List (List String) → List (List String)
under f [] = []
under f ([] ∷ ps) = under f ps
under f ((g ∷ gs) ∷ ps) = if g == f then gs ∷ under f ps else under f ps

abbrev has_path : List String → PathMap → Bool
has_path fs m = any (is_prefix fs) m.paths

abbrev remove_path : List String → PathMap → PathMap
remove_path fs m = record m { paths = filter (λ p. not (is_prefix fs p)) m.paths }

abbrev below : String → PathMap → PathMap
below f m = record m { paths = under f m.paths }

abbrev map_at : List String → PathMap → Result (Option PathMap)
map_at (f ∷ []) m = if has_path (f ∷ []) m then ok (some (below f m)) else ok none
map_at fs m = ok none

abbrev set_at : PathMap → List String → PathMap → PathMap
set_at v (f ∷ []) m = record m {
  paths = (remove_path (f ∷ []) m).paths ++ map (λ p. f ∷ p) v.paths;
}
set_at v fs m = m

abbrev pub path_objects : Objects
path_objects = record {
  Map = PathMap;
  Value = PathMap;
  kind = λ m. m.kind;
  name = λ m. m.name;
  namespace = λ m. m.namespace;
  labels = λ m. [];
  annotations = λ m. [];
  set_annotations = λ a m. m;
  owner_references = λ m. [];
  nested_string = λ fs m. ok none;
  nested_map = map_at;
  nested_slice = λ fs m. ok none;
  as_map = λ v. some v;
  remove_nested_field = remove_path;
  set_nested_map = set_at;
  requirement_matches = λ r d. some true;
}

set_at-kind : (v : PathMap) (fs : List String) (m : PathMap) → (set_at v fs m).kind ≡ m.kind
set_at-kind v [] m = refl
set_at-kind v (f ∷ []) m = refl
set_at-kind v (f ∷ g ∷ fs) m = refl

none_left : {A : Type 0} (p : A → Bool) (xs : List A) → any p (filter (λ x. not (p x)) xs) ≡ false
none_left p [] = refl
none_left p (x ∷ xs) = elim (Bool-cases (p x)) [
  | inl h ↦ rw (h) (none_left p xs)
  | inr h ↦ rw (h, h) (none_left p xs)
]

stays_out :
    {A : Type 0} (p q : A → Bool) (xs : List A) → any q xs ≡ false → any q (filter p xs) ≡ false
stays_out p q [] h = refl
stays_out p q (x ∷ xs) h = kept (stays_out p q xs) (p x) (q x) refl h
  where
    kept :
        (any q xs ≡ false → any q (filter p xs) ≡ false)
        → (b c : Bool) → q x ≡ c
        → (c || any q xs) ≡ false
        → any q (if b then x ∷ filter p xs else filter p xs) ≡ false
    kept rest b true e k = cc k
    kept rest true false e k = rw (e) (rest k)
    kept rest false false e k = rest k

any-append :
    {A : Type 0} (p : A → Bool) (xs ys : List A) → any p (xs ++ ys) ≡ (any p xs || any p ys)
any-append p [] ys = refl
any-append p (x ∷ xs) ys = both (any-append p xs ys) (p x)
  where
    both :
        any p (xs ++ ys) ≡ (any p xs || any p ys)
        → (b : Bool) → (b || any p (xs ++ ys)) ≡ ((b || any p xs) || any p ys)
    both rest true = refl
    both rest false = rest

-- What begins with `f` and more is gone with what begins with `f`.
none_below :
    (f g : String) (gs : List String) (ps : List (List String))
    → any (is_prefix (f ∷ g ∷ gs)) (filter (λ p. not (is_prefix (f ∷ []) p)) ps) ≡ false
none_below f g gs [] = refl
none_below f g gs ([] ∷ ps) = none_below f g gs ps
none_below f g gs ((h ∷ hs) ∷ ps) = elim (Bool-cases (h == f)) [
  | inl e ↦ rw (e) (none_below f g gs ps)
  | inr e ↦ rw (e, e) (none_below f g gs ps)
]

any-under :
    (f : String) (fs : List String) (ps : List (List String))
    → any (is_prefix fs) (under f ps) ≡ any (is_prefix (f ∷ fs)) ps
any-under f fs [] = refl
any-under f fs ([] ∷ ps) = any-under f fs ps
any-under f fs ((h ∷ hs) ∷ ps) = elim (Bool-cases (h == f)) [
  | inl e ↦ rw (e) (ap (λ b. is_prefix fs hs || b) (any-under f fs ps))
  | inr e ↦ rw (e) (any-under f fs ps)
]

any-map :
    (f : String) (fs : List String) (ps : List (List String))
    → any (is_prefix (f ∷ fs)) (map (λ p. f ∷ p) ps) ≡ any (is_prefix fs) ps
any-map f fs [] = refl
any-map f fs (p ∷ ps) = rw (eq_refl f) (ap (λ b. is_prefix fs p || b) (any-map f fs ps))

longer :
    (f g : String) (gs : List String) (ps : List (List String))
    → any (is_prefix (f ∷ g ∷ gs)) ps ≡ true
    → any (is_prefix (f ∷ [])) ps ≡ true
longer f g gs [] h = h
longer f g gs ([] ∷ ps) h = longer f g gs ps h
longer f g gs ((k ∷ ks) ∷ ps) h = shorter (longer f g gs ps) (k == f) h
  where
    shorter :
        (any (is_prefix (f ∷ g ∷ gs)) ps ≡ true → any (is_prefix (f ∷ [])) ps ≡ true)
        → (b : Bool) → ((b && is_prefix (g ∷ gs) ks) || any (is_prefix (f ∷ g ∷ gs)) ps) ≡ true
        → ((b && true) || any (is_prefix (f ∷ [])) ps) ≡ true
    shorter rest true e = refl
    shorter rest false e = rest e

pub path_objects-IsTree : IsTree path_objects
path_objects-IsTree = record {
  has = has_path;
  has-remove_self = λ fs m. none_left (is_prefix fs) m.paths;
  has-remove = λ fs gs m h. stays_out _ (is_prefix gs) m.paths h;
  has-set = λ f g gs v m.
      any-append (is_prefix (f ∷ g ∷ gs)) (filter (λ p. not (is_prefix (f ∷ []) p)) m.paths)
        (map (λ p. f ∷ p) v.paths)
      ∙ ap (λ b. b || any (is_prefix (f ∷ g ∷ gs)) (map (λ p. f ∷ p) v.paths))
          (none_below f g gs m.paths)
      ∙ any-map f (g ∷ gs) v.paths;
  has-set_annotations = λ gs a m. refl;
  has-below = λ f g gs m h. (
    below f m,
    ap (λ b. if b then ok (some (below f m)) else ok none) (longer f g gs m.paths h),
    any-under f (g ∷ gs) m.paths ∙ h,
  );
  kind-remove = λ f fs m h. refl;
  kind-set = λ f fs v m h. set_at-kind v (f ∷ fs) m;
  kind-set_annotations = λ a m. refl;
}
