-- ===== src/Utils.antt =====
-- `GenerateRandomString` and `CheckIfAPIVersionKindAvailable` of internal/utils.go.
use tvk_plugins.Base.{
  ℕ, zero, suc, ◌<◌, String, ◌<>◌, ◌==◌, Bool, true, false, ◌||◌, eq_iff, if◌then◌else◌, ◌≡◌, refl,
  ap, List, [], ◌∷◌, ◌++◌, length, contains, All, arith,
}
use tvk_plugins.Action.{Result, ok, err, Action}
use tvk_plugins.Kube.{Gvk}
use tvk_plugins.Preflight.Suffix.{letters}
use tvk_plugins.Preflight.Suffix.Drawn.{concat}
use tvk_plugins.Program.{Outcome, done, panicked, Program, pure, lift, ◌>>=◌}

abbrev digits : List String
digits = "1" ∷ "2" ∷ "3" ∷ "4" ∷ "5" ∷ "6" ∷ "7" ∷ "8" ∷ "9" ∷ "0" ∷ []

-- `letterRunes`
abbrev pub runes : Bool → List String
runes is_only_alphabetic = if is_only_alphabetic then letters else letters ++ digits

-- `letterRunes[i]`
unfoldable pub rune_at : List String → ℕ → Outcome String
rune_at [] i = panicked
rune_at (r ∷ rs) zero = done r
rune_at (r ∷ rs) (suc i) = rune_at rs i

module _ {S : Type 0} (rand_int : ℕ → Action S ℕ) where
  -- The error of `Int` is dropped, and `Int64` of the nil beside it panics.
  abbrev or_panic : Result ℕ → Outcome ℕ
  or_panic (ok i) = done i
  or_panic (err e) = panicked

  unfoldable pub draw : ℕ → Program S ℕ
  draw n s = let (r, s') = rand_int n s in (or_panic r, s')

  -- The loop, over the places that are still to be filled.
  unfoldable pub fill : List String → ℕ → Program S String
  unfolding draw rune_at
  fill rs zero = pure ""
  fill rs (suc n) = do
    i ← draw (length rs)
    r ← lift (rune_at rs i)
    rest ← fill rs n
    pure (r <> rest)

  unfoldable pub generate_random_string : ℕ → Bool → Program S String
  unfolding fill
  generate_random_string n is_only_alphabetic = fill (runes is_only_alphabetic) n

  -- Where every draw answers with a number below its bound.
  abbrev pub IsUnfailing : Type 0
  IsUnfailing = (n : ℕ) (s : S) → (i : ℕ) × ((rand_int n s).0 ≡ ok i) × (i < n)

-- The kinds of the resources of a group version, by the text of the group version.
unfoldable pub is_kind_listed : String → Result (List String) → Bool
is_kind_listed kind (ok kinds) = contains kinds kind
is_kind_listed kind (err e) = false

module _ {S : Type 0} (server_resources : String → Action S (List String))
    (group_version : Gvk → String) where
  unfoldable pub check_if_api_version_kind_available : Gvk → S → Bool × S
  unfolding is_kind_listed
  check_if_api_version_kind_available gvk s =
      let (r, s') = server_resources (group_version gvk) s in (is_kind_listed gvk.kind r, s')

or_true : (b : Bool) → (b || true) ≡ true
or_true true = refl
or_true false = refl

rune_at-below :
    (rs : List String) (i : ℕ)
    → i < length rs
    → (r : String) × (rune_at rs i ≡ done r) × (contains rs r ≡ true)
unfolding rune_at
rune_at-below [] i below = ground arith
rune_at-below (r ∷ rs) zero below = (r, refl, rw ((eq_iff r r).1 refl) refl)
rune_at-below (r ∷ rs) (suc i) below =
    let (q, e, h) = rune_at-below rs i (omega arith) in (q, e, rw h (or_true (r == q)))

module _ {S : Type 0} (rand_int : ℕ → Action S ℕ) (unfailing : IsUnfailing rand_int) where
  -- The texts of this many characters out of a list of them.
  abbrev pub IsDrawn : List String → ℕ → Outcome String → Type 0
  IsDrawn rs n o =
      (qs : List String) × (o ≡ done (concat qs))
      × All (λ q. contains rs q ≡ true) qs
      × (length qs ≡ n)

  fill-IsDrawn : (rs : List String) (n : ℕ) (s : S) → IsDrawn rs n (fill rand_int rs n s).0
  unfolding fill draw ◌>>=◌ pure lift
  fill-IsDrawn rs zero s = ([], refl, tt, refl)
  fill-IsDrawn rs (suc n) s =
      let (i, drawn, below) = unfailing (length rs) s in
      let (r, at, found) = rune_at-below rs i below in
      let (qs, e, good, counted) = fill-IsDrawn rs n (rand_int (length rs) s).1 in
      rw (drawn, at, e) (r ∷ qs, refl, (found, good), ap suc counted)

  -- Where no draw fails, a random string is of the wanted length, and of letters or letters and digits as
  -- wanted.
  pub generate_random_string-IsDrawn :
      (n : ℕ) (is_only_alphabetic : Bool) (s : S)
      → IsDrawn
          (runes is_only_alphabetic)
          n
          (generate_random_string rand_int n is_only_alphabetic s).0
  unfolding generate_random_string
  generate_random_string-IsDrawn n is_only_alphabetic s =
      fill-IsDrawn (runes is_only_alphabetic) n s
