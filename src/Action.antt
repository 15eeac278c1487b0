-- ===== src/Action.antt =====
-- Go functions that return `(T, error)` and act on the world: an action takes the world to a
-- value or an error and the world after. What was done before an error stays done.
pub mod Keeps
use tvk_plugins.Base.{String, ◌≡◌, refl, Bool, true, false}

-- The reasons of an API server's status error that the code asks for.
pub data Reason : Type 0 where
  not_found forbidden unauthorized other : Reason

-- A Go error value. `fmt.Errorf("... %s", err.Error())` makes a `failure`: the reason is lost.
pub data Error : Type 0 where
  api : Reason → String → Error
  discovery : String → Error
  interrupted : String → Error
  failure : String → Error

-- `err.Error()`
unfoldable pub message : Error → String
message (api _ s) = s
message (discovery s) = s
message (interrupted s) = s
message (failure s) = s

-- `k8serrors.IsNotFound`, `IsForbidden` and `IsUnauthorized`, `IsGroupDiscoveryFailedError`,
-- `wait.Interrupted`
abbrev pub is_not_found : Error → Bool
is_not_found (api not_found _) = true
is_not_found _ = false

abbrev pub is_forbidden : Error → Bool
is_forbidden (api forbidden _) = true
is_forbidden _ = false

abbrev pub is_unauthorized : Error → Bool
is_unauthorized (api unauthorized _) = true
is_unauthorized _ = false

abbrev pub is_discovery_failed : Error → Bool
is_discovery_failed (discovery _) = true
is_discovery_failed _ = false

abbrev pub is_interrupted : Error → Bool
is_interrupted (interrupted _) = true
is_interrupted _ = false

pub data Result {ℓ} (A : Type ℓ) : Type ℓ where
  ok : A → Result A
  err : Error → Result A

abbrev pub is_ok {ℓ} : {A : Type ℓ} → Result A → Bool
is_ok (ok _) = true
is_ok (err _) = false

abbrev pub Action {ℓ} : Type ℓ → Type ℓ → Type ℓ
Action W A = W → Result A × W

module _ {ℓ} {W A : Type ℓ} where
  unfoldable pub pure : A → Action W A
  pure a w = (ok a, w)

  unfoldable pub raise : Error → Action W A
  raise e w = (err e, w)

  unfoldable pub lift : Result A → Action W A
  lift r w = (r, w)

  -- The call's error is a value that the caller looks at.
  unfoldable pub attempt : Action W A → Action W (Result A)
  attempt m w = let (r, w') = m w in (ok r, w')

module _ {ℓ} {W A B : Type ℓ} where
  abbrev continue : Result A → (A → Action W B) → Action W B
  continue (ok a) f w = f a w
  continue (err e) f w = (err e, w)

  infixl 10 ◌>>=◌ ◌>>◌
  unfoldable pub ◌>>=◌ : Action W A → (A → Action W B) → Action W B
  unfolding pure raise lift attempt
  ◌>>=◌ m f w = let (r, w') = m w in continue r f w'

  abbrev pub ◌>>◌ : Action W A → Action W B → Action W B
  m >> n = m >>= λ _. n

pub ok-injective {ℓ} : {A : Type ℓ} (a b : A) → ok a ≡ ok b → a ≡ b
ok-injective a b h = cc

-- A block succeeds exactly when its first action does, and then the rest.
module _ {ℓ} {W A B : Type ℓ} (m : Action W A) (f : A → Action W B) (w : W) where
  continue-eq-ok :
      (r : Result A) (v : W) (b : B)
      → (continue r f v).0 ≡ ok b
      → (a : A) × (r ≡ ok a) × ((f a v).0 ≡ ok b)
  continue-eq-ok (ok a) v b h = (a, refl, h)
  continue-eq-ok (err e) v b h = cc

  pub >>=-eq-ok :
      (b : B) → ((m >>= f) w).0 ≡ ok b → (a : A) × ((m w).0 ≡ ok a) × ((f a (m w).1).0 ≡ ok b)
  unfolding ◌>>=◌
  >>=-eq-ok b h = continue-eq-ok (m w).0 (m w).1 b h

  pub ok->>= : (a : A) → (m w).0 ≡ ok a → ((m >>= f) w) ≡ f a (m w).1
  unfolding ◌>>=◌
  ok->>= a h = rw h
