-- ===== src/Action/Keeps.antt =====
-- Invariants of actions: `m` keeps `P`, whether it returns a value or an error. One rule for each
-- way to build an action.
use tvk_plugins.Base.{◌≡◌, refl, Bool, true, false, if◌then◌else◌}
use tvk_plugins.Action.{Error, Result, ok, err, Action, pure, raise, lift, attempt, ◌>>=◌}

pub record Keeps {ℓ} {W A : Type ℓ} (P : W → Type ℓ) (m : Action W A) : Type ℓ where
  pub after : (w : W) → P w → P (m w).1

module _ {ℓ} {W A : Type ℓ} {P : W → Type ℓ} where
  pub Keeps-pure : (a : A) → Keeps P (pure a)
  unfolding pure
  Keeps-pure a = record { after = λ w h. h }

  pub Keeps-raise : (e : Error) → Keeps P (raise {A = A} e)
  unfolding raise
  Keeps-raise e = record { after = λ w h. h }

  pub Keeps-lift : (r : Result A) → Keeps P (lift r)
  unfolding lift
  Keeps-lift r = record { after = λ w h. h }

  pub Keeps-attempt : (m : Action W A) → Keeps P m → Keeps P (attempt m)
  unfolding attempt
  Keeps-attempt m k = record { after = λ w h. k.after w h }

  pub Keeps-if :
      (b : Bool) (m n : Action W A) → Keeps P m → Keeps P n → Keeps P (if b then m else n)
  Keeps-if true m n km kn = km
  Keeps-if false m n km kn = kn

  pub Keeps-unless :
      (b : Bool) (m n : Action W A)
      → Keeps P m
      → (b ≡ false → Keeps P n)
      → Keeps P (if b then m else n)
  Keeps-unless true m n km kn = km
  Keeps-unless false m n km kn = kn refl

module _ {ℓ} {W A B : Type ℓ} {P : W → Type ℓ} where
  Keeps-continue :
      (r : Result A) (f : A → Action W B)
      → ((a : A) → r ≡ ok a → Keeps P (f a))
      → (w : W) → P w
      → P ((lift r >>= f) w).1
  unfolding ◌>>=◌
  Keeps-continue (ok a) f kf w h = (kf a refl).after w h
  Keeps-continue (err e) f kf w h = h

  -- The rest of a block may use what the action has returned.
  pub Keeps-bind-known :
      (m : Action W A) (f : A → Action W B)
      → Keeps P m
      → ((a : A) (w : W) → (m w).0 ≡ ok a → Keeps P (f a))
      → Keeps P (m >>= f)
  unfolding ◌>>=◌
  Keeps-bind-known m f km kf = record {
    after = λ w h. Keeps-continue (m w).0 f (λ a. kf a w) (m w).1 (km.after w h);
  }

  -- What holds after the first action, and is kept by the rest, holds in the end.
  pub Keeps-after :
      (m : Action W A) (f : A → Action W B) (w : W)
      → P (m w).1
      → ((a : A) → Keeps P (f a))
      → P ((m >>= f) w).1
  unfolding ◌>>=◌
  Keeps-after m f w h kf = Keeps-continue (m w).0 f (λ a _. kf a) (m w).1 h

  pub Keeps-bind :
      (m : Action W A) (f : A → Action W B)
      → Keeps P m
      → ((a : A) → Keeps P (f a))
      → Keeps P (m >>= f)
  Keeps-bind m f km kf = Keeps-bind-known m f km (λ a _ _. kf a)

-- A split on the answer of an attempt.
pub Keeps-cases {ℓ} :
    {W A B : Type ℓ} {P : W → Type ℓ} (r : Result A) (f : A → Action W B) (g : Error → Action W B)
    → ((a : A) → Keeps P (f a))
    → ((e : Error) → Keeps P (g e))
    → Keeps P (elim r [ ok a ↦ f a | err e ↦ g e ])
Keeps-cases (ok a) f g kf kg = kf a
Keeps-cases (err e) f g kf kg = kg e

pub ruleset keeps_rules = (Keeps-pure, Keeps-raise, Keeps-lift, Keeps-attempt, Keeps-if, Keeps-bind)
