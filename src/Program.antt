-- ===== src/Program.antt =====
-- Code that can end the process: beside a value or an error there is the exit by `log.Fatal` or
-- `os.Exit`, and a panic. A program takes the state to one of these and the state after.
use tvk_plugins.Base.{◌≡◌, refl, ℕ}
use tvk_plugins.Action.{Error, Result, ok, err, Action}

pub data Outcome {ℓ} (A : Type ℓ) : Type ℓ where
  done : A → Outcome A
  failed : Error → Outcome A
  exited : Outcome A
  panicked : Outcome A

abbrev pub Program {ℓ} : Type ℓ → Type ℓ → Type ℓ
Program W A = W → Outcome A × W

abbrev pub of_result {ℓ} : {A : Type ℓ} → Result A → Outcome A
of_result (ok a) = done a
of_result (err e) = failed e

-- An error that is given to `log.Fatal`.
abbrev pub fatal {ℓ} : {A : Type ℓ} → Outcome A → Outcome A
fatal (failed e) = exited
fatal o = o

-- `rootCmd.Execute` of `main`: an error of the command is given to `log.Fatal` too, which exits with
-- status 1; a panic has status 2.
abbrev pub status {ℓ} : {A : Type ℓ} → Outcome A → ℕ
status (done a) = 0
status (failed e) = 1
status exited = 1
status panicked = 2

module _ {ℓ} {W A : Type ℓ} where
  unfoldable pub pure : A → Program W A
  pure a w = (done a, w)

  unfoldable pub fail : Error → Program W A
  fail e w = (failed e, w)

  unfoldable pub lift : Outcome A → Program W A
  lift o w = (o, w)

  unfoldable pub of_action : Action W A → Program W A
  of_action m w = let (r, w') = m w in (of_result r, w')

  unfoldable pub or_exit : Program W A → Program W A
  or_exit m w = let (o, w') = m w in (fatal o, w')

  unfoldable pub attempt : Action W A → Program W (Result A)
  attempt m w = let (r, w') = m w in (done r, w')

module _ {ℓ} {W A B : Type ℓ} where
  abbrev continue : Outcome A → (A → Program W B) → Program W B
  continue (done a) f w = f a w
  continue (failed e) f w = (failed e, w)
  continue exited f w = (exited, w)
  continue panicked f w = (panicked, w)

  infixl 10 ◌>>=◌ ◌>>◌
  unfoldable pub ◌>>=◌ : Program W A → (A → Program W B) → Program W B
  unfolding pure fail lift of_action or_exit attempt
  ◌>>=◌ m f w = let (o, w') = m w in continue o f w'

  abbrev pub ◌>>◌ : Program W A → Program W B → Program W B
  m >> n = m >>= λ _. n

-- A block is done exactly when its first program is, and then the rest.
module _ {ℓ} {W A B : Type ℓ} (m : Program W A) (f : A → Program W B) (w : W) where
  continue-eq-done :
      (o : Outcome A) (v : W) (b : B)
      → (continue o f v).0 ≡ done b
      → (a : A) × (o ≡ done a) × ((f a v).0 ≡ done b)
  continue-eq-done (done a) v b h = (a, refl, h)
  continue-eq-done (failed e) v b h = cc
  continue-eq-done exited v b h = cc
  continue-eq-done panicked v b h = cc

  pub >>=-eq-done :
      (b : B) → ((m >>= f) w).0 ≡ done b → (a : A) × ((m w).0 ≡ done a) × ((f a (m w).1).0 ≡ done b)
  unfolding ◌>>=◌
  >>=-eq-done b h = continue-eq-done (m w).0 (m w).1 b h

module _ {ℓ} {A : Type ℓ} where
  pub of_result-eq-done : (r : Result A) (a : A) → of_result r ≡ done a → r ≡ ok a
  of_result-eq-done (ok b) a h = cc
  of_result-eq-done (err e) a h = cc h

  pub done-injective : (a b : A) → done a ≡ done b → a ≡ b
  done-injective a b h = cc

  pub fatal-eq-done : (o : Outcome A) (a : A) → fatal o ≡ done a → o ≡ done a
  fatal-eq-done (done b) a h = h
  fatal-eq-done (failed e) a h = cc h
  fatal-eq-done exited a h = cc h
  fatal-eq-done panicked a h = cc h
