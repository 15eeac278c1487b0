-- ===== src/Cmd/Process.antt =====
-- A command of one of the plugins as a program on two states: the machine, and what it acts on.
use tvk_plugins.Base.{◌≡◌, refl, ◌≢◌, ◌⊎◌, inl, inr}
use tvk_plugins.Action.{Action}
use tvk_plugins.Program.{
  Outcome, Program, done, failed, exited, panicked, of_result, status, or_exit, ◌>>=◌,
  fatal-eq-done,
}
use tvk_plugins.Machine.{Machine}

pub record Process (M : Machine) (W : Type 0) : Type 0 where
  pub machine : M.State
  pub world : W

module _ {M : Machine} {W A : Type 0} where
  unfoldable pub on_machine : Program M.State A → Program (Process M W) A
  on_machine m p = let (o, s) = m p.machine in (o, record p { machine = s })

  unfoldable pub on_world : Action W A → Program (Process M W) A
  on_world m p = let (r, w) = m p.world in (of_result r, record p { world = w })

-- Either the process has ended with a status other than 0 and has left the world alone, or it has
-- come to where `Goal` holds.
module _ {M : Machine} {W : Type 0} (Goal : Outcome (Unit {0}) × Process M W → Type 0)
    (before : W) where
  abbrev pub Ends : Outcome (Unit {0}) × Process M W → Type 0
  Ends r = ((status r.0 ≢ 0) × (r.1.world ≡ before)) ⊎ Goal r

  module _ {A : Type 0} (f : A → Program (Process M W) (Unit {0})) where
    continues :
        (o : Outcome A) (p : Process M W)
        → p.world ≡ before
        → ((a : A) → o ≡ done a → Ends (f a p))
        → Ends (((λ q. (o, q)) >>= f) p)
    unfolding ◌>>=◌
    continues (done a) p h k = k a refl
    continues (failed e) p h k = inl (λ e. cc e, h)
    continues exited p h k = inl (λ e. cc e, h)
    continues panicked p h k = inl (λ e. cc e, h)

    -- A step on the machine, and what comes after it where it is done.
    pub on_machine-Ends :
        (m : Program M.State A) (p : Process M W)
        → p.world ≡ before
        → ((a : A) → (m p.machine).0 ≡ done a → Ends (f a (record p { machine = (m p.machine).1 })))
        → Ends ((on_machine m >>= f) p)
    unfolding on_machine ◌>>=◌
    on_machine-Ends m p h k = continues (m p.machine).0 (record p { machine = (m p.machine).1 }) h k

-- What `log.Fatal` lets pass.
pub or_exit-eq-done :
    {W A : Type 0} (m : Program W A) (w : W) (a : A) → (or_exit m w).0 ≡ done a → (m w).0 ≡ done a
unfolding or_exit
or_exit-eq-done m w a h = fatal-eq-done (m w).0 a h

-- A command that prepares itself on the machine, and only then acts on the world.
module _ (M : Machine) {W B : Type 0} (act : B → Action W (Unit {0})) (before : W) where
  -- How it ends, from the end of the preparation.
  abbrev pub after_preparing : Outcome B × M.State → Outcome (Unit {0}) × Process M W
  after_preparing (done b, s) =
      (of_result (act b before).0, record { machine = s; world = (act b before).1 })
  after_preparing (failed e, s) = (failed e, record { machine = s; world = before })
  after_preparing (exited, s) = (exited, record { machine = s; world = before })
  after_preparing (panicked, s) = (panicked, record { machine = s; world = before })

  module _ {A : Type 0} (f : A → Program (Process M W) (Unit {0})) (g : A → Program M.State B)
      (same : (a : A) (t : M.State)
        → f a (record { machine = t; world = before }) ≡ after_preparing (g a t)) where
    -- A step of the preparation is one of the command.
    step-after_preparing :
        (o : Outcome A) (t : M.State)
        → ((λ (p : Process M W). (o, record p { machine = t })) >>= f)
            (record { machine = t; world = before })
          ≡ after_preparing (((λ (s : M.State). (o, t)) >>= g) t)
    unfolding ◌>>=◌
    step-after_preparing (done a) t = same a t
    step-after_preparing (failed e) t = refl
    step-after_preparing exited t = refl
    step-after_preparing panicked t = refl

    pub on_machine-after_preparing :
        (m : Program M.State A) (s : M.State)
        → (on_machine m >>= f) (record { machine = s; world = before })
          ≡ after_preparing ((m >>= g) s)
    unfolding on_machine ◌>>=◌
    on_machine-after_preparing m s = step-after_preparing (m s).0 (m s).1

  -- Either the preparation is not done, and the command ends with a status other than 0 and leaves the
  -- world alone, or it is done, and the command ends as its act does, which is all that happens.
  abbrev pub Splits : Outcome B × M.State → Outcome (Unit {0}) × Process M W → Type 0
  Splits o r =
      (((b : B) → o.0 ≢ done b) × (status r.0 ≢ 0) × (r.1.world ≡ before))
      ⊎ ((b : B) × (o.0 ≡ done b)
          × (r.0 ≡ of_result (act b before).0)
          × (r.1.world ≡ (act b before).1))

  pub after_preparing-Splits :
      (o : Outcome B) (s : M.State) → Splits (o, s) (after_preparing (o, s))
  after_preparing-Splits (done b) s = inr (b, refl, refl, refl)
  after_preparing-Splits (failed e) s = inl ((λ b h. cc h), (λ h. cc h), refl)
  after_preparing-Splits exited s = inl ((λ b h. cc h), (λ h. cc h), refl)
  after_preparing-Splits panicked s = inl ((λ b h. cc h), (λ h. cc h), refl)
