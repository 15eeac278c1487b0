-- ===== src/Preflight/Checks/Groups.antt =====
-- What the loops over the API groups find: `validateKubernetesRBAC` and
-- `GetServerPreferredVersionForGroup` of tools/preflight.
use tvk_plugins.Base.{
  String, ◌&&◌, ◌==◌, eq_iff, ◌≡◌, refl, ◌↔◌, ◌⊎◌, inl, inr, List, [], ◌∷◌, Any, if◌then◌else◌,
  arith,
}
use tvk_plugins.Action.{Error, Result, ok, err}
use tvk_plugins.Preflight.Checks.{rbac_loop}

module _ (parse : String → Result (String × String)) (group version : String) where
  -- The text of a group version ends the loop with success: it is the wanted one, or it does not
  -- parse.
  abbrev pub IsEnough : String → Type 0
  IsEnough v = (parse v ≡ ok (group, version)) ⊎ ((e : Error) × (parse v ≡ err e))

  step :
      (r : Result (String × String)) (rest : Result (Unit {0})) (Q : Type 0)
      → (rest ≡ ok tt) ↔ Q
      → (elim r [ err _ ↦ ok tt | ok (g, w) ↦ if g == group && w == version then ok tt else rest ]
          ≡ ok tt)
        ↔ (((r ≡ ok (group, version)) ⊎ ((e : Error) × (r ≡ err e))) ⊎ Q)
  step (err e) rest Q h = (λ _. inl (inr (e, refl)), λ _. refl)
  step (ok (g, w)) rest Q h = ground (arith, eq_iff g group, eq_iff w version)

  -- The check of RBAC succeeds exactly when some group version of the server is the wanted one or
  -- does not parse.
  pub rbac_loop-eq-ok :
      (vs : List String) → (rbac_loop parse group version vs ≡ ok tt) ↔ Any IsEnough vs
  unfolding rbac_loop
  rbac_loop-eq-ok [] = (λ h. cc, λ h. elim h [ ])
  rbac_loop-eq-ok (v ∷ vs) =
      step (parse v) (rbac_loop parse group version vs) _ (rbac_loop-eq-ok vs)
