-- ===== src/Preflight/Run/Judges.antt =====
-- Actions that return a verdict and report it, and how they compose.
use tvk_plugins.Base.{
  Bool, true, false, ◌≡◌, refl, ap, ◌∙◌, Option, none, some, List, [], ◌∷◌, ◌++◌, append-nil,
  append_assoc, sym, if◌then◌else◌,
}
use tvk_plugins.Action.{Result, ok, err, is_ok, Action, pure, ◌>>=◌, ok->>=}
use tvk_plugins.Action.Keeps.{Keeps}
use tvk_plugins.Kube.{
  Externals, Check, kubectl, access, helm, kubernetes_version, rbac, snapshot_crds,
  snapshot_class_found, pod_capability, storage_snapshot_class, dns, namespace_permissions,
  cluster_volume, namespace_volume, Cluster, World, ask, send,
}
use tvk_plugins.Preflight.Run.{judged, judged_value}

abbrev pub is_some {ℓ} : {A : Type ℓ} → Option A → Bool
is_some none = false
is_some (some _) = true

-- The action returns `a` and reports `vs`.
pub record Adds {X : Externals} {K : Cluster X} {A : Type 0} (m : Action (World K) A) (a : A)
    (vs : List (Check × Bool)) (w : World K) : Type 0 where
  pub returned : (m w).0 ≡ ok a
  pub reported : (m w).1.report ≡ w.report ++ vs

-- From every world the action returns `value v` and reports `shape v`, for some `v`.
pub record Judges {X : Externals} {K : Cluster X} {A V : Type 0} (m : Action (World K) A)
    (value : V → A) (shape : V → List (Check × Bool)) : Type 0 where
  pub judges : (w : World K) → (v : V) × Adds m (value v) (shape v) w

is_ok-is_some :
    {A : Type 0} → (r : Result A) → is_ok r ≡ is_some (elim r [ ok a ↦ some a | err _ ↦ none ])
is_ok-is_some (ok a) = refl
is_ok-is_some (err e) = refl

module _ {X : Externals} {K : Cluster X} where
  -- A check reports nothing by itself.
  abbrev pub Quiet : {A : Type 0} → Action (World K) A → Type 0
  Quiet m = (r : List (Check × Bool)) → Keeps (λ (w : World K). w.report ≡ r) m

  pub Judges-bind :
      {A B V U : Type 0} (m : Action (World K) A) (f : A → Action (World K) B) (value : V → A)
      (shape : V → List (Check × Bool)) (value' : V → U → B) (shape' : V → U → List (Check × Bool))
      → Judges m value shape
      → ((v : V) → Judges (f (value v)) (value' v) (shape' v))
      → Judges {V = V × U} (m >>= f) (λ p. value' p.0 p.1) (λ p. shape p.0 ++ shape' p.0 p.1)
  Judges-bind {B = B} m f value shape value' shape' hm hf = record {
    judges = λ w.
        let (v, first) = hm.judges w in
        let (u, rest) = (hf v).judges (m w).1 in
        let step = ok->>= m f w (value v) first.returned in
        (
          (v, u),
          record {
            returned = ap (λ (p : Result B × World K). p.0) step ∙ rest.returned;
            reported =
                ap (λ (p : Result B × World K). p.1.report) step
                ∙ rest.reported
                ∙ ap (λ (r : List (Check × Bool)). r ++ shape' v u) first.reported
                ∙ append_assoc w.report (shape v) (shape' v u);
          },
        );
  }

  pub Judges-const :
      {A V : Type 0} → (v : V) (a : A) → Judges {K = K} {V = V} (pure a) (λ _. a) (λ _. [])
  unfolding pure
  Judges-const v a = record {
    judges = λ w. (v, record { returned = refl; reported = sym (append-nil w.report) });
  }

  pub Judges-if :
      {A V : Type 0} {m n : Action (World K) A} {value value' : V → A}
      {shape shape' : V → List (Check × Bool)}
      → (b : Bool) → Judges m value shape
      → Judges n value' shape'
      → Judges
          (if b then m else n)
          (λ v. if b then value v else value' v)
          (λ v. if b then shape v else shape' v)
  Judges-if true hm hn = hm
  Judges-if false hm hn = hn

  pub judged-Judges :
      {A : Type 0}
      → (c : Check) (m : Action (World K) A) → Quiet m
      → Judges {V = Bool} (judged K c m) (λ b. b) (λ b. (c, b) ∷ [])
  unfolding judged ◌>>=◌ pure tvk_plugins.Action.attempt tvk_plugins.Kube.verdict
  judged-Judges c m quiet = record {
    judges = λ w. (
      is_ok (m w).0,
      record {
        returned = refl;
        reported =
            ap (λ (r : List (Check × Bool)). r ++ ((c, is_ok (m w).0) ∷ []))
              ((quiet w.report).after w refl);
      },
    );
  }

  pub judged_value-Judges :
      {A : Type 0}
      → (c : Check) (m : Action (World K) A) → Quiet m
      → Judges {V = Option A} (judged_value K c m) (λ v. v) (λ v. (c, is_some v) ∷ [])
  unfolding judged_value ◌>>=◌ pure tvk_plugins.Action.attempt tvk_plugins.Kube.verdict
  judged_value-Judges c m quiet = record {
    judges = λ w. (
      elim (m w).0 [ ok a ↦ some a | err _ ↦ none ],
      record {
        returned = refl;
        reported =
            ap (λ (r : List (Check × Bool)). r ++ ((c, is_ok (m w).0) ∷ []))
              ((quiet w.report).after w refl)
            ∙ ap (λ (b : Bool). w.report ++ ((c, b) ∷ [])) (is_ok-is_some (m w).0);
      },
    );
  }
