-- ===== src/Collector/Gather/Run/Claims.antt =====
-- How often the claims of pods are read, and which of them.
use mathlib.Core.Path.{subst}
use tvk_plugins.Base.{
  String, ◌<>◌, ◌≡◌, refl, sym, true, false, ◌||◌, Bool, List, [], ◌∷◌, map, All, Bool-cases, ◌⊎◌,
  inl, inr, eq_iff,
}
use tvk_plugins.Action.{Error, Result, ok, err, Action, pure, attempt, ◌>>=◌, ok->>=}
use tvk_plugins.Collector.Host.{Objects, Host, NamespacedName, Session, ask}
use tvk_plugins.Collector.Filters.{Options, resource_path, has_name, same_name}
use tvk_plugins.Collector.Gather.Run.{get_pvcs, is_collected_pvc, mark_collected}

abbrev pub path_of : NamespacedName → String
path_of n =
    resource_path "v1" <> "/namespaces/" <> n.namespace <> "/persistentvolumeclaims/" <> n.name

-- The marks after these claims were marked one after the other.
abbrev pub marked :
    {A : Type 0} → List (NamespacedName × A) → List NamespacedName → List NamespacedName
marked [] seen = seen
marked ((n, a) ∷ xs) seen = marked xs (n ∷ seen)

-- Each name is new where it is marked.
abbrev pub IsNew : {A : Type 0} → List (NamespacedName × A) → List NamespacedName → Type 0
IsNew [] seen = Unit
IsNew ((n, a) ∷ xs) seen = (has_name n seen ≡ false) × IsNew xs (n ∷ seen)

still :
    (n m : NamespacedName) (seen : List NamespacedName)
    → has_name n seen ≡ true
    → has_name n (m ∷ seen) ≡ true
still n m seen h = rw h (or_true (same_name m n))
  where
    or_true : (b : Bool) → (b || true) ≡ true
    or_true true = refl
    or_true false = refl

stays :
    {A : Type 0} (n : NamespacedName) (xs : List (NamespacedName × A)) (seen : List NamespacedName)
    → has_name n seen ≡ true
    → has_name n (marked xs seen) ≡ true
stays n [] seen h = h
stays n ((m, a) ∷ xs) seen h = stays n xs (m ∷ seen) (still n m seen h)

has_itself : (n : NamespacedName) (seen : List NamespacedName) → has_name n (n ∷ seen) ≡ true
has_itself n seen = rw ((eq_iff n.namespace n.namespace).1 refl, (eq_iff n.name n.name).1 refl) refl

module _ {O : Objects} (H : Host O) (l : Options) where
  -- At some moment the claim of the name was answered with the object.
  abbrev pub WasAnswered : NamespacedName × O.Map → Type 0
  WasAnswered (n, m) = (s : H.State) × ((H.get_object (path_of n) s).0 ≡ ok m)

  abbrev pub WasRefused : NamespacedName → Type 0
  WasRefused n = (s : H.State) × ((e : Error) × ((H.get_object (path_of n) s).0 ≡ err e))

  -- How a round over the claims of `ns` ends that begins in `w`: without an error, with the claims that
  -- were answered; these are marked, each was new, and each claim of `ns` is marked in the end or was
  -- refused; nothing is written.
  abbrev pub IsRound : List NamespacedName → Session H → Result (List O.Map) × Session H → Type 0
  IsRound ns w p =
      (xs : List (NamespacedName × O.Map)) × (p.0 ≡ ok (map (λ x. x.1) xs))
      × All WasAnswered xs
      × IsNew xs w.collected
      × (p.1.collected ≡ marked xs w.collected)
      × All (λ n. (has_name n p.1.collected ≡ true) ⊎ WasRefused n) ns
      × (p.1.done ≡ w.done)

  marked_step :
      (n : NamespacedName) (ns : List NamespacedName) (pvc : O.Map) (w : Session H)
      → has_name n w.collected ≡ false
      → (ms : List O.Map) → (get_pvcs H l ns (record w { collected = n ∷ w.collected })).0 ≡ ok ms
      → (mark_collected H l n >>= λ _. get_pvcs H l ns >>= λ rest. pure (pvc ∷ rest)) w
        ≡ (ok (pvc ∷ ms), (get_pvcs H l ns (record w { collected = n ∷ w.collected })).1)
  unfolding mark_collected ◌>>=◌ pure
  marked_step n ns pvc w new ms e = rw new (
      ok->>= (get_pvcs H l ns) (λ rest. pure (pvc ∷ rest))
        (record w { collected = n ∷ w.collected }) ms e)

  marked_then :
      (n : NamespacedName) (ns : List NamespacedName) (pvc : O.Map) (w : Session H)
      → has_name n w.collected ≡ false
      → WasAnswered (n, pvc)
      → IsRound ns
          (record w { collected = n ∷ w.collected })
          (get_pvcs H l ns (record w { collected = n ∷ w.collected }))
      → IsRound
          (n ∷ ns)
          w
          ((mark_collected H l n >>= λ _. get_pvcs H l ns >>= λ rest. pure (pvc ∷ rest)) w)
  marked_then n ns pvc w new answer (xs, e, answered, news, same, complete, done) =
      subst (λ (p : Result (List O.Map) × Session H). IsRound (n ∷ ns) w p)
        (sym (marked_step n ns pvc w new (map (λ x. x.1) xs) e))
        (
          (n, pvc) ∷ xs,
          refl,
          (answer, answered),
          (new, news),
          same,
          (inl (rw same (stays n xs (n ∷ w.collected) (has_itself n w.collected))), complete),
          done,
        )

  -- What follows the answer of a read.
  abbrev after_read :
      NamespacedName → List NamespacedName → Result O.Map → Action (Session H) (List O.Map)
  after_read n ns (ok pvc) =
      mark_collected H l n >>= λ _. get_pvcs H l ns >>= λ rest. pure (pvc ∷ rest)
  after_read n ns (err e) = get_pvcs H l ns

  answered :
      (n : NamespacedName) (ns : List NamespacedName) (s : H.State) (r : Result O.Map)
      (w : Session H)
      → (H.get_object (path_of n) s).0 ≡ r
      → has_name n w.collected ≡ false
      → IsRound ns w (get_pvcs H l ns w)
      → IsRound ns
          (record w { collected = n ∷ w.collected })
          (get_pvcs H l ns (record w { collected = n ∷ w.collected }))
      → IsRound (n ∷ ns) w (after_read n ns r w)
  answered n ns s (err e) w h new (xs, result, answers, news, same, complete, done) marked =
      (xs, result, answers, news, same, (inr (s, (e, h)), complete), done)
  answered n ns s (ok pvc) w h new passed marked = marked_then n ns pvc w new (s, h) marked

  get_pvcs-marked :
      (n : NamespacedName) (ns : List NamespacedName) (w : Session H)
      → has_name n w.collected ≡ true
      → get_pvcs H l (n ∷ ns) w ≡ get_pvcs H l ns w
  unfolding get_pvcs is_collected_pvc ◌>>=◌
  get_pvcs-marked n ns w old = rw old refl

  get_pvcs-after_read :
      (n : NamespacedName) (ns : List NamespacedName) (w : Session H)
      → has_name n w.collected ≡ false
      → get_pvcs H l (n ∷ ns) w
        ≡ after_read n ns (H.get_object (path_of n) w.host).0 (ask H (H.get_object (path_of n)) w).1
  unfolding get_pvcs is_collected_pvc ask attempt ◌>>=◌
  get_pvcs-after_read n ns w new = rw new (by_answer (H.get_object (path_of n) w.host).0)
    where
      v : Session H
      v = record w { host = (H.get_object (path_of n) w.host).1 }

      by_answer :
          (r : Result O.Map)
          → (elim r as (λ _. Action (Session H) (List O.Map)) [
            | err e ↦ get_pvcs H l ns
            | ok pvc ↦ mark_collected H l n >>= λ _. get_pvcs H l ns >>= λ rest. pure (pvc ∷ rest)
          ])
              v
            ≡ after_read n ns r v
      by_answer (ok pvc) = refl
      by_answer (err e) = refl

  -- The claims of a list are read without an error and nothing is written. The result is the objects that
  -- were answered, each for a claim that was not marked before, and exactly their claims are marked
  -- besides those that were; in the end each claim of the list is marked, and so not read again, or was
  -- refused.
  pub get_pvcs-IsRound :
      (ns : List NamespacedName) (w : Session H) → IsRound ns w (get_pvcs H l ns w)
  unfolding get_pvcs pure ask
  get_pvcs-IsRound [] w = ([], refl, tt, tt, refl, tt, refl)
  get_pvcs-IsRound (n ∷ ns) w = elim (Bool-cases (has_name n w.collected)) [
    | inl old ↦
        let (xs, result, answers, news, same, complete, done) = get_pvcs-IsRound ns w in
        subst (λ (p : Result (List O.Map) × Session H). IsRound (n ∷ ns) w p)
          (sym (get_pvcs-marked n ns w old))
          (
            xs,
            result,
            answers,
            news,
            same,
            (inl (rw same (stays n xs w.collected old)), complete),
            done,
          )
    | inr new ↦
        let v = (ask H (H.get_object (path_of n)) w).1 in
        subst (λ (p : Result (List O.Map) × Session H). IsRound (n ∷ ns) w p)
          (sym (get_pvcs-after_read n ns w new))
          (answered n ns w.host (H.get_object (path_of n) w.host).0 v refl new
            (get_pvcs-IsRound ns v)
            (get_pvcs-IsRound ns (record v { collected = n ∷ w.collected })))
  ]
