-- ===== src/Paths/Relative.antt =====
-- A relative path that does not begin with ".." leads from a directory to something in it.
use tvk_plugins.Base.{
  ℕ, zero, suc, String, Bool, true, false, List, [], ◌∷◌, ◌++◌, if◌then◌else◌, ◌==◌, ◌||◌, ◌<>◌,
  ◌≡◌, ◌≢◌, refl, sym, ap, ◌∙◌, All, All-append, append_assoc, append-nil, eq_iff, starts_with,
  length,
}
use text.Mathlib.TextPositions.{starts_with-append}
use Prim.Native.String.{◌∷◌}
use text.Mathlib.TextLemmas.{nil-append, cons-append}
use mathlib.Core.List.{cons-ne-nil}
use mathlib.Core.Path.{subst}
use tvk_plugins.Action.{Error, ok, err, ok-injective}
use tvk_plugins.Text.{join}
use tvk_plugins.Paths.{resolve, route, climbs, elements, descend, walk, rel, clean, xor}
use tvk_plugins.Paths.Clean.{IsName, of_parts, resolve_elements, route-clean, route-IsClean}

-- The test for a relative path that leaves the directory.
abbrev pub leaves : String → Bool
leaves r = r == ".." || starts_with r "../"

abbrev dot : String → String
dot s = "." ∷ s

abbrev slash : String → String
slash s = "/" ∷ s

climb_text : (s : String) → ".." <> ("/" ∷ s) ≡ "../" <> s
climb_text s =
    cons-append "." "." ("/" ∷ s)
    ∙ ap dot (cons-append "." "" ("/" ∷ s) ∙ ap dot (nil-append _))
    ∙ sym (
        cons-append "." "./" s
        ∙ ap dot (cons-append "." "/" s ∙ ap dot (cons-append "/" "" s ∙ ap slash (nil-append s))))

or-true : (b : Bool) → (b || true) ≡ true
or-true true = refl
or-true false = refl

leaves-join : (ps : List String) → leaves (join "/" (".." ∷ ps)) ≡ true
unfolding join
leaves-join [] = refl
leaves-join (p ∷ ps) =
    let s = join "/" (p ∷ ps) in
    ap leaves (climb_text s)
    ∙ ap (λ b. ("../" <> s) == ".." || b) (starts_with-append "../" s)
    ∙ or-true _

-- The way out of a directory does not stay in it.
climb-leaves :
    (b : Bool) (e : Error) (s r : String)
    → (if b then err e else ok s) ≡ ok r
    → leaves s ≡ true
    → leaves r ≡ false
    → ⊥
climb-leaves true e s r h k l = cc h
climb-leaves false e s r h k l = cc (k, l, ap leaves (ok-injective s r h))

descend-stays :
    (bs ts : List String) (r : String)
    → descend bs ts ≡ ok r
    → leaves r ≡ false
    → (bs ≡ []) × (r ≡ join "/" ts)
unfolding descend
descend-stays [] ts r h k = (refl, sym (ok-injective _ _ h))
descend-stays (b ∷ bs) ts r h k =
    absurd (climb-leaves _ _ _ r h (leaves-join (climbs (length bs) ++ ts)) k)

climb-out :
    (b : String) (bs ts : List String) (r : String)
    → descend (b ∷ bs) ts ≡ ok r
    → leaves r ≡ false
    → ⊥
climb-out b bs ts r h k = cons-ne-nil b bs (descend-stays (b ∷ bs) ts r h k).0

walk_cases :
    (same : Bool) (b t : String) (bs ts : List String) (r : String)
    → (b == t) ≡ same
    → (if same then walk bs ts else descend (b ∷ bs) (t ∷ ts)) ≡ ok r
    → leaves r ≡ false
    → (b ≡ t) × (walk bs ts ≡ ok r)
walk_cases true b t bs ts r e h k = ((eq_iff b t).0 e, h)
walk_cases false b t bs ts r e h k = absurd (climb-out b bs (t ∷ ts) r h k)

walk-stays :
    (bs ts : List String) (r : String)
    → walk bs ts ≡ ok r
    → leaves r ≡ false
    → (rest : List String) × (ts ≡ bs ++ rest) × (r ≡ join "/" rest)
unfolding walk
walk-stays (b ∷ bs) (t ∷ ts) r h k =
    let (e, h') = walk_cases (b == t) b t bs ts r refl h k in
    let (rest, more, j) = walk-stays bs ts r h' k in (rest, (λ i. sym e i ∷ more i), j)
walk-stays [] ts r h k = let (_, e) = descend-stays [] ts r h k in (ts, refl, e)
walk-stays (b ∷ bs) [] r h k = absurd (climb-out b bs [] r h k)

-- What does not start with "..".
abbrev Starts : List String → Type 0
Starts [] = Unit
Starts (p ∷ ps) = p ≢ ".."

join-Starts : (ps : List String) → leaves (join "/" ps) ≡ false → Starts ps
join-Starts [] h = tt
join-Starts (p ∷ ps) h = λ e. cc (h, leaves-join ps, ap (λ q. leaves (join "/" (q ∷ ps))) e)

abbrev tail : List String → List String
tail [] = []
tail (p ∷ ps) = ps

rest-IsName :
    (n : ℕ) (ns bs rest : List String)
    → All IsName ns
    → climbs n ++ ns ≡ bs ++ rest
    → Starts rest
    → All IsName rest
rest-IsName zero ns [] rest h e k = subst (All IsName) e h
rest-IsName (suc n) ns [] rest h e k = absurd (subst Starts (sym e) k refl)
rest-IsName zero [] (b ∷ bs) rest h e k = cc e
rest-IsName zero (p ∷ ns) (b ∷ bs) rest (_, h) e k = rest-IsName zero ns bs rest h (ap tail e) k
rest-IsName (suc n) ns (b ∷ bs) rest h e k = rest-IsName n ns bs rest h (ap tail e) k

-- `t` is the directory `base` or lies in it.
abbrev pub IsWithin : String → String → Type 0
IsWithin base t =
    (below : List String) × All IsName below
    × (route t ≡ record (route base) { names = (route base).names ++ below })

walk-IsWithin :
    (root : Bool) (m n : ℕ) (bs ts : List String) (r : String)
    → All IsName bs
    → All IsName ts
    → walk (climbs m ++ bs) (climbs n ++ ts) ≡ ok r
    → leaves r ≡ false
    → (below : List String) × All IsName below
      × (of_parts root n ts ≡ of_parts root m (bs ++ below))
walk-IsWithin root m n bs ts r hb ht h k =
    let (rest, e, j) = walk-stays (climbs m ++ bs) (climbs n ++ ts) r h k in
    let names =
      rest-IsName n ts (climbs m ++ bs) rest ht e (join-Starts rest (sym (ap leaves j) ∙ k)) in
    let both =
      sym (resolve_elements n ts ht)
      ∙ ap resolve (e ∙ append_assoc (climbs m) bs rest)
      ∙ resolve_elements m (bs ++ rest) (All-append IsName bs rest hb names) in
    (rest, names, λ i. of_parts root (both i).0 (both i).1)

xor-eq-false : (a b : Bool) → xor a b ≡ false → a ≡ b
xor-eq-false true true h = refl
xor-eq-false true false h = cc h
xor-eq-false false true h = cc h
xor-eq-false false false h = refl

rel_cases :
    (base t r : String) (same differ : Bool) (e : Error)
    → (clean base == clean t) ≡ same
    → xor (route base).rooted (route t).rooted ≡ differ
    → (if same
        then ok "."
        else if differ
        then err e
        else walk (elements (route base)) (elements (route t)))
      ≡ ok r
    → leaves r ≡ false
    → IsWithin base t
rel_cases base t r true differ e s d h k = (
  [],
  tt,
  sym (route-clean t)
      ∙ ap route (sym ((eq_iff (clean base) (clean t)).0 s))
      ∙ route-clean base
      ∙ ap (of_parts _ _) (sym (append-nil _)),
)
rel_cases base t r false true e s d h k = cc h
rel_cases base t r false false e s d h k =
    let (below, names, same) =
      walk-IsWithin (route base).rooted (route base).ups (route t).ups (route base).names
        (route t).names r (route-IsClean base).0 (route-IsClean t).0 h k in
    (
      below,
      names,
      ap (λ b. of_parts b (route t).ups (route t).names)
            (sym (xor-eq-false (route base).rooted (route t).rooted d))
          ∙ same,
    )

pub rel-IsWithin : (base t r : String) → rel base t ≡ ok r → leaves r ≡ false → IsWithin base t
unfolding rel
rel-IsWithin base t r h k = rel_cases base t r _ _ _ refl refl h k
