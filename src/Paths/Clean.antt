-- ===== src/Paths/Clean.antt =====
-- The names of a clean path, and the text of a route, which reads as that route.
use Prim.Native.String.{[], ◌∷◌}
use text.Mathlib.TextLemmas.{nil-append, cons-append}
use tvk_plugins.Base.{
  ℕ, zero, suc, String, Bool, true, false, List, [], ◌∷◌, ◌++◌, if◌then◌else◌, ◌<>◌, ◌≡◌, ◌≢◌, refl,
  sym, ap, ◌∙◌, All, All-append, All-weaken, arith, eq_iff,
}
use tvk_plugins.Text.{split, join}
use tvk_plugins.Text.Splits.{Lacks, split-Lacks, split-join}
use tvk_plugins.Paths.{Route, resolve_one, resolve, is_rooted, route, climbs, print, clean}

abbrev pub IsPlain : String → Type 0
IsPlain p = (p ≢ "") × (p ≢ ".") × (p ≢ "..")

-- A name that leads from a directory to something in it.
abbrev pub IsName : String → Type 0
IsName p = IsPlain p × Lacks "/" p

resolve_one-IsName :
    (p : String) (n : ℕ) (out : List String)
    → Lacks "/" p
    → All IsName out
    → All IsName (resolve_one p (n, out)).1
unfolding resolve_one
resolve_one-IsName p zero out h k = ground (arith, eq_iff p "", eq_iff p ".", eq_iff p "..")
resolve_one-IsName p (suc n) out h k = ground (arith, eq_iff p "", eq_iff p ".", eq_iff p "..")

resolve-IsName : (ps : List String) → All (Lacks "/") ps → All IsName (resolve ps).1
unfolding resolve
resolve-IsName [] _ = tt
resolve-IsName (p ∷ ps) (h, hs) =
    resolve_one-IsName p (resolve ps).0 (resolve ps).1 h (resolve-IsName ps hs)

pub route-IsName : (s : String) → All IsName (route s).names
unfolding route
route-IsName s = resolve-IsName (split "/" s) (split-Lacks "/" s)

resolve_one_of_IsPlain :
    (p : String) (out : List String) → IsPlain p → resolve_one p (0, out) ≡ (0, p ∷ out)
unfolding resolve_one
resolve_one_of_IsPlain p out h = ground (arith, eq_iff p "", eq_iff p ".", eq_iff p "..")

resolve_names : (ns : List String) → All IsName ns → resolve ns ≡ (0, ns)
unfolding resolve
resolve_names [] _ = refl
resolve_names (p ∷ ns) ((h, _), hs) =
    ap (resolve_one p) (resolve_names ns hs) ∙ resolve_one_of_IsPlain p ns h

pub resolve_elements :
    (n : ℕ) (ns : List String) → All IsName ns → resolve (climbs n ++ ns) ≡ (n, ns)
unfolding resolve resolve_one
resolve_elements zero ns h = resolve_names ns h
resolve_elements (suc n) ns h = ap (resolve_one "..") (resolve_elements n ns h)

elements-Lacks : (n : ℕ) (ns : List String) → All IsName ns → All (Lacks "/") (climbs n ++ ns)
elements-Lacks n ns h =
    All-append (Lacks "/") (climbs n) ns (climbs-Lacks n) (All-weaken (λ _ k. k.1) ns h)
  where
    climbs-Lacks : (n : ℕ) → All (Lacks "/") (climbs n)
    climbs-Lacks zero = tt
    climbs-Lacks (suc n) = ((refl, (refl, tt)), climbs-Lacks n)

resolve-join :
    (n : ℕ) (ns : List String)
    → All IsName ns
    → resolve (split "/" (join "/" (climbs n ++ ns))) ≡ (n, ns)
unfolding resolve resolve_one split join
resolve-join zero [] h = refl
resolve-join zero (p ∷ ns) h =
    ap resolve (split-join "/" p ns (elements-Lacks 0 (p ∷ ns) h)) ∙ resolve_elements 0 (p ∷ ns) h
resolve-join (suc n) ns h =
    ap resolve (split-join "/" ".." (climbs n ++ ns) (elements-Lacks (suc n) ns h))
    ∙ resolve_elements (suc n) ns h

is_rooted-join :
    (p : String) (ps : List String) → p ≢ "" → Lacks "/" p → is_rooted (join "/" (p ∷ ps)) ≡ false
unfolding join
is_rooted-join [] ps ne h = absurd (ne refl)
is_rooted-join (c ∷ p) [] ne (h, _) = h
is_rooted-join (c ∷ p) (q ∷ ps) ne (h, _) = rw (cons-append) h

-- A route that `Clean` can return.
abbrev pub IsClean : Route → Type 0
IsClean r = All IsName r.names × (r.rooted ≡ true → r.ups ≡ 0)

at_root : (b : Bool) (n : ℕ) → b ≡ true → (if b then 0 else n) ≡ 0
at_root true n h = refl
at_root false n h = cc

pub route-IsClean : (s : String) → IsClean (route s)
unfolding route
route-IsClean s = (route-IsName s, at_root (is_rooted s) (resolve (split "/" s)).0)

abbrev pub of_parts : Bool → ℕ → List String → Route
of_parts b n ns = record { rooted = b; ups = n; names = ns }

abbrev slash : String → String
slash s = "/" ∷ s

slash-append : (s : String) → "/" <> s ≡ slash s
slash-append s = cons-append "/" "" s ∙ ap slash (nil-append s)

route-of_parts :
    (s : String) (b : Bool) (n : ℕ) (ns : List String)
    → is_rooted s ≡ b
    → resolve (split "/" s) ≡ (n, ns)
    → route s ≡ of_parts b (if b then 0 else n) ns
unfolding route
route-of_parts s b n ns h k =
    λ i. record { rooted = h i; ups = if h i then 0 else (k i).0; names = (k i).1 }

resolve-slash :
    (s : String) (r : ℕ × List String)
    → resolve (split "/" s) ≡ r
    → resolve (split "/" (slash s)) ≡ r
unfolding split resolve resolve_one
resolve-slash s r h = h

print_rooted :
    (ns : List String) → All IsName ns → route (print (of_parts true 0 ns)) ≡ of_parts true 0 ns
unfolding print
print_rooted ns h =
    ap route (slash-append (join "/" ns))
    ∙ route-of_parts (slash (join "/" ns)) true 0 ns refl
        (resolve-slash (join "/" ns) (0, ns) (resolve-join 0 ns h))

up-Lacks : Lacks "/" ".."
up-Lacks = (refl, (refl, tt))

print_relative :
    (n : ℕ) (ns : List String)
    → All IsName ns
    → route (print (of_parts false n ns)) ≡ of_parts false n ns
unfolding print
print_relative zero [] h = unfold route resolve resolve_one split join in refl
print_relative zero (p ∷ ns) h =
    route-of_parts (join "/" (p ∷ ns)) false 0 (p ∷ ns) (is_rooted-join p ns h.0.0.0 h.0.1)
      (resolve-join 0 (p ∷ ns) h)
print_relative (suc n) ns h =
    route-of_parts (join "/" (climbs (suc n) ++ ns)) false (suc n) ns
      (is_rooted-join ".." (climbs n ++ ns) (cc) up-Lacks) (resolve-join (suc n) ns h)

print_parts :
    (b : Bool) (n : ℕ) (ns : List String)
    → IsClean (of_parts b n ns)
    → route (print (of_parts b n ns)) ≡ of_parts b n ns
print_parts true n ns (h, k) =
    ap (λ m. route (print (of_parts true m ns))) (k refl)
    ∙ print_rooted ns h
    ∙ sym (ap (λ m. of_parts true m ns) (k refl))
print_parts false n ns (h, _) = print_relative n ns h

-- The text of a clean route reads as that route.
pub route-print : (r : Route) → IsClean r → route (print r) ≡ r
route-print r h = print_parts r.rooted r.ups r.names h

pub route-clean : (s : String) → route (clean s) ≡ route s
unfolding clean
route-clean s = route-print (route s) (route-IsClean s)
