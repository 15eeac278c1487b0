-- ===== src/Cmd/Gvks/RoundTrip.antt =====
-- What `parseGVK` accepts, and what it makes of it.
use tvk_plugins.Base.{
  String, ◌==◌, Bool, true, false, ◌≡◌, ◌≢◌, ◌↔◌, refl, sym, ap, ◌∙◌, List, [], ◌∷◌, map, All,
  if◌then◌else◌, eq_iff,
}
use mathlib.Core.Path.{subst}
use tvk_plugins.Text.{split, join}
use tvk_plugins.Text.Splits.{Lacks, split-join, join-split, split-Lacks}
use tvk_plugins.Collector.Labels.{GroupVersionKind}
use tvk_plugins.Cmd.Gvks.{
  Parsed, parsed, failed, panicked, kind_empty, gvk_error, gvk_of_parts, and_then, parse_gvk,
}

abbrev pub print_gvk : GroupVersionKind → String
print_gvk g = join "/" (g.group ∷ g.version ∷ g.kind ∷ [])

-- A kind, and no "/" anywhere.
abbrev pub IsGvk : GroupVersionKind → Type 0
IsGvk g = (g.kind ≢ "") × Lacks "/" g.group × Lacks "/" g.version × Lacks "/" g.kind

parts_of_kind : (g v k : String) (b : Bool) → (k == "") ≡ b → (k ≢ "" → b ≡ false)
parts_of_kind g v k true h ne = absurd (ne ((eq_iff k "").0 h))
parts_of_kind g v k false h ne = refl

one-printed : (g : GroupVersionKind) → IsGvk g → gvk_of_parts (split "/" (print_gvk g)) ≡ parsed g
unfolding gvk_of_parts
one-printed g (ne, hg, hv, hk) =
    ap gvk_of_parts (split-join "/" g.group (g.version ∷ g.kind ∷ []) (hg, (hv, (hk, tt))))
    ∙ ap (λ b. if b then failed kind_empty else parsed g)
        (parts_of_kind g.group g.version g.kind _ refl ne)

print-parses :
    (gs : List GroupVersionKind) → All IsGvk gs → parse_gvk (map print_gvk gs) ≡ parsed gs
unfolding parse_gvk
print-parses [] h = refl
print-parses (g ∷ gs) (h, hs) = λ i. and_then (one-printed g h i) (print-parses gs hs i)

parsed-injective {ℓ} : {A : Type ℓ} (a b : A) → parsed a ≡ parsed b → a ≡ b
parsed-injective a b h = cc

three-back :
    (g : GroupVersionKind) (r : GroupVersionKind) (b : Bool)
    → (g.kind == "") ≡ b
    → (if b then failed kind_empty else parsed g) ≡ parsed r
    → (g ≡ r) × (g.kind ≢ "")
three-back g r true h e = cc e
three-back g r false h e = (parsed-injective g r e, λ c. cc (h, (eq_iff g.kind "").1 c))

four-back :
    (k : String) (r : GroupVersionKind) (b : Bool)
    → (if b then failed kind_empty else failed gvk_error) ≡ parsed r
    → ⊥
four-back k r true e = cc e
four-back k r false e = cc e

one-back :
    (ps : List String) (s : String) (g : GroupVersionKind)
    → join "/" ps ≡ s
    → All (Lacks "/") ps
    → gvk_of_parts ps ≡ parsed g
    → (s ≡ print_gvk g) × IsGvk g
unfolding gvk_of_parts
one-back [] s g j h e = cc e
one-back (a ∷ []) s g j h e = cc e
one-back (a ∷ b ∷ []) s g j h e = cc e
one-back (a ∷ b ∷ c ∷ []) s g j (ha, (hb, (hc, _))) e =
    let r : GroupVersionKind = record { group = a; version = b; kind = c } in
    let (same, ne) = three-back r g _ refl e in
    (sym j ∙ ap print_gvk same, subst IsGvk same (ne, ha, hb, hc))
one-back (a ∷ b ∷ c ∷ d ∷ more) s g j h e = absurd (four-back c g _ e)

and_then-eq-parsed :
    {A : Type 0} (p : Parsed A) (q : Parsed (List A)) (all : List A)
    → and_then p q ≡ parsed all
    → (a : A) × (rest : List A) × (p ≡ parsed a) × (q ≡ parsed rest) × (all ≡ a ∷ rest)
and_then-eq-parsed (parsed a) (parsed rest) all h =
    (a, rest, refl, refl, sym (parsed-injective _ _ h))
and_then-eq-parsed (parsed a) (failed e) all h = cc h
and_then-eq-parsed (parsed a) panicked all h = cc h
and_then-eq-parsed (failed e) q all h = cc h
and_then-eq-parsed panicked q all h = cc h

parses-print :
    (texts : List String) (gs : List GroupVersionKind)
    → parse_gvk texts ≡ parsed gs
    → (texts ≡ map print_gvk gs) × All IsGvk gs
unfolding parse_gvk
parses-print [] gs h =
    subst (λ r. ([] ≡ map print_gvk r) × All IsGvk r) (parsed-injective [] gs h) (refl, tt)
parses-print (s ∷ texts) gs h =
    let (g, rest, one, more, same) = and_then-eq-parsed _ _ gs h in
    let (printed, good) = one-back (split "/" s) s g (join-split "/" s) (split-Lacks "/" s) one in
    let (all_printed, all_good) = parses-print texts rest more in
    subst (λ r. ((s ∷ texts) ≡ map print_gvk r) × All IsGvk r) (sym same)
      ((λ i. printed i ∷ all_printed i), (good, all_good))

-- The texts that are parsed are exactly those printed from a group, a version and a kind that is not
-- empty, none of which holds a "/", and they are parsed to these, in order.
pub parse_gvk-print_gvk :
    (texts : List String) (gs : List GroupVersionKind)
    → (parse_gvk texts ≡ parsed gs) ↔ ((texts ≡ map print_gvk gs) × All IsGvk gs)
parse_gvk-print_gvk texts gs = (parses-print texts gs, λ h. ap parse_gvk h.0 ∙ print-parses gs h.1)
