-- ===== src/Text/Splits.antt =====
-- Splitting and joining texts.
use Prim.Native.Char.{Char, code}
use Prim.Native.String.{String, [], ◌∷◌}
use text.Mathlib.TextEquality.{Char-path}
use text.Mathlib.TextLemmas.{nil-append, cons-append}
use tvk_plugins.Base.{
  Bool, true, false, List, [], ◌∷◌, if◌then◌else◌, ◌<>◌, ◌≡◌, refl, sym, ap, ◌∙◌, All, Bool-cases,
  inl, inr, arith,
}
use tvk_plugins.Text.{is_code, onto, split, join}

module _ (sep : Char) where
  -- No character of the text is the separator.
  abbrev pub Lacks : String → Type 0
  Lacks [] = Unit
  Lacks (c ∷ s) = (is_code (code sep) c ≡ false) × Lacks s

  pub split_of_Lacks : (p : String) → Lacks p → split sep p ≡ p ∷ []
  unfolding split
  split_of_Lacks [] h = refl
  split_of_Lacks (c ∷ p) (h, k) = rw (h, split_of_Lacks p k) refl

  is_code_self : is_code (code sep) sep ≡ true
  is_code_self = ground arith

  pub split-append : (p s : String) → Lacks p → split sep (p <> (sep ∷ s)) ≡ p ∷ split sep s
  unfolding split
  split-append [] s h = rw (nil-append, split, is_code_self) refl
  split-append (c ∷ p) s (h, k) = rw (cons-append, split, h, split-append p s k) refl

  pub split-join :
      (p : String) (ps : List String) → All Lacks (p ∷ ps) → split sep (join sep (p ∷ ps)) ≡ p ∷ ps
  unfolding join
  split-join p [] (h, _) = split_of_Lacks p h
  split-join p (q ∷ ps) (h, k) =
      split-append p (join sep (q ∷ ps)) h ∙ ap (λ r. p ∷ r) (split-join q ps k)

  onto-Lacks :
      (c : Char) (ps : List String)
      → is_code (code sep) c ≡ false
      → All Lacks ps
      → All Lacks (onto c ps)
  onto-Lacks c [] h _ = ((h, tt), tt)
  onto-Lacks c (p ∷ ps) h (k, ks) = ((h, k), ks)

  pub split-Lacks : (s : String) → All Lacks (split sep s)
  unfolding split
  split-Lacks [] = (tt, tt)
  split-Lacks (c ∷ s) = elim (Bool-cases (is_code (code sep) c)) [
    | inl cut ↦ rw (cut) (tt, split-Lacks s)
    | inr kept ↦ rw (kept) (onto-Lacks c (split sep s) kept (split-Lacks s))
  ]

  -- There is always a part.
  pub split-cons : (s : String) → (p : String) × (ps : List String) × (split sep s ≡ p ∷ ps)
  unfolding split
  split-cons [] = ([], [], refl)
  split-cons (c ∷ s) =
      let (p, ps, e) = split-cons s in
      elim (Bool-cases (is_code (code sep) c)) [
        | inl cut ↦ ([], p ∷ ps, rw (cut, e) refl)
        | inr kept ↦ (c ∷ p, ps, rw (kept, e) refl)
      ]

  same_char : (c : Char) → is_code (code sep) c ≡ true → sep ≡ c
  same_char c h = Char-path sep c (ground arith)

  join-onto : (c p : _) (ps : List String) → join sep (onto c (p ∷ ps)) ≡ c ∷ join sep (p ∷ ps)
  unfolding join
  join-onto c p [] = refl
  join-onto c p (q ∷ ps) = rw (cons-append) refl

  join_back :
      (c : Char) (s p : String) (ps : List String) (b : Bool)
      → is_code (code sep) c ≡ b
      → join sep (p ∷ ps) ≡ s
      → join sep (if b then [] ∷ p ∷ ps else onto c (p ∷ ps)) ≡ c ∷ s
  unfolding join
  join_back c s p ps true h k = nil-append _ ∙ (λ i. same_char c h i ∷ k i)
  join_back c s p ps false h k = join-onto c p ps ∙ ap (λ t. c ∷ t) k

  -- Joining the parts of a split gives the text back.
  pub join-split : (s : String) → join sep (split sep s) ≡ s
  unfolding split
  join-split [] = unfold join in refl
  join-split (c ∷ s) =
      let (p, ps, e) = split-cons s in
      rw (e) (join_back c s p ps _ refl (sym (ap (join sep) e) ∙ join-split s))
