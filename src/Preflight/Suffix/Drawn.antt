-- ===== src/Preflight/Suffix/Drawn.antt =====
-- What `CreateResourceNameSuffix` of tools/preflight/preflight.go can return.
use Prim.Native.String.{len}
use text.Mathlib.TextPositions.{len-append}
use tvk_plugins.Base.{
  ℕ, zero, suc, ◌<◌, String, ◌<>◌, ◌≡◌, refl, sym, ap, ◌∙◌, true, List, [], ◌∷◌, All, length,
  contains, all, Bool, false, ◌&&◌, nat_eq, arith,
}
use tvk_plugins.Action.{ok, ok-injective, >>=-eq-ok}
use tvk_plugins.Kube.{Externals, Cluster, World}
use tvk_plugins.Kube.Trace.{ask-answers}
use tvk_plugins.Preflight.Suffix.{letters, letter_at, draw_letters, create_resource_name_suffix}

-- What crypto/rand documents: the number is below the bound.
pub record IsBounded {X : Externals} (K : Cluster X) : Type 0 where
  pub draws : (n : ℕ) (s : K.State) (i : ℕ) → (K.rand_int n s).0 ≡ ok i → i < n

abbrev pub concat : List String → String
concat [] = ""
concat (l ∷ ls) = l <> concat ls

-- One letter of the alphabet, a byte long.
abbrev pub is_letter : String → Bool
is_letter l = contains letters l && nat_eq (len l) 1

and_true : (a b : Bool) → (a && b) ≡ true → (a ≡ true) × (b ≡ true)
and_true true b h = (refl, h)
and_true false b h = cc

nat_eq_sound : (a b : ℕ) → nat_eq a b ≡ true → a ≡ b
nat_eq_sound a b h = ground arith

one_byte : (l : String) → is_letter l ≡ true → len l ≡ 1
one_byte l h = nat_eq_sound (len l) 1 (and_true (contains letters l) _ h).1

letter_at-All :
    (P : String → Type 0) (ls : List String) (i : ℕ) → All P ls → i < length ls → P (letter_at ls i)
unfolding letter_at
letter_at-All P [] i h below = ground arith
letter_at-All P (l ∷ ls) zero (p, h) below = p
letter_at-All P (l ∷ ls) (suc i) (p, h) below = letter_at-All P ls i h (omega arith)

tests_pass : (ls : List String) → all is_letter ls ≡ true → All (λ l. is_letter l ≡ true) ls
tests_pass [] h = tt
tests_pass (l ∷ ls) h = let (a, b) = and_true (is_letter l) _ h in (a, tests_pass ls b)

letters-IsLetter : All (λ l. is_letter l ≡ true) letters
letters-IsLetter = tests_pass letters refl

concat-len : (ls : List String) → All (λ l. is_letter l ≡ true) ls → len (concat ls) ≡ length ls
concat-len [] h = refl
concat-len (l ∷ ls) (p, h) =
    let whole = len-append l (concat ls) in
    let first = one_byte l p in let rest = concat-len ls h in omega arith

module _ {X : Externals} (K : Cluster X) (bounded : IsBounded K) where
  -- `s` is `n` letters in a row.
  abbrev pub IsLetters : ℕ → String → Type 0
  IsLetters n s =
      (ls : List String) × All (λ l. is_letter l ≡ true) ls × (length ls ≡ n) × (s ≡ concat ls)

  draw_letters-IsLetters :
      (n : ℕ) (w : World K) (s : String) → (draw_letters K n w).0 ≡ ok s → IsLetters n s
  unfolding draw_letters tvk_plugins.Action.pure
  draw_letters-IsLetters zero w s h = ([], tt, refl, sym (ok-injective "" s h))
  draw_letters-IsLetters (suc n) w s h =
      let (i, drawn, h1) = >>=-eq-ok _ _ w s h in
      let (rest, more, h2) = >>=-eq-ok _ _ _ s h1 in
      let (ls, good, counted, same) = draw_letters-IsLetters n _ rest more in
      (
        letter_at letters i ∷ ls,
        (
          letter_at-All (λ l. is_letter l ≡ true) letters i letters-IsLetter
              (bounded.draws 26 _ i (ask-answers _ w i drawn)),
          good,
        ),
        ap suc counted,
        sym (ok-injective _ s h2) ∙ ap (λ (t : String). letter_at letters i <> t) same,
      )

  -- Where the random numbers lie below their bound, a suffix that is drawn is six letters from `a`
  -- to `z`: it has the six bytes that the uid of a cleanup must have.
  pub create_resource_name_suffix-len :
      (w : World K) (s : String)
      → (create_resource_name_suffix K w).0 ≡ ok s
      → IsLetters 6 s × (len s ≡ 6)
  unfolding create_resource_name_suffix
  create_resource_name_suffix-len w s h =
      let (ls, good, counted, same) = draw_letters-IsLetters 6 w s h in
      ((ls, good, counted, same), ap len same ∙ concat-len ls good ∙ counted)
