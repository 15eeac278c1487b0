-- ===== src/Machine/Shell/Words.antt =====
-- Which command `RunCmd` makes of a text.
use Prim.Native.String.{String, [], ◌∷◌}
use text.Mathlib.TextLemmas.{nil-append}
use tvk_plugins.Base.{
  ℕ, zero, suc, ◌<>◌, ◌==◌, ◌≡◌, ◌≢◌, refl, sym, ap, ◌∙◌, true, List, [], ◌∷◌, ◌++◌, map, All,
  eq_iff, Bool-cases, inl, inr,
}
use tvk_plugins.Text.{split}
use tvk_plugins.Text.Splits.{Lacks, split-append, split_of_Lacks}
use tvk_plugins.Machine.{Machine, Command}
use tvk_plugins.Machine.Shell.{non_empty, command_of, run_cmd}

-- A text that is not empty and has no blank.
abbrev pub IsWord : String → Type 0
IsWord w = (w ≢ "") × Lacks " " w

abbrev pub blanks : ℕ → String → String
blanks zero s = s
blanks (suc n) s = " " ∷ blanks n s

-- A word, and words behind it that are each one blank and some more away.
abbrev pub spaced : String → List (ℕ × String) → String
spaced w [] = w
spaced w ((n, v) ∷ ps) = w <> (" " ∷ blanks n (spaced v ps))

abbrev pub words : List (ℕ × String) → List String
words ps = map (λ p. p.1) ps

split-blank : (s : String) → split " " (" " ∷ s) ≡ "" ∷ split " " s
split-blank s = ap (split " ") (sym (nil-append (" " ∷ s))) ∙ split-append " " "" s tt

non_empty-blanks :
    (n : ℕ) (s : String) → non_empty (split " " (blanks n s)) ≡ non_empty (split " " s)
unfolding non_empty
non_empty-blanks zero s = refl
non_empty-blanks (suc n) s = rw (split-blank (blanks n s)) (non_empty-blanks n s)

kept : (w : String) (ps : List String) → w ≢ "" → non_empty (w ∷ ps) ≡ w ∷ non_empty ps
unfolding non_empty
kept w ps h = elim (Bool-cases (w == "")) [
  | inl e ↦ absurd (h ((eq_iff w "").0 e))
  | inr e ↦ rw e refl
]

-- Its parts are the first word and parts of which the other words are not empty.
split-spaced :
    (w : String) (ps : List (ℕ × String))
    → IsWord w
    → All IsWord (words ps)
    → (rest : List String) × (split " " (spaced w ps) ≡ w ∷ rest) × (non_empty rest ≡ words ps)
unfolding non_empty
split-spaced w [] (h, k) _ = ([], split_of_Lacks " " w k, refl)
split-spaced w ((n, v) ∷ ps) (h, k) (hv, hs) =
    let (rest, e, r) = split-spaced v ps hv hs in
    (
      split " " (blanks n (spaced v ps)),
      split-append " " w (blanks n (spaced v ps)) k,
      non_empty-blanks n (spaced v ps)
          ∙ ap non_empty e
          ∙ kept v rest hv.0
          ∙ ap (λ (l : List String). v ∷ l) r,
    )

module _ (env : List String) (w : String) (ps : List (ℕ × String))
    (h : All IsWord (w ∷ words ps)) where
  abbrev made : String → Command
  made name = record { env = env; combined = true; name = name; args = words ps }

  command_of-spaced : command_of env true (spaced w ps) ≡ made w
  unfolding command_of
  command_of-spaced =
      let (rest, e, r) = split-spaced w ps h.0 h.1 in rw (e, kept w rest h.0.0, r) refl

  command_of-blanks : (n : ℕ) → command_of env true (blanks (suc n) (spaced w ps)) ≡ made ""
  unfolding command_of
  command_of-blanks n =
      let (rest, e, r) = split-spaced w ps h.0 h.1 in
      rw (non_empty-blanks (suc n) (spaced w ps), e, kept w rest h.0.0, r) refl

module _ (M : Machine) (env : List String) (w : String) (ps : List (ℕ × String)) where
  abbrev pub ran : String → M.State → Command
  ran name s = record { env = M.environ s ++ env; combined = true; name = name; args = words ps }

  -- A text of words with blanks between them is run as the command of its first word, with the other
  -- words as its arguments, in the environment with the given entries behind it. With a blank in
  -- front of the first word, the command that is run has no name, and the first word is lost.
  pub run_cmd-spaced :
      All IsWord (w ∷ words ps)
      → (s : M.State)
      → (run_cmd M (spaced w ps) env s ≡ M.run (ran w s) s)
        × ((n : ℕ) → run_cmd M (blanks (suc n) (spaced w ps)) env s ≡ M.run (ran "" s) s)
  unfolding run_cmd
  run_cmd-spaced h s = (
    ap (λ (c : Command). M.run (record c { env = M.environ s ++ c.env }) s)
        (command_of-spaced env w ps h),
    λ n.
        ap (λ (c : Command). M.run (record c { env = M.environ s ++ c.env }) s)
          (command_of-blanks env w ps h n),
  )
