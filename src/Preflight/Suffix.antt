-- ===== src/Preflight/Suffix.antt =====
-- `CreateResourceNameSuffix` of tools/preflight/preflight.go: the six letters that mark a run.
pub mod Drawn
use tvk_plugins.Base.{ℕ, zero, suc, String, ◌<>◌, List, [], ◌∷◌}
use tvk_plugins.Action.{Action, pure, ◌>>=◌}
use tvk_plugins.Kube.{Externals, Cluster, World, ask}

-- `letterBytes`, a text for each letter
abbrev pub letters : List String
letters =
    "a" ∷ "b" ∷ "c" ∷ "d" ∷ "e" ∷ "f" ∷ "g" ∷ "h" ∷ "i" ∷ "j" ∷ "k" ∷ "l" ∷ "m" ∷ "n" ∷ "o" ∷ "p"
    ∷ "q" ∷ "r" ∷ "s" ∷ "t" ∷ "u" ∷ "v" ∷ "w" ∷ "x" ∷ "y" ∷ "z" ∷ []

-- `letterBytes[idx]`. Go panics past the end; `rand.Int` returns no such index.
unfoldable pub letter_at : List String → ℕ → String
letter_at [] i = ""
letter_at (l ∷ ls) zero = l
letter_at (l ∷ ls) (suc i) = letter_at ls i

module _ {X : Externals} (K : Cluster X) where
  -- The loop, over the letters that are still to be drawn.
  unfoldable pub draw_letters : ℕ → Action (World K) String
  unfolding letter_at
  draw_letters zero = pure ""
  draw_letters (suc n) = do
    idx ← ask K (K.rand_int 26)
    rest ← draw_letters n
    pure (letter_at letters idx <> rest)

  unfoldable pub create_resource_name_suffix : Action (World K) String
  unfolding draw_letters
  create_resource_name_suffix = draw_letters 6
