-- ===== src/Text.antt =====
-- What the code uses of Go's `strings` package, over native texts: `Split`, `Trim`, `ToLower`,
-- `Contains`, `HasSuffix`, `TrimSuffix` and `EqualFold`, the last two cases for ASCII letters.
pub mod Splits
pub mod Decimal
use Prim.Native.Char.{Char, code}
use Prim.Native.String.{String, [], ◌∷◌}
use tvk_plugins.Base.{
  ℕ, zero, suc, ◌-◌, Bool, true, false, not, ◌&&◌, ◌||◌, List, [], ◌∷◌, if◌then◌else◌, ltb, nat_eq,
  ◌<>◌, ◌+◌, ◌==◌, starts_with,
}

abbrev pub is_code : ℕ → Char → Bool
is_code n c = nat_eq (code c) n

-- `c` in front of the first part
abbrev onto : Char → List String → List String
onto c [] = (c ∷ []) ∷ []
onto c (p ∷ ps) = (c ∷ p) ∷ ps

-- `strings.Split(s, sep)` for a separator of one character: the text is cut at each of them, so
-- there is one part more than separators.
unfoldable pub split : Char → String → List String
split sep [] = [] ∷ []
split sep (c ∷ s) =
    let parts = split sep s in if is_code (code sep) c then [] ∷ parts else onto c parts

-- `strings.Join(parts, sep)`
unfoldable pub join : Char → List String → String
join sep [] = []
join sep (p ∷ []) = p
join sep (p ∷ q ∷ ps) = p <> (sep ∷ join sep (q ∷ ps))

abbrev is_blank : String → Bool
is_blank [] = true
is_blank (c ∷ s) = is_code b' ' c && is_blank s

-- `strings.Trim(s, " ")`: leading blanks, then trailing ones, are left out.
unfoldable pub trim_left : String → String
trim_left [] = []
trim_left (c ∷ s) = if is_code b' ' c then trim_left s else c ∷ s

unfoldable pub trim_right : String → String
trim_right [] = []
trim_right (c ∷ s) = let rest = trim_right s in if is_blank (c ∷ s) then [] else c ∷ rest

abbrev pub trim : String → String
trim s = trim_right (trim_left s)

-- `strings.Contains(s, t)`
unfoldable pub contains_text : String → String → Bool
contains_text [] t = t == ""
contains_text (c ∷ s) t = starts_with (c ∷ s) t || contains_text s t

-- `strings.HasSuffix(s, t)`
unfoldable pub ends_with : String → String → Bool
ends_with [] t = t == ""
ends_with (c ∷ s) t = (c ∷ s) == t || ends_with s t

-- `strings.TrimSuffix(s, t)`
unfoldable pub trim_suffix : String → String → String
trim_suffix [] t = []
trim_suffix (c ∷ s) t = let rest = trim_suffix s t in if (c ∷ s) == t then [] else c ∷ rest

abbrev lower_letters : List Char
lower_letters =
    "a" ∷ "b" ∷ "c" ∷ "d" ∷ "e" ∷ "f" ∷ "g" ∷ "h" ∷ "i" ∷ "j" ∷ "k" ∷ "l" ∷ "m" ∷ "n" ∷ "o" ∷ "p"
    ∷ "q" ∷ "r" ∷ "s" ∷ "t" ∷ "u" ∷ "v" ∷ "w" ∷ "x" ∷ "y" ∷ "z" ∷ []

abbrev letter_or : Char → List Char → ℕ → Char
letter_or c [] i = c
letter_or c (d ∷ ds) zero = d
letter_or c (d ∷ ds) (suc i) = letter_or c ds i

-- `strings.ToLower(s)`
unfoldable pub to_lower : String → String
to_lower [] = []
to_lower (c ∷ s) =
    let rest = to_lower s in
    if ltb (code c) b'A' then c ∷ rest else letter_or c lower_letters (code c - b'A') ∷ rest

-- The first "/" of a text is replaced by a dot: `strings.Replace(s, "/", ".", 1)`.
unfoldable pub dot_first_slash : String → String
dot_first_slash [] = []
dot_first_slash (c ∷ s) =
    let rest = dot_first_slash s in if is_code b'/' c then "." ∷ s else c ∷ rest

-- The code of a letter in lower case.
abbrev lower_code : Char → ℕ
lower_code c = if not (ltb (code c) b'A') && not (ltb b'Z' (code c)) then code c + 32 else code c

-- `strings.EqualFold(s, t)`
unfoldable pub equal_fold : String → String → Bool
equal_fold [] [] = true
equal_fold (c ∷ s) (d ∷ t) = nat_eq (lower_code c) (lower_code d) && equal_fold s t
equal_fold _ _ = false
