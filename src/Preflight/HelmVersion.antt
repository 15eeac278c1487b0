-- ===== src/Preflight/HelmVersion.antt =====
-- `extractVersionFromString` of tools/preflight/helper.go: the last text of the form
-- `v\d+\.\d+(?:\.\d+)?` that is not followed by a dot, without its `v`.
use Prim.Native.Char.{Char, code}
use tvk_plugins.Base.{
  ℕ, zero, suc, String, Bool, false, Option, none, some, List, [], ◌∷◌, ◌++◌, ◌&&◌, if◌then◌else◌,
  ltb, nat_eq, not, length,
}
use tvk_plugins.Action.{Result, ok, err, failure}

-- A text as its characters, and back.
unfoldable pub chars : String → List Char
chars String.[] = []
chars (String.◌∷◌ c s) = c ∷ chars s

unfoldable pub of_chars : List Char → String
of_chars [] = String.[]
of_chars (c ∷ cs) = String.◌∷◌ c (of_chars cs)

abbrev pub is_digit : Char → Bool
is_digit c = not (ltb (code c) b'0') && not (ltb b'9' (code c))

abbrev pub is_char : ℕ → Char → Bool
is_char n c = nat_eq (code c) n

-- `\d*`, greedy: the digits and what follows them.
unfoldable pub span_digits : List Char → List Char × List Char
span_digits [] = ([], [])
span_digits (c ∷ cs) =
    let (ds, rest) = span_digits cs in if is_digit c then (c ∷ ds, rest) else ([], c ∷ cs)

-- `\d+`
unfoldable pub if_some : List Char × List Char → Option (List Char × List Char)
if_some ([], rest) = none
if_some (d ∷ ds, rest) = some (d ∷ ds, rest)

unfoldable pub number : List Char → Option (List Char × List Char)
unfolding span_digits if_some
number cs = if_some (span_digits cs)

-- `\.\d+`, with the dot
abbrev prepend : Char → Option (List Char × List Char) → Option (List Char × List Char)
prepend c none = none
prepend c (some (ds, rest)) = some (c ∷ ds, rest)

unfoldable pub dot_number : List Char → Option (List Char × List Char)
unfolding number
dot_number [] = none
dot_number (c ∷ cs) = if is_char b'.' c then prepend c (number cs) else none

-- `(?:\.\d+)?`, which takes the group where it can.
abbrev then_patch : List Char → List Char → Option (List Char × List Char) → List Char × List Char
then_patch front rest none = (front, rest)
then_patch front rest (some (patch, rest')) = (front ++ patch, rest')

abbrev then_minor : List Char → Option (List Char × List Char) → Option (List Char × List Char)
then_minor major none = none
then_minor major (some (minor, rest)) = some (then_patch (major ++ minor) rest (dot_number rest))

abbrev then_major : Option (List Char × List Char) → Option (List Char × List Char)
then_major none = none
then_major (some (major, rest)) = then_minor major (dot_number rest)

-- The expression at the head of a text: what it matches behind the `v`, and the rest.
unfoldable pub match_here : List Char → Option (List Char × List Char)
unfolding dot_number
match_here [] = none
match_here (c ∷ cs) = if is_char b'v' c then then_major (number cs) else none

-- A match that a dot follows is no version.
abbrev is_followed_by_dot : List Char → Bool
is_followed_by_dot [] = false
is_followed_by_dot (c ∷ cs) = is_char b'.' c

-- The loop over `FindAllStringIndex`: the valid match seen last, `v` left off. On fuel, one unit
-- for each character.
unfoldable pub last_match : ℕ → List Char → Option (List Char) → Option (List Char)
unfolding match_here
last_match zero cs found = found
last_match (suc fuel) [] found = found
last_match (suc fuel) (c ∷ cs) found = elim (match_here (c ∷ cs)) [
  | none ↦ last_match fuel cs found
  | some (version, rest) ↦
      last_match fuel rest (if is_followed_by_dot rest then found else some version)
]

abbrev or_no_version : Option (List Char) → Result String
or_no_version none = err (failure "no version of type vX.Y.Z found in the string")
or_no_version (some version) = ok (of_chars version)

unfoldable pub extract_version_from_string : String → Result String
unfolding last_match of_chars chars
extract_version_from_string str =
    let cs = chars str in or_no_version (last_match (length cs) cs none)
