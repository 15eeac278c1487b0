-- ===== src/Paths.antt =====
-- What the code uses of Go's `path/filepath` where the separator is "/": `Clean`, `Join`, `Dir` and
-- `Rel`. A clean path is a route: whether it starts at the root, how many ".." it begins with, and
-- the names behind them.
pub mod Clean
pub mod Relative
use Prim.Native.String.{[], ◌∷◌}
use tvk_plugins.Base.{
  ℕ, zero, suc, String, Bool, true, false, List, [], ◌∷◌, ◌++◌, if◌then◌else◌, ◌==◌, ◌||◌, ◌<>◌,
  nat_eq, length,
}
use tvk_plugins.Action.{Result, ok, err, failure}
use tvk_plugins.Text.{split, join, is_code}

pub record Route : Type 0 where
  pub rooted : Bool
  pub ups : ℕ
  pub names : List String

-- One element, in front of those behind it: how many of their ".." have found no name to take
-- away yet, and the names that are left. "" and "." are left out, and a name is taken away by a ".."
-- behind it.
unfoldable pub resolve_one : String → ℕ × List String → ℕ × List String
resolve_one p (n, out) =
    if p == "" || p == "."
    then (n, out)
    else if p == ".."
    then (suc n, out)
    else elim n [ zero ↦ (0, p ∷ out) | suc m ↦ (m, out) ]

unfoldable pub resolve : List String → ℕ × List String
unfolding resolve_one
resolve [] = (0, [])
resolve (p ∷ ps) = resolve_one p (resolve ps)

abbrev pub is_rooted : String → Bool
is_rooted [] = false
is_rooted (c ∷ s) = is_code b'/' c

-- A ".." at the root is left out.
unfoldable pub route : String → Route
unfolding resolve split
route s =
    let (n, out) = resolve (split "/" s) in
    let rooted = is_rooted s in
    record { rooted = rooted; ups = if rooted then 0 else n; names = out }

abbrev pub climbs : ℕ → List String
climbs zero = []
climbs (suc n) = ".." ∷ climbs n

abbrev pub elements : Route → List String
elements r = climbs r.ups ++ r.names

abbrev or_dot : List String → List String
or_dot [] = "." ∷ []
or_dot (p ∷ ps) = p ∷ ps

unfoldable pub print : Route → String
unfolding join
print r = if r.rooted then "/" <> join "/" (elements r) else join "/" (or_dot (elements r))

-- `filepath.Clean`
unfoldable pub clean : String → String
unfolding route print
clean s = print (route s)

-- `filepath.Join`: empty elements at the front are left out.
unfoldable pub join_path : List String → String
unfolding clean join
join_path [] = ""
join_path (e ∷ es) = if e == "" then join_path es else clean (join "/" (e ∷ es))

abbrev has_slash : String → Bool
has_slash [] = false
has_slash (c ∷ s) = is_code b'/' c || has_slash s

unfoldable pub up_to_slash : String → String
up_to_slash [] = []
up_to_slash (c ∷ s) = let rest = up_to_slash s in if has_slash (c ∷ s) then c ∷ rest else []

-- `filepath.Dir`
unfoldable pub dir : String → String
unfolding clean up_to_slash
dir s = clean (up_to_slash s)

-- The end of `filepath.Rel`, behind the elements that both have: out of what is left of the base and
-- into what is left of the target. Nobody knows the way back from a "..".
unfoldable pub descend : List String → List String → Result String
unfolding join
descend [] ts = ok (join "/" ts)
descend (b ∷ bs) ts =
    if b == ".."
    then err (failure "Rel: can't make the target relative to the base")
    else ok (join "/" (".." ∷ climbs (length bs) ++ ts))

unfoldable pub walk : List String → List String → Result String
unfolding descend
walk (b ∷ bs) (t ∷ ts) = let rest = walk bs ts in if b == t then rest else descend (b ∷ bs) (t ∷ ts)
walk bs ts = descend bs ts

abbrev xor : Bool → Bool → Bool
xor true true = false
xor false false = false
xor _ _ = true

-- `filepath.Rel`
unfoldable pub rel : String → String → Result String
unfolding clean route walk
rel base target =
    let b = route base in
    let t = route target in
    if clean base == clean target
    then ok "."
    else if xor b.rooted t.rooted
    then err (failure "Rel: can't make the target relative to the base")
    else walk (elements b) (elements t)
