-- ===== src/Text/Decimal.antt =====
-- Numbers as decimal text: `strconv.Itoa` and the `%02d` of `fmt`, on numbers that are not negative.
use Prim.Native.Char.{Char}
use Prim.Native.String.{String, [], ◌∷◌}
use Prim.Native.Nat.{◌/◌, ◌%◌}
use tvk_plugins.Base.{ℕ, zero, suc, List, [], ◌∷◌, if◌then◌else◌, nat_eq, ltb, ◌<>◌}

abbrev pub numerals : List Char
numerals = "0" ∷ "1" ∷ "2" ∷ "3" ∷ "4" ∷ "5" ∷ "6" ∷ "7" ∷ "8" ∷ "9" ∷ []

abbrev char_at : List Char → ℕ → Char
char_at [] i = "0"
char_at (c ∷ cs) zero = c
char_at (c ∷ cs) (suc i) = char_at cs i

unfoldable pub digit : ℕ → Char
digit n = char_at numerals n

-- The digits of `n` in front of `out`; fuel above `n` is enough.
unfoldable pub digits : ℕ → ℕ → String → String
unfolding digit
digits zero n out = out
digits (suc fuel) n out =
    let more = digits fuel (n / 10) (digit (n % 10) ∷ out) in
    if nat_eq (n / 10) 0 then digit (n % 10) ∷ out else more

unfoldable pub itoa : ℕ → String
unfolding digits
itoa n = digits (suc n) n ""

unfoldable pub two_digits : ℕ → String
unfolding itoa
two_digits n = if ltb n 10 then "0" <> itoa n else itoa n
