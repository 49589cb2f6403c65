-- ===== src/Collect/Numbers.antt =====
-- What the collection uses of the language's parsing: words of a line and numbers.
use Prim.Native.Char.{Char, code}
use checkc.Base.{
  ℕ, ◌+◌, ◌-◌, ◌*◌, ◌^◌, String, Bool, true, false, not, ◌&&◌, ◌||◌, List, [], ◌∷◌, Outcome, ok,
  err, ◌>>=◌, ltb, leb, ◌==◌, nat_eq, string_eq, if◌then◌else◌, Option, none, some,
  conversion_failed, Error,
}
use checkc.Base.Sets.{filter}
use checkc.Base.Text.{◌<>◌, show_ℕ}
use checkc.Base.Int.{ℤ, pos, negsuc}
use checkc.Base.Paths.{prepend}

-- `{}` of an `i32`.
unfoldable pub show_int : ℤ → String
show_int (pos n) = show_ℕ n
show_int (negsuc n) = "-" <> show_ℕ (n + 1)

-- `char::is_ascii_whitespace`.
unfoldable pub is_ascii_whitespace : ℕ → Bool
is_ascii_whitespace c = c == 32 || c == 9 || c == 10 || c == 12 || c == 13

unfoldable pub pieces : String → List String
pieces String.[] = "" ∷ []
pieces (String.◌∷◌ c s) =
    let rest = pieces s in if is_ascii_whitespace (code c) then "" ∷ rest else prepend c rest

-- `split_ascii_whitespace`.
unfoldable pub words : String → List String
unfolding pieces prepend is_ascii_whitespace
words s = filter (λ w. not (w == "")) (pieces s)

-- `char::to_digit(10)` is there.
unfoldable pub is_digit : ℕ → Bool
is_digit c = leb 48 c && leb c 57

unfoldable pub invalid_digit : Error
invalid_digit = conversion_failed "parse error: invalid digit found in string"

unfoldable pub too_large : Error
too_large = conversion_failed "parse error: number too large to fit in target type"

-- One step of the parser of a `u32`: the digit is looked at before the overflow.
unfoldable pub push_digit : ℕ → Char → Outcome ℕ
push_digit n c =
    if not (is_digit (code c))
    then err invalid_digit
    else if ltb (n * 10 + (code c - 48)) (2 ^ 32)
    then ok (n * 10 + (code c - 48))
    else err too_large

unfoldable pub parse_digits : ℕ → String → Outcome ℕ
parse_digits n String.[] = ok n
parse_digits n (String.◌∷◌ c s) = do m ← push_digit n c; parse_digits m s

-- `str::parse::<u32>`, with its error as `IdMapping::try_from` wraps it: a `+` may stand in front of
-- at least one digit.
unfoldable pub parse_u32 : String → Outcome ℕ
parse_u32 String.[] = err (conversion_failed "parse error: cannot parse integer from empty string")
parse_u32 (String.◌∷◌ c String.[]) = push_digit 0 c
parse_u32 (String.◌∷◌ c (String.◌∷◌ d s)) =
    if code c == 43
    then parse_digits 0 (String.◌∷◌ d s)
    else parse_digits 0 (String.◌∷◌ c (String.◌∷◌ d s))

unfoldable pub decimal : ℕ → String → Option ℕ
decimal n String.[] = some n
decimal n (String.◌∷◌ c s) =
    let rest = decimal (n * 10 + (code c - 48)) s in if is_digit (code c) then rest else none

-- The number of a sign and a magnitude, within the bounds of an `i32`.
unfoldable pub signed : Bool → ℕ → Option ℤ
signed true n =
    if n == 0 then some (pos 0) else if leb n (2 ^ 31) then some (negsuc (n - 1)) else none
signed false n = if ltb n (2 ^ 31) then some (pos n) else none

unfoldable pub signed_option : Bool → Option ℕ → Option ℤ
signed_option negative none = none
signed_option negative (some n) = signed negative n

-- `str::parse::<i32>().ok()`.
unfoldable pub parse_i32 : String → Option ℤ
parse_i32 String.[] = none
parse_i32 (String.◌∷◌ c String.[]) = signed_option false (decimal 0 (String.◌∷◌ c String.[]))
parse_i32 (String.◌∷◌ c (String.◌∷◌ d s)) =
    if code c == 45
    then signed_option true (decimal 0 (String.◌∷◌ d s))
    else if code c == 43
    then signed_option false (decimal 0 (String.◌∷◌ d s))
    else signed_option false (decimal 0 (String.◌∷◌ c (String.◌∷◌ d s)))

-- `contains(|char| char.is_ascii_digit())`.
unfoldable pub has_digit : String → Bool
has_digit String.[] = false
has_digit (String.◌∷◌ c s) = is_digit (code c) || has_digit s

-- `replace("\t", " ")`.
unfoldable pub tabs_to_spaces : String → String
tabs_to_spaces String.[] = ""
tabs_to_spaces (String.◌∷◌ c s) =
    let rest = tabs_to_spaces s in if code c == 9 then " " <> rest else String.◌∷◌ c rest
