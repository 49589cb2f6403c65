-- ===== src/Base/Text.antt =====
-- Rust's text: `format!`, `join`, `contains`, decimal numbers, and the components of a path.
use Prim.Native.Nat.{ℕ, zero, suc, ◌/◌, ◌%◌}
use Prim.Native.String.{String, ◌++◌}
use mathlib.Core.Bool.{Bool, true, false}
use mathlib.Core.List.{List, [], ◌∷◌}
use text.Mathlib.Text.{find?}
use checkc.Base.Tests.{if◌then◌else◌, is_some, nat_beq, ltb}

infixr 65 ◌<>◌
abbrev pub ◌<>◌ : String → String → String
s <> t = s ++ t

-- `slice.join(sep)`.
unfoldable pub join : String → List String → String
join sep [] = ""
join sep (s ∷ []) = s
join sep (s ∷ t ∷ rest) = s <> sep <> join sep (t ∷ rest)

-- `s.contains(t)` for a text `t`.
unfoldable pub text_contains : String → String → Bool
text_contains s t = is_some (find? s t)

unfoldable pub show_digit : ℕ → String
show_digit d =
    if nat_beq d 0
    then "0"
    else if nat_beq d 1
    then "1"
    else if nat_beq d 2
    then "2"
    else if nat_beq d 3
    then "3"
    else if nat_beq d 4
    then "4"
    else if nat_beq d 5
    then "5"
    else if nat_beq d 6
    then "6"
    else if nat_beq d 7
    then "7"
    else if nat_beq d 8
    then "8"
    else "9"

unfoldable pub show_fuel : ℕ → ℕ → String
show_fuel zero n = show_digit (n % 10)
show_fuel (suc f) n =
    let rest = show_fuel f (n / 10) in
    if ltb n 10 then show_digit n else rest <> show_digit (n % 10)

-- `{}` of an unsigned number. A number has no more digits than its value, so `n` is fuel enough.
unfoldable pub show_ℕ : ℕ → String
unfolding show_fuel show_digit
show_ℕ n = show_fuel n n

-- `{}` of a `bool`.
unfoldable pub show_bool : Bool → String
show_bool true = "true"
show_bool false = "false"
