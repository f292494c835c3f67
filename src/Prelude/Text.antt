-- ===== src/Prelude/Text.antt =====
-- Text: equality, prefixes, concatenation and decimal numerals.
use Prim.Native.Nat.{ℕ, zero, suc, ◌/◌, ◌%◌}
use Prim.Native.Char.{code}
use mathlib.Core.Path.{◌≡◌, refl}
use mathlib.Core.Bool.{Bool, true, false, ◌&&◌}
use mathlib.Core.Option.{Option, none, some}
use text.Mathlib.TextPositions.{eq_refl}
use solana_compliance_relaye.Prelude.Tests.{ltb, ◌==◌, if◌then◌else◌}
pub use Prim.Native.String.{String, len}
pub use Prim.Native.String.{◌++◌ as ◌+++◌}
pub use text.Mathlib.Text.{◌==◌ as str_eq, starts_with}
pub use text.Mathlib.TextEquality.{eq_iff}

-- `str::is_empty`.
abbrev pub is_empty : String → Bool
is_empty s = str_eq s ""

-- `Iterator::all` over `str::chars`.
abbrev pub all_chars : (ℕ → Bool) → String → Bool
all_chars p String.[] = true
all_chars p (String.◌∷◌ c s) = p (code c) && all_chars p s

-- Equality of optional texts, as `PartialEq` of `Option<String>`.
abbrev pub opt_eq : Option String → Option String → Bool
opt_eq none none = true
opt_eq (some a) (some b) = str_eq a b
opt_eq _ _ = false

-- What is left behind a prefix: `str::strip_prefix`.
abbrev pub strip_prefix : String → String → Option String
strip_prefix s String.[] = some s
strip_prefix String.[] (String.◌∷◌ _ _) = none
strip_prefix (String.◌∷◌ c s) (String.◌∷◌ d p) = if code c == code d then strip_prefix s p else none

digit : ℕ → String
digit d =
    if d == 0
    then "0"
    else if d == 1
    then "1"
    else if d == 2
    then "2"
    else if d == 3
    then "3"
    else if d == 4
    then "4"
    else if d == 5
    then "5"
    else if d == 6
    then "6"
    else if d == 7
    then "7"
    else if d == 8
    then "8"
    else "9"

-- The decimal digits of a number of at most `fuel` digits.
digits : ℕ → ℕ → String
unfolding digit
digits zero n = ""
digits (suc fuel) n =
    let rest = digits fuel (n / 10) +++ digit (n % 10) in if ltb n 10 then digit n else rest

-- `u64::to_string`: twenty digits are enough for 64 bits.
unfoldable pub decimal : ℕ → String
unfolding digits
decimal n = digits 20 n

decimal_test : decimal 1500000000 ≡ "1500000000"
unfolding decimal
decimal_test = refl

-- A comparison of a text with itself, and the form in which the tactics read a comparison.
pub str_eq_self : (s : String) → str_eq s s ≡ true
str_eq_self s = eq_refl s
