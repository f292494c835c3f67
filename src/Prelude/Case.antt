-- ===== src/Prelude/Case.antt =====
-- Texts as code points, for the searches that ignore case: `str::to_lowercase`, `str::contains` and
-- `str::starts_with` with a pattern of ASCII letters.
use Prim.Native.Nat.{ℕ, ◌+◌}
use Prim.Native.Char.{code}
use mathlib.Core.Path.{◌≡◌, refl}
use mathlib.Core.Bool.{Bool, true, false, ◌&&◌, ◌||◌}
use mathlib.Core.List.{List, [], ◌∷◌}
use solana_compliance_relaye.Prelude.Tests.{leb, ◌==◌, if◌then◌else◌}
use solana_compliance_relaye.Prelude.Text.{String}

abbrev pub codes : String → List ℕ
codes String.[] = []
codes (String.◌∷◌ c s) = code c ∷ codes s

-- What a letter becomes before the rest: the ASCII capitals, and the two other letters whose lower
-- case has ASCII letters (U+0130 and U+212A). Any other letter is left as it is: its lower case is
-- outside ASCII, as it is itself, so that no search below tells the two apart.
lower_before : ℕ → List ℕ → List ℕ
lower_before c rest =
    if leb 65 c && leb c 90
    then (c + 32) ∷ rest
    else if c == 0x130
    then 0x69 ∷ 0x307 ∷ rest
    else if c == 0x212a
    then 0x6b ∷ rest
    else c ∷ rest

unfoldable pub lower_codes : List ℕ → List ℕ
unfolding lower_before
lower_codes [] = []
lower_codes (c ∷ cs) = lower_before c (lower_codes cs)

unfoldable pub codes_start_with : List ℕ → List ℕ → Bool
codes_start_with cs [] = true
codes_start_with [] (p ∷ ps) = false
codes_start_with (c ∷ cs) (p ∷ ps) = c == p && codes_start_with cs ps

unfoldable pub codes_contain : List ℕ → List ℕ → Bool
unfolding codes_start_with
codes_contain [] ps = codes_start_with [] ps
codes_contain (c ∷ cs) ps = codes_start_with (c ∷ cs) ps || codes_contain cs ps

-- `s.to_lowercase().contains(p)` and `s.to_lowercase().starts_with(p)`, for `p` of small ASCII
-- letters and spaces; and `s.contains(p)`.
unfoldable pub lower_contains : String → String → Bool
unfolding lower_codes codes_contain
lower_contains s p = codes_contain (lower_codes (codes s)) (codes p)

unfoldable pub lower_starts_with : String → String → Bool
unfolding lower_codes codes_start_with
lower_starts_with s p = codes_start_with (lower_codes (codes s)) (codes p)

unfoldable pub contains : String → String → Bool
unfolding codes_contain
contains s p = codes_contain (codes s) (codes p)

lower_test : lower_contains "Bundle was DROPPED by leader" "dropped" ≡ true
unfolding lower_contains
lower_test = refl
