-- ===== src/Base/Text.antt =====
-- Characters and decimal numbers, for `strings`, `net/url` and `fmt`.
use Prim.Native.Nat.{ℕ, zero, suc, ◌/◌, ◌%◌, compare as compare_ℕ}
use Prim.Native.Char.{Char, code}
use Prim.Native.String.{String, ◌++◌}
use mathlib.Core.Bool.{Bool, ◌&&◌}
use text.Mathlib.Text.{is_eq, is_lt, is_le}
use swagger_hub_controller.Base.Tests.{if◌then◌else◌}

unfoldable pub same_char : Char → Char → Bool
same_char c d = is_eq (compare_ℕ (code c) (code d))

-- A character lies in a range of characters, its ends included.
abbrev pub in_range : Char → Char → Char → Bool
in_range lo hi c = is_le (compare_ℕ (code lo) (code c)) && is_le (compare_ℕ (code c) (code hi))

abbrev pub snoc : String → Char → String
snoc s c = s ++ String.◌∷◌ c String.[]

unfoldable pub digit_at : String → ℕ → String
digit_at String.[] n = ""
digit_at (String.◌∷◌ c s) zero = String.◌∷◌ c String.[]
digit_at (String.◌∷◌ c s) (suc n) = digit_at s n

-- `%d`; a number has fewer digits than its value plus one.
decimal_fuel : ℕ → ℕ → String
decimal_fuel zero n = ""
decimal_fuel (suc f) n =
    let front = decimal_fuel f (n / 10) in
    if is_lt (compare_ℕ n 10)
    then digit_at "0123456789" n
    else front ++ digit_at "0123456789" (n % 10)

unfoldable pub decimal : ℕ → String
unfolding decimal_fuel digit_at
decimal n = decimal_fuel (suc n) n

-- The character at the place in the second text at which it stands in the first.
unfoldable pub translate : String → String → Char → Char
unfolding same_char
translate (String.◌∷◌ u us) (String.◌∷◌ l ls) c = if same_char u c then l else translate us ls c
translate _ _ c = c

-- `strings.ToLower` on ASCII
unfoldable pub to_lower : String → String
unfolding translate
to_lower String.[] = String.[]
to_lower (String.◌∷◌ c s) =
    String.◌∷◌ (translate "ABCDEFGHIJKLMNOPQRSTUVWXYZ" "abcdefghijklmnopqrstuvwxyz" c) (to_lower s)
