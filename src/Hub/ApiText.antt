-- ===== src/Hub/ApiText.antt =====
-- A reader of the texts in `API_URLS`.
pub mod Digits
pub mod Escapes
use Prim.Native.Char.{code}
use swagger_hub_controller.Base.{
  ℕ, zero, suc, ◌+◌, ◌*◌, ◌-◌, String, Option, none, some, List, [], ◌∷◌, if◌then◌else◌, nat_eq,
  ltb,
}

-- The code points of a text.
abbrev pub code_points : String → List ℕ
code_points String.[] = []
code_points (String.◌∷◌ c s) = code c ∷ code_points s

-- How far the reader of a text is: between characters, behind a backslash, or in the digits of a code
-- point, of which so many are missing.
pub data Mode : Type 0 where
  plain : Mode
  escaped : Mode
  digits : ℕ → ℕ → Mode

-- What one character does: the text ends, a code point is read, the reader goes on, or fails.
pub data Reading : Type 0 where
  stop : Reading
  emit : ℕ → Reading
  shift : Mode → Reading
  reject : Reading

pub digit_value : ℕ → Option ℕ
digit_value n =
    if ltb n 48
    then none
    else if ltb n 58
    then some (n - 48)
    else if ltb n 97
    then none
    else if ltb n 103
    then some (n - 87)
    else none

pub read_escaped : ℕ → Reading
read_escaped n =
    if nat_eq n 34
    then emit 34
    else if nat_eq n 92
    then emit 92
    else if nat_eq n 47
    then emit 47
    else if nat_eq n 98
    then emit 8
    else if nat_eq n 102
    then emit 12
    else if nat_eq n 110
    then emit 10
    else if nat_eq n 114
    then emit 13
    else if nat_eq n 116
    then emit 9
    else if nat_eq n 117
    then shift (digits 3 0)
    else reject

pub read_one : Mode → ℕ → Reading
unfolding read_escaped digit_value
read_one plain n =
    if nat_eq n 34
    then stop
    else if nat_eq n 92
    then shift escaped
    else if ltb n 32
    then reject
    else emit n
read_one escaped n = read_escaped n
read_one (digits zero v) n = elim (digit_value n) [ none ↦ reject | some d ↦ emit (16 * v + d) ]
read_one (digits (suc k) v) n = elim (digit_value n) [
  | none ↦ reject
  | some d ↦ shift (digits k (16 * v + d))
]

-- A code point in front of what is read next.
abbrev pub push : ℕ → Option (List ℕ × String) → Option (List ℕ × String)
push n none = none
push n (some (ns, s)) = some (n ∷ ns, s)

-- A text of JSON behind its quote: its code points, and what follows its last quote.
pub read_text : Mode → String → Option (List ℕ × String)
unfolding read_one
read_text m String.[] = none
read_text m (String.◌∷◌ c s) = elim (read_one m (code c)) [
  | stop ↦ some ([], s)
  | emit n ↦ push n (read_text plain s)
  | shift m' ↦ read_text m' s
  | reject ↦ none
]
