-- ===== src/Hub/ApiUrls.antt =====
-- `json.Marshal(apiURLs)`: `encoding/json` on a list of `apiURL`, with HTML escaping.
use Prim.Native.Nat.{compare as compare_ℕ}
use Prim.Native.Char.{Char, code}
use text.Mathlib.Text.{is_lt}
use swagger_hub_controller.Base.{
  ℕ, ◌/◌, ◌%◌, String, ◌<>◌, ◌||◌, List, [], ◌∷◌, ◌++◌, if◌then◌else◌, ◌==◌, nat_eq,
}
use swagger_hub_controller.Base.Text.{digit_at, same_char}
use swagger_hub_controller.Hub.Mounts.{ApiUrl}

-- A hexadecimal digit.
abbrev hex : ℕ → String
hex n = digit_at "0123456789abcdef" n

-- One character of a text.
unfoldable pub escape_char : Char → String
unfolding same_char digit_at
escape_char c =
    if same_char "\"" c
    then "\\\""
    else if same_char "\\" c
    then "\\\\"
    else if nat_eq (code c) 8
    then "\\b"
    else if nat_eq (code c) 12
    then "\\f"
    else if nat_eq (code c) 10
    then "\\n"
    else if nat_eq (code c) 13
    then "\\r"
    else if nat_eq (code c) 9
    then "\\t"
    else if is_lt (compare_ℕ (code c) 32) || same_char "<" c || same_char ">" c || same_char "&" c
    then "\\u00" <> (hex (code c / 16) <> hex (code c % 16))
    else if nat_eq (code c) 0x2028
    then "\\u2028"
    else if nat_eq (code c) 0x2029
    then "\\u2029"
    else String.◌∷◌ c String.[]

unfoldable pub escape : String → String
unfolding escape_char
escape String.[] = String.[]
escape (String.◌∷◌ c s) = escape_char c <> escape s

-- A text in quotes.
abbrev pub quoted : String → String
quoted s = "\"" <> (escape s <> "\"")

-- A member with `omitempty`.
abbrev pub member : String → String → List String
member key value = if value == "" then [] else (quoted key <> (":" <> quoted value)) ∷ []

-- The items with commas between them.
unfoldable pub comma_separated : List String → String
comma_separated [] = ""
comma_separated (s ∷ []) = s
comma_separated (s ∷ t ∷ rest) = s <> ("," <> comma_separated (t ∷ rest))

unfoldable pub marshal_api_url : ApiUrl → String
unfolding escape comma_separated
marshal_api_url u = "{" <> (comma_separated (member "name" u.name ++ member "url" u.url) <> "}")

unfoldable pub marshal_items : List ApiUrl → List String
unfolding marshal_api_url
marshal_items [] = []
marshal_items (u ∷ urls) = marshal_api_url u ∷ marshal_items urls

unfoldable pub marshal_api_urls : List ApiUrl → String
unfolding marshal_items
marshal_api_urls urls = "[" <> (comma_separated (marshal_items urls) <> "]")
