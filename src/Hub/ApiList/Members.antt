-- ===== src/Hub/ApiList/Members.antt =====
-- The members of one entry of the list in `API_URLS`.
use text.Mathlib.TextLemmas.{append_assoc as <>_assoc, cons-append}
use Prim.Native.Char.{Char}
use swagger_hub_controller.Base.Text.{same_char}
use swagger_hub_controller.Base.{
  ℕ, String, ◌<>◌, false, Option, none, some, List, [], ◌≡◌, refl, sym, ap, ◌∙◌,
}
use swagger_hub_controller.Specification.References.{strip_prefix}
use swagger_hub_controller.Specification.Prefix.{strip_prefix-append}
use swagger_hub_controller.Hub.ApiUrls.{escape, quoted}
use swagger_hub_controller.Hub.ApiText.{code_points, read_text, plain}
use swagger_hub_controller.Hub.ApiText.Escapes.{read_text-escape}
use swagger_hub_controller.Hub.ApiList.{Entry, and_read, ended, named, read_url, read_members}

-- A text that begins with another character.
pub strip_other :
    (c d : Char) (y x t : String)
    → same_char c d ≡ false
    → strip_prefix (String.◌∷◌ c y) (String.◌∷◌ d x <> t) ≡ none
unfolding strip_prefix
strip_other c d y x t e = rw (cons-append d x t, strip_prefix, e) refl

pub brace_no_member : (y t : String) → strip_prefix (String.◌∷◌ "\"" y) ("}" <> t) ≡ none
unfolding same_char
brace_no_member y t = strip_other "\"" "}" y String.[] t refl

pub url_no_name : (t : String) → strip_prefix "\"name\":\"" ("\"url\":\"" <> t) ≡ none
unfolding strip_prefix same_char
url_no_name t =
    ap (strip_prefix "\"name\":\"") (cons-append "\"" "url\":\"" t)
    ∙ strip_other "n" "u" "ame\":\"" "rl\":\"" t refl

pub url_no_brace : (t : String) → strip_prefix "}" ("\"url\":\"" <> t) ≡ none
unfolding same_char
url_no_brace t = strip_other "}" "\"" String.[] "url\":\"" t refl

pub comma_no_brace : (t : String) → strip_prefix "}" ("," <> t) ≡ none
unfolding same_char
comma_no_brace t = strip_other "}" "," String.[] String.[] t refl

pub bracket_no_comma : strip_prefix "," "]" ≡ none
unfolding strip_prefix same_char
bracket_no_comma = refl

pub brace_no_bracket : (t : String) → strip_prefix "]" ("{" <> t) ≡ none
unfolding same_char
brace_no_bracket t = strip_other "]" "{" String.[] String.[] t refl

-- An entry that ends without a url.
pub url_left_out :
    (key : String) (ns : List ℕ) (rest : String)
    → read_url key ns ("}" <> rest) ≡ some ((ns, []), rest)
unfolding read_url
url_left_out key ns rest =
    ap (λ o. ended ns o (and_read (strip_prefix key ("}" <> rest)) after_key))
      (strip_prefix-append "}" rest)
  where
    after_key : String → Option (Entry × String)
    after_key v =
        and_read (read_text plain v)
          λ url. and_read (strip_prefix "}" url.1) λ rest. some ((ns, url.0), rest)

-- An entry that ends with a url.
pub url_there :
    (key : String) (ns : List ℕ) (t v rest : String)
    → strip_prefix "}" t ≡ none
    → strip_prefix key t ≡ some (escape v <> ("\"" <> ("}" <> rest)))
    → read_url key ns t ≡ some ((ns, code_points v), rest)
unfolding read_url
url_there key ns t v rest a b =
    ap (λ o. ended ns o (and_read (strip_prefix key t) after_key)) a
    ∙ ap (λ o. and_read o after_key) b
    ∙ ap (λ o. and_read o after_url) (read_text-escape v ("}" <> rest))
    ∙ ap (λ o. and_read o (λ rest. some ((ns, code_points v), rest))) (strip_prefix-append "}" rest)
  where
    after_url : List ℕ × String → Option (Entry × String)
    after_url url = and_read (strip_prefix "}" url.1) λ rest. some ((ns, url.0), rest)

    after_key : String → Option (Entry × String)
    after_key v = and_read (read_text plain v) after_url

-- A member in front of another text.
abbrev pub name_member : String → String
name_member v = quoted "name" <> (":" <> quoted v)

abbrev pub url_member : String → String
url_member v = quoted "url" <> (":" <> quoted v)

pub name_member-append :
    (v rest : String) → name_member v <> rest ≡ "\"name\":\"" <> (escape v <> ("\"" <> rest))
unfolding escape
name_member-append v rest =
    <>_assoc "\"name\"" (":" <> quoted v) rest
    ∙ ap (λ t. "\"name\"" <> t)
        (<>_assoc ":" (quoted v) rest
          ∙ ap (λ t. ":" <> t)
              (<>_assoc "\"" (escape v <> "\"") rest
                ∙ ap (λ t. "\"" <> t) (<>_assoc (escape v) "\"" rest)))
    ∙ ap (λ t. "\"name\"" <> t) (sym (<>_assoc ":" "\"" (escape v <> ("\"" <> rest))))
    ∙ sym (<>_assoc "\"name\"" ":\"" (escape v <> ("\"" <> rest)))

pub url_member-append :
    (v rest : String) → url_member v <> rest ≡ "\"url\":\"" <> (escape v <> ("\"" <> rest))
unfolding escape
url_member-append v rest =
    <>_assoc "\"url\"" (":" <> quoted v) rest
    ∙ ap (λ t. "\"url\"" <> t)
        (<>_assoc ":" (quoted v) rest
          ∙ ap (λ t. ":" <> t)
              (<>_assoc "\"" (escape v <> "\"") rest
                ∙ ap (λ t. "\"" <> t) (<>_assoc (escape v) "\"" rest)))
    ∙ ap (λ t. "\"url\"" <> t) (sym (<>_assoc ":" "\"" (escape v <> ("\"" <> rest))))
    ∙ sym (<>_assoc "\"url\"" ":\"" (escape v <> ("\"" <> rest)))

-- An entry with a name.
pub name_there :
    (t v rest : String)
    → strip_prefix "\"name\":\"" t ≡ some (escape v <> ("\"" <> rest))
    → read_members t ≡ read_url ",\"url\":\"" (code_points v) rest
unfolding read_members
name_there t v rest a =
    ap (λ o. named o t) a
    ∙ ap (λ o. and_read o (λ name. read_url ",\"url\":\"" name.0 name.1)) (read_text-escape v rest)

-- An entry without one.
pub name_left_out :
    (t : String) → strip_prefix "\"name\":\"" t ≡ none → read_members t ≡ read_url "\"url\":\"" [] t
unfolding read_members
name_left_out t a = ap (λ o. named o t) a

-- The url behind a comma.
pub comma_url_member-append :
    (v rest : String)
    → "," <> (url_member v <> rest) ≡ ",\"url\":\"" <> (escape v <> ("\"" <> rest))
comma_url_member-append v rest =
    ap (λ t. "," <> t) (url_member-append v rest)
    ∙ sym (<>_assoc "," "\"url\":\"" (escape v <> ("\"" <> rest)))
