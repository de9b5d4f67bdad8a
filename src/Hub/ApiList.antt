-- ===== src/Hub/ApiList.antt =====
-- A reader of lists such as that in `API_URLS`: JSON with no spaces, whose entries may have a name and then a
-- url.
pub mod Members
pub mod RoundTrip
use swagger_hub_controller.Base.{
  ℕ, zero, suc, ◌+◌, String, Option, none, some, List, [], ◌∷◌, if◌then◌else◌, ◌==◌,
}
use swagger_hub_controller.Specification.References.{strip_prefix}
use swagger_hub_controller.Hub.Mounts.{ApiUrl}
use swagger_hub_controller.Hub.ApiText.{code_points, read_text, plain}

-- The code points of a name and of a url.
abbrev pub Entry : Type 0
Entry = List ℕ × List ℕ

abbrev pub and_read : {A B : Type 0} → Option A → (A → Option B) → Option B
and_read none f = none
and_read (some a) f = f a

-- The entry has ended without a url, or what is read else.
abbrev pub ended : List ℕ → Option String → Option (Entry × String) → Option (Entry × String)
ended name (some rest) other = some ((name, []), rest)
ended name none other = other

-- The end of an entry: its brace, or the url, behind what introduces it, and then the brace.
pub read_url : String → List ℕ → String → Option (Entry × String)
read_url key name t = ended name (strip_prefix "}" t) (
    and_read (strip_prefix key t) λ v.
      and_read (read_text plain v)
        λ url. and_read (strip_prefix "}" url.1) λ rest. some ((name, url.0), rest))

-- A url that follows a name has a comma in front.
abbrev pub named : Option String → String → Option (Entry × String)
named (some v) t = and_read (read_text plain v) λ name. read_url ",\"url\":\"" name.0 name.1
named none t = read_url "\"url\":\"" [] t

pub read_members : String → Option (Entry × String)
unfolding read_url
read_members t = named (strip_prefix "\"name\":\"" t) t

pub read_entry : String → Option (Entry × String)
unfolding read_members
read_entry s = and_read (strip_prefix "{" s) read_members

-- An entry is the last one unless a comma follows it.
abbrev pub continued :
    Entry
    → Option String
    → String
    → (String → Option (List Entry × String))
    → Option (List Entry × String)
continued e none rest more = some (e ∷ [], rest)
continued e (some t) rest more = and_read (more t) λ es. some (e ∷ es.0, es.1)

-- One or more entries with commas between them, at most so many.
pub read_entries : ℕ → String → Option (List Entry × String)
unfolding read_entry
read_entries zero s = none
read_entries (suc n) s =
    and_read (read_entry s) λ e. continued e.0 (strip_prefix "," e.1) e.1 (read_entries n)

-- The number of characters of a text; no text has more entries.
abbrev pub size : String → ℕ
size String.[] = 0
size (String.◌∷◌ c s) = suc (size s)

-- Nothing follows the list.
abbrev pub whole : List Entry → String → Option (List Entry)
whole es rest = if rest == "" then some es else none

abbrev pub bracketed : Option String → String → Option (List Entry)
bracketed (some rest) t = whole [] rest
bracketed none t =
    and_read (read_entries (size t) t) λ es. and_read (strip_prefix "]" es.1) (whole es.0)

-- A whole text that is a list.
pub read_list : String → Option (List Entry)
unfolding read_entries
read_list s = and_read (strip_prefix "[" s) λ t. bracketed (strip_prefix "]" t) t

-- What is read of a url.
abbrev pub entry_of : ApiUrl → Entry
entry_of u = (code_points u.name, code_points u.url)
