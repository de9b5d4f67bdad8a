-- ===== src/Hub/ApiList/RoundTrip.antt =====
-- The reader of `API_URLS` on what `json.Marshal` writes.
use text.Mathlib.TextLemmas.{append_assoc as <>_assoc, nil-append, cons-append}
use text.Mathlib.TextEquality.{eq_iff}
use swagger_hub_controller.Base.Text.{same_char}
use swagger_hub_controller.Base.{
  ℕ, suc, ◌+◌, ◌-◌, ◌≤◌, String, ◌<>◌, Bool, true, false, Option, none, some, List, [], ◌∷◌, ◌++◌,
  map, if◌then◌else◌, ◌==◌, ◌≡◌, refl, ap, ◌∙◌, arith,
}
use swagger_hub_controller.Base.Lists.{length}
use swagger_hub_controller.Specification.References.{strip_prefix}
use swagger_hub_controller.Specification.Prefix.{strip_prefix-append}
use swagger_hub_controller.Hub.Mounts.{ApiUrl}
use swagger_hub_controller.Hub.ApiUrls.{
  escape, member, comma_separated, marshal_api_url, marshal_items, marshal_api_urls,
}
use swagger_hub_controller.Hub.ApiText.{code_points}
use swagger_hub_controller.Hub.ApiList.{
  Entry, and_read, read_members, read_entry, continued, read_entries, size, whole, bracketed,
  read_list, entry_of,
}
use swagger_hub_controller.Hub.ApiList.Members.{
  brace_no_member, url_no_name, url_no_brace, comma_no_brace, bracket_no_comma, brace_no_bracket,
  url_left_out, url_there, name_there, name_left_out, name_member, url_member, name_member-append,
  url_member-append, comma_url_member-append,
}

-- An entry in front of another text.
module _ (u : ApiUrl) (rest : String) where
  read_inside :
      (no_name no_url : Bool)
      → (no_name ≡ true → u.name ≡ "")
      → (no_url ≡ true → u.url ≡ "")
      → read_members (
          comma_separated (
            (if no_name then [] else name_member u.name ∷ [])
            ++ (if no_url then [] else url_member u.url ∷ []))
          <> ("}" <> rest))
        ≡ some (entry_of u, rest)
  unfolding comma_separated
  read_inside true true n m =
      ap read_members (nil-append ("}" <> rest))
      ∙ name_left_out ("}" <> rest) (brace_no_member "name\":\"" rest)
      ∙ url_left_out "\"url\":\"" [] rest
      ∙ rw (n refl, m refl) refl
  read_inside true false n m =
      let v = escape u.url <> ("\"" <> ("}" <> rest)) in
      ap read_members (url_member-append u.url ("}" <> rest))
      ∙ name_left_out ("\"url\":\"" <> v) (url_no_name v)
      ∙ url_there "\"url\":\"" [] ("\"url\":\"" <> v) u.url rest (url_no_brace v)
          (strip_prefix-append "\"url\":\"" v)
      ∙ rw (n refl) refl
  read_inside false true n m =
      let v = escape u.name <> ("\"" <> ("}" <> rest)) in
      ap read_members (name_member-append u.name ("}" <> rest))
      ∙ name_there ("\"name\":\"" <> v) u.name ("}" <> rest) (strip_prefix-append "\"name\":\"" v)
      ∙ url_left_out ",\"url\":\"" (code_points u.name) rest
      ∙ rw (m refl) refl
  read_inside false false n m =
      let v = escape u.url <> ("\"" <> ("}" <> rest)) in
      let more = "," <> (url_member u.url <> ("}" <> rest)) in
      ap read_members (
        <>_assoc (name_member u.name) ("," <> url_member u.url) ("}" <> rest)
        ∙ ap (λ x. name_member u.name <> x) (<>_assoc "," (url_member u.url) ("}" <> rest))
        ∙ name_member-append u.name more)
      ∙ name_there ("\"name\":\"" <> (escape u.name <> ("\"" <> more))) u.name more
          (strip_prefix-append "\"name\":\"" (escape u.name <> ("\"" <> more)))
      ∙ url_there ",\"url\":\"" (code_points u.name) more u.url rest
          (comma_no_brace (url_member u.url <> ("}" <> rest)))
          (ap (strip_prefix ",\"url\":\"") (comma_url_member-append u.url ("}" <> rest))
            ∙ strip_prefix-append ",\"url\":\"" v)

  read_entry-marshal_api_url : read_entry (marshal_api_url u <> rest) ≡ some (entry_of u, rest)
  unfolding marshal_api_url read_entry
  read_entry-marshal_api_url =
      ap read_entry (<>_assoc "{" (cs <> "}") rest ∙ ap (λ x. "{" <> x) (<>_assoc cs "}" rest))
      ∙ ap (λ o. and_read o read_members) (strip_prefix-append "{" (cs <> ("}" <> rest)))
      ∙ read_inside (u.name == "") (u.url == "") (λ e. (eq_iff u.name "").0 e)
          (λ e. (eq_iff u.url "").0 e)
    where
      cs : String
      cs = comma_separated (member "name" u.name ++ member "url" u.url)

read_entries-last :
    (n : ℕ) (s t : String) (e : Entry)
    → read_entry s ≡ some (e, t)
    → strip_prefix "," t ≡ none
    → read_entries (suc n) s ≡ some (e ∷ [], t)
unfolding read_entries
read_entries-last n s t e a b =
    ap (λ o. and_read o after_entry) a ∙ ap (λ o. continued e o t (read_entries n)) b
  where
    after_entry : Entry × String → Option (List Entry × String)
    after_entry e = continued e.0 (strip_prefix "," e.1) e.1 (read_entries n)

read_entries-more :
    (n : ℕ) (s t v w : String) (e : Entry) (es : List Entry)
    → read_entry s ≡ some (e, t)
    → strip_prefix "," t ≡ some v
    → read_entries n v ≡ some (es, w)
    → read_entries (suc n) s ≡ some (e ∷ es, w)
unfolding read_entries
read_entries-more n s t v w e es a b c =
    ap (λ o. and_read o after_entry) a
    ∙ ap (λ o. continued e o t (read_entries n)) b
    ∙ ap (λ o. and_read o (λ es. some (e ∷ es.0, es.1))) c
  where
    after_entry : Entry × String → Option (List Entry × String)
    after_entry e = continued e.0 (strip_prefix "," e.1) e.1 (read_entries n)

read_entries-marshal_items :
    (k : ℕ) (u : ApiUrl) (urls : List ApiUrl)
    → read_entries (suc (length urls + k)) (comma_separated (marshal_items (u ∷ urls)) <> "]")
      ≡ some (map entry_of (u ∷ urls), "]")
unfolding marshal_items comma_separated
read_entries-marshal_items k u [] =
    read_entries-last (0 + k) (marshal_api_url u <> "]") "]" (entry_of u)
      (read_entry-marshal_api_url u "]") bracket_no_comma
read_entries-marshal_items k u (v ∷ urls) =
    let others = comma_separated (marshal_items (v ∷ urls)) in
    ap (read_entries (suc (length (v ∷ urls) + k))) (
      <>_assoc (marshal_api_url u) ("," <> others) "]"
      ∙ ap (λ t. marshal_api_url u <> t) (<>_assoc "," others "]"))
    ∙ ap (λ n. read_entries (suc n) (marshal_api_url u <> ("," <> (others <> "]"))))
        (suc_length k urls)
    ∙ read_entries-more (suc (length urls + k)) (marshal_api_url u <> ("," <> (others <> "]")))
        ("," <> (others <> "]")) (others <> "]") "]" (entry_of u) (map entry_of (v ∷ urls))
        (read_entry-marshal_api_url u ("," <> (others <> "]")))
        (strip_prefix-append "," (others <> "]")) (read_entries-marshal_items k v urls)
  where
    suc_length : (k : ℕ) (l : List ApiUrl) → suc (length l) + k ≡ suc (length l + k)
    suc_length k l = omega arith

size-append : (s t : String) → size (s <> t) ≡ size s + size t
size-append String.[] t = ap size (nil-append t) ∙ omega arith
size-append (String.◌∷◌ c s) t = ap size (cons-append c s t) ∙ omega (arith, size-append s t)

-- Each entry has at least one character.
length-size :
    (u : ApiUrl) (urls : List ApiUrl)
    → length (u ∷ urls) ≤ size (comma_separated (marshal_items (u ∷ urls)))
unfolding marshal_items comma_separated marshal_api_url
length-size u [] = omega (arith, size-append "{" _)
length-size u (v ∷ urls) =
    let others = comma_separated (marshal_items (v ∷ urls)) in
    omega (
      arith,
      size-append (marshal_api_url u) ("," <> others),
      size-append "," others,
      length-size v urls,
    )

-- The first entry begins with its brace.
begins :
    (u : ApiUrl) (urls : List ApiUrl)
    → (t : String) × (comma_separated (marshal_items (u ∷ urls)) <> "]" ≡ "{" <> t)
unfolding marshal_items comma_separated marshal_api_url
begins u [] = (_, <>_assoc "{" _ "]")
begins u (v ∷ urls) = (
  _,
  <>_assoc (marshal_api_url u) ("," <> comma_separated (marshal_items (v ∷ urls))) "]"
      ∙ <>_assoc "{" _ _,
)

empty_list : bracketed (strip_prefix "]" "]") "]" ≡ some []
unfolding strip_prefix same_char
empty_list = refl

read_items :
    (urls : List ApiUrl)
    → let items = comma_separated (marshal_items urls) <> "]" in
      bracketed (strip_prefix "]" items) items ≡ some (map entry_of urls)
unfolding marshal_items comma_separated
read_items [] = ap (λ t. bracketed (strip_prefix "]" t) t) (nil-append "]") ∙ empty_list
read_items (u ∷ urls) =
    let items = comma_separated (marshal_items (u ∷ urls)) <> "]" in
    let (t, brace) = begins u urls in
    let enough : size items ≡ suc (length urls + (size items - suc (length urls))) =
      omega
        (arith, size-append (comma_separated (marshal_items (u ∷ urls))) "]", length-size u urls) in
    ap (λ o. bracketed o items) (ap (strip_prefix "]") brace ∙ brace_no_bracket t)
    ∙ ap (λ n. and_read (read_entries n items) at_end) enough
    ∙ ap (λ o. and_read o at_end)
        (read_entries-marshal_items (size items - suc (length urls)) u urls)
    ∙ ap (λ o. and_read o (whole (map entry_of (u ∷ urls)))) (strip_prefix-append "]" "")
  where
    at_end : List Entry × String → Option (List Entry)
    at_end es = and_read (strip_prefix "]" es.1) (whole es.0)

-- A reader that wants a comma between two entries, and between the name and the url of one, and
-- nothing behind the list, gives from the marshalled urls the code points of all names and urls,
-- in their order: no character of them is lost, and none ends a text or an entry early.
pub read_list-marshal_api_urls :
    (urls : List ApiUrl) → read_list (marshal_api_urls urls) ≡ some (map entry_of urls)
unfolding read_list marshal_api_urls
read_list-marshal_api_urls urls =
    ap (λ o. and_read o (λ t. bracketed (strip_prefix "]" t) t))
      (strip_prefix-append "[" (comma_separated (marshal_items urls) <> "]"))
    ∙ read_items urls
