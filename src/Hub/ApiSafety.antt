-- ===== src/Hub/ApiSafety.antt =====
-- The characters of `API_URLS`.
use Prim.Native.Char.{Char, code}
use Prim.Native.Nat.{compare as compare_ℕ}
use text.Mathlib.Text.{is_lt}
use text.Mathlib.TextLemmas.{cons-append, nil-append}
use swagger_hub_controller.Base.{
  ℕ, zero, suc, ◌/◌, ◌%◌, String, ◌<>◌, Bool, true, false, ◌||◌, not, List, [], ◌∷◌, ◌++◌,
  if◌then◌else◌, ◌==◌, ◌≡◌, refl, sym, subst, arith, nat_eq, ltb,
}
use swagger_hub_controller.Base.Lists.{All, All-append}
use swagger_hub_controller.Base.Text.{same_char, digit_at}
use swagger_hub_controller.Hub.Mounts.{ApiUrl}
use swagger_hub_controller.Hub.ApiUrls.{
  escape_char, escape, quoted, member, comma_separated, marshal_api_url, marshal_items,
  marshal_api_urls,
}

-- No control character, `<`, `>` or `&`, and no separator of lines or paragraphs.
abbrev pub is_inert : ℕ → Bool
is_inert n =
    not
      (ltb n 32 || nat_eq n 60 || nat_eq n 62 || nat_eq n 38 || nat_eq n 0x2028 || nat_eq n 0x2029)

-- All characters of the text are of this kind.
abbrev pub Inert : String → Type 0
Inert String.[] = Unit
Inert (String.◌∷◌ c s) = (is_inert (code c) ≡ true) × Inert s

Inert-append : (s t : String) → Inert s → Inert t → Inert (s <> t)
Inert-append String.[] t h k = subst Inert (sym (nil-append t)) k
Inert-append (String.◌∷◌ c s) t h k =
    subst Inert (sym (cons-append c s t)) (h.0, Inert-append s t h.1 k)

Inert-digit_at : (t : String) (n : ℕ) → Inert t → Inert (digit_at t n)
unfolding digit_at
Inert-digit_at String.[] n h = tt
Inert-digit_at (String.◌∷◌ c s) zero h = (h.0, tt)
Inert-digit_at (String.◌∷◌ c s) (suc n) h = Inert-digit_at s n h.1

Inert-if : (b : Bool) (x y : String) → Inert x → (b ≡ false → Inert y) → Inert (if b then x else y)
Inert-if true x y h k = h
Inert-if false x y h k = k refl

Inert-hex : (n : ℕ) → Inert (digit_at "0123456789abcdef" n)
Inert-hex n = Inert-digit_at "0123456789abcdef" n (
  refl,
  (
    refl,
    (
      refl,
      (
        refl,
        (
          refl,
          (
            refl,
            (refl, (refl, (refl, (refl, (refl, (refl, (refl, (refl, (refl, (refl, tt)))))))))),
          ),
        ),
      ),
    ),
  ),
)

Inert-escape_char : (c : Char) → Inert (escape_char c)
unfolding escape_char same_char
Inert-escape_char c =
    Inert-if (same_char "\"" c) _ _ (refl, (refl, tt))
      λ n₁.
        Inert-if (same_char "\\" c) _ _ (refl, (refl, tt))
          λ n₂.
            Inert-if (nat_eq (code c) 8) _ _ (refl, (refl, tt))
              λ n₃.
                Inert-if (nat_eq (code c) 12) _ _ (refl, (refl, tt))
                  λ n₄.
                    Inert-if (nat_eq (code c) 10) _ _ (refl, (refl, tt))
                      λ n₅.
                        Inert-if (nat_eq (code c) 13) _ _ (refl, (refl, tt))
                          λ n₆.
                            Inert-if (nat_eq (code c) 9) _ _ (refl, (refl, tt))
                              λ n₇.
                                Inert-if
                                  (is_lt (compare_ℕ (code c) 32)
                                    || same_char "<" c
                                    || same_char ">" c
                                    || same_char "&" c)
                                  _ _
                                  (Inert-append "\\u00" _ (refl, (refl, (refl, (refl, tt))))
                                    (Inert-append _ _ (Inert-hex (code c / 16))
                                      (Inert-hex (code c % 16))))
                                  λ n₈.
                                    Inert-if (nat_eq (code c) 0x2028) _ _
                                      (refl, (refl, (refl, (refl, (refl, (refl, tt))))))
                                      λ n₉.
                                        Inert-if (nat_eq (code c) 0x2029) _ _
                                          (refl, (refl, (refl, (refl, (refl, (refl, tt))))))
                                          λ n₁₀. (ground arith, tt)

Inert-escape : (s : String) → Inert (escape s)
unfolding escape
Inert-escape String.[] = tt
Inert-escape (String.◌∷◌ c s) =
    Inert-append (escape_char c) (escape s) (Inert-escape_char c) (Inert-escape s)

Inert-quoted : (s : String) → Inert (quoted s)
Inert-quoted s =
    Inert-append "\"" _ (refl, tt) (Inert-append (escape s) "\"" (Inert-escape s) (refl, tt))

Inert-member : (key value : String) → All Inert (member key value)
Inert-member key value = go (value == "")
  where
    go : (b : Bool) → All Inert (if b then [] else (quoted key <> (":" <> quoted value)) ∷ [])
    go true = tt
    go false = (
      Inert-append (quoted key) _ (Inert-quoted key)
          (Inert-append ":" (quoted value) (refl, tt) (Inert-quoted value)),
      tt,
    )

Inert-comma_separated : (l : List String) → All Inert l → Inert (comma_separated l)
unfolding comma_separated
Inert-comma_separated [] h = tt
Inert-comma_separated (s ∷ []) h = h.0
Inert-comma_separated (s ∷ t ∷ rest) h = Inert-append s _ h.0 (
    Inert-append "," (comma_separated (t ∷ rest)) (refl, tt) (Inert-comma_separated (t ∷ rest) h.1))

Inert-marshal_items : (urls : List ApiUrl) → All Inert (marshal_items urls)
unfolding marshal_items marshal_api_url
Inert-marshal_items [] = tt
Inert-marshal_items (u ∷ urls) = (
  Inert-append "{" _ (refl, tt)
      (Inert-append (comma_separated (member "name" u.name ++ member "url" u.url)) "}"
        (Inert-comma_separated (member "name" u.name ++ member "url" u.url) (
          All-append Inert (member "name" u.name) (member "url" u.url) (Inert-member "name" u.name)
            (Inert-member "url" u.url)))
        (refl, tt)),
  Inert-marshal_items urls,
)

-- No character of the marshalled urls has a code below that of the space, and none is `<`, `>`,
-- `&`, U+2028 or U+2029, whatever the names and the urls are.
pub marshal_api_urls-Inert : (urls : List ApiUrl) → Inert (marshal_api_urls urls)
unfolding marshal_api_urls
marshal_api_urls-Inert urls =
    Inert-append "[" _ (refl, tt)
      (Inert-append (comma_separated (marshal_items urls)) "]"
        (Inert-comma_separated (marshal_items urls) (Inert-marshal_items urls)) (refl, tt))
