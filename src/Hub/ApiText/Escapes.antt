-- ===== src/Hub/ApiText/Escapes.antt =====
-- Texts of `API_URLS` are read back.
use Prim.Native.Char.{Char, code}
use Prim.Native.Nat.{compare as compare_ℕ}
use text.Mathlib.Text.{is_lt}
use text.Mathlib.TextLemmas.{append_assoc as <>_assoc, cons-append, nil-append}
use swagger_hub_controller.Base.{
  ℕ, ◌+◌, ◌*◌, ◌/◌, ◌%◌, ◌<◌, String, ◌<>◌, Bool, true, false, ◌||◌, some, if◌then◌else◌, ◌≡◌, refl,
  sym, ap, ◌∙◌, arith, nat_eq, ltb,
}
use swagger_hub_controller.Base.Text.{same_char, digit_at}
use swagger_hub_controller.Hub.ApiUrls.{escape_char, escape}
use swagger_hub_controller.Hub.ApiText.{
  plain, stop, emit, read_escaped, read_one, push, read_text, code_points,
}
use swagger_hub_controller.Hub.ApiText.Digits.{read_text-proceed, backslash, hex, unicode}

module _ (c : Char) (s : String) where
  -- The text is read as the character, in front of any other text.
  Reads : String → Type 0
  Reads t = read_text plain (t <> s) ≡ push (code c) (read_text plain s)

  Reads-if :
      (b : Bool) (x y : String)
      → (b ≡ true → Reads x)
      → (b ≡ false → Reads y)
      → Reads (if b then x else y)
  Reads-if true x y h k = h refl
  Reads-if false x y h k = k refl

  Reads-escaped :
      (d : Char) (n : ℕ)
      → read_escaped (code d) ≡ emit n
      → code c ≡ n
      → Reads (String.◌∷◌ "\\" (String.◌∷◌ d String.[]))
  unfolding Reads
  Reads-escaped d n e q = backslash d (emit n) s e ∙ ap (λ n. push n (read_text plain s)) (sym q)

  Reads-code : (n : ℕ) → code c ≡ n → n < 256 → Reads ("\\u00" <> (hex (n / 16) <> hex (n % 16)))
  unfolding Reads digit_at
  Reads-code n q h =
      ap (read_text plain) (shape (hex (n / 16)) (hex (n % 16)))
      ∙ unicode 0 0 (n / 16) (n % 16) s (omega arith) (omega arith) (omega (arith, h)) (omega arith)
      ∙ ap (λ n. push n (read_text plain s)) (omega (arith, q))
    where
      shape :
          (x y : String) → ("\\u00" <> (x <> y)) <> s ≡ "\\u" <> ("0" <> ("0" <> (x <> (y <> s))))
      shape x y =
          <>_assoc "\\u00" (x <> y) s
          ∙ ap (λ t. "\\u00" <> t) (<>_assoc x y s)
          ∙ <>_assoc "\\u" "00" (x <> (y <> s))
          ∙ ap (λ t. "\\u" <> t) (<>_assoc "0" "0" (x <> (y <> s)))

  Reads-digits :
      (a b q r : ℕ)
      → a < 16
      → b < 16
      → q < 16
      → r < 16
      → code c ≡ 16 * (16 * (16 * a + b) + q) + r
      → Reads ("\\u" <> (hex a <> (hex b <> (hex q <> hex r))))
  unfolding Reads
  Reads-digits a b q r ha hb hq hr e =
      ap (read_text plain) (shape (hex a) (hex b) (hex q) (hex r))
      ∙ unicode a b q r s ha hb hq hr
      ∙ ap (λ n. push n (read_text plain s)) (sym e)
    where
      shape :
          (x y z u : String)
          → ("\\u" <> (x <> (y <> (z <> u)))) <> s ≡ "\\u" <> (x <> (y <> (z <> (u <> s))))
      shape x y z u =
          <>_assoc "\\u" (x <> (y <> (z <> u))) s
          ∙ ap (λ t. "\\u" <> t)
              (<>_assoc x (y <> (z <> u)) s
                ∙ ap (λ t. x <> t) (<>_assoc y (z <> u) s ∙ ap (λ t. y <> t) (<>_assoc z u s)))

  -- A character that is escaped is read back.
  Reads-escape_char : Reads (escape_char c)
  unfolding escape_char same_char read_escaped digit_at read_one Reads
  Reads-escape_char =
      Reads-if (same_char "\"" c) _ _ (λ e. Reads-escaped "\"" 34 refl (ground arith))
        λ n₁.
          Reads-if (same_char "\\" c) _ _ (λ e. Reads-escaped "\\" 92 refl (ground arith))
            λ n₂.
              Reads-if (nat_eq (code c) 8) _ _ (λ e. Reads-escaped "b" 8 refl (ground arith))
                λ n₃.
                  Reads-if (nat_eq (code c) 12) _ _ (λ e. Reads-escaped "f" 12 refl (ground arith))
                    λ n₄.
                      Reads-if (nat_eq (code c) 10) _ _
                        (λ e. Reads-escaped "n" 10 refl (ground arith))
                        λ n₅.
                          Reads-if (nat_eq (code c) 13) _ _
                            (λ e. Reads-escaped "r" 13 refl (ground arith))
                            λ n₆.
                              Reads-if (nat_eq (code c) 9) _ _
                                (λ e. Reads-escaped "t" 9 refl (ground arith))
                                λ n₇.
                                  Reads-if
                                    (is_lt (compare_ℕ (code c) 32)
                                      || same_char "<" c
                                      || same_char ">" c
                                      || same_char "&" c)
                                    _ _ (λ e. Reads-code (code c) refl (ground arith))
                                    λ n₈.
                                      Reads-if (nat_eq (code c) 0x2028) _ _
                                        (λ e.
                                          Reads-digits 2 0 2 8 (omega arith) (omega arith)
                                            (omega arith) (omega arith) (ground arith))
                                        λ n₉.
                                          Reads-if (nat_eq (code c) 0x2029) _ _
                                            (λ e.
                                              Reads-digits 2 0 2 9 (omega arith) (omega arith)
                                                (omega arith) (omega arith) (ground arith))
                                            λ n₁₀.
                                              ap (read_text plain) (
                                                cons-append c String.[] s
                                                ∙ ap (String.◌∷◌ c) (nil-append s))
                                              ∙ read_text-proceed plain c s (emit (code c)) (
                                                  self (ground arith) (ground arith) (ground arith))
    where
      self :
          nat_eq (code c) 34 ≡ false
          → nat_eq (code c) 92 ≡ false
          → ltb (code c) 32 ≡ false
          → read_one plain (code c) ≡ emit (code c)
      self e f g = rw (e, f, g) refl

Reads-at :
    (c : Char) (s : String)
    → read_text plain (escape_char c <> s) ≡ push (code c) (read_text plain s)
unfolding Reads
Reads-at c s = Reads-escape_char c s

-- A text behind its quote is read up to its last quote, whatever follows.
pub read_text-escape :
    (s rest : String) → read_text plain (escape s <> ("\"" <> rest)) ≡ some (code_points s, rest)
unfolding escape read_one
read_text-escape String.[] rest =
    ap (read_text plain) (
      nil-append ("\"" <> rest)
      ∙ cons-append "\"" String.[] rest
      ∙ ap (String.◌∷◌ "\"") (nil-append rest))
    ∙ read_text-proceed plain "\"" rest stop refl
read_text-escape (String.◌∷◌ c s) rest =
    ap (read_text plain) (<>_assoc (escape_char c) (escape s) ("\"" <> rest))
    ∙ Reads-at c (escape s <> ("\"" <> rest))
    ∙ ap (push (code c)) (read_text-escape s rest)
