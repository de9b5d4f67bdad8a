-- ===== src/Hub/ApiText/Digits.antt =====
-- One escaped character of a text in `API_URLS`.
use Prim.Native.Char.{Char, code}
use text.Mathlib.TextLemmas.{cons-append, nil-append}
use swagger_hub_controller.Base.{
  ℕ, zero, suc, ◌+◌, ◌*◌, ◌<◌, String, ◌<>◌, Option, none, some, List, [], ◌≡◌, refl, ap, ◌∙◌,
  arith,
}
use swagger_hub_controller.Base.Text.{digit_at}
use swagger_hub_controller.Hub.ApiText.{
  Mode, plain, escaped, digits, Reading, stop, emit, shift, reject, digit_value, read_escaped,
  read_one, push, read_text,
}

-- Two characters in front of a text.
pub pair-append :
    (c d : Char) (s : String)
    → String.◌∷◌ c (String.◌∷◌ d String.[]) <> s ≡ String.◌∷◌ c (String.◌∷◌ d s)
pair-append c d s =
    cons-append c (String.◌∷◌ d String.[]) s
    ∙ ap (String.◌∷◌ c) (cons-append d String.[] s ∙ ap (String.◌∷◌ d) (nil-append s))

-- What follows one character.
abbrev pub proceed : Reading → String → Option (List ℕ × String)
proceed stop s = some ([], s)
proceed (emit n) s = push n (read_text plain s)
proceed (shift m) s = read_text m s
proceed reject s = none

pub read_text-proceed :
    (m : Mode) (c : Char) (s : String) (r : Reading)
    → read_one m (code c) ≡ r
    → read_text m (String.◌∷◌ c s) ≡ proceed r s
unfolding read_text
read_text-proceed m c s r e = opened (read_one m (code c)) ∙ ap (λ x. proceed x s) e
  where
    opened :
        (x : Reading)
        → ◌≡◌ {A = Option (List ℕ × String)}
            (elim x [
              | stop ↦ some ([], s)
              | emit n ↦ push n (read_text plain s)
              | shift m' ↦ read_text m' s
              | reject ↦ none
            ])
            (proceed x s)
    opened stop = refl
    opened (emit n) = refl
    opened (shift m) = refl
    opened reject = refl

-- A backslash and the character behind it.
pub backslash :
    (d : Char) (r : Reading) (s : String)
    → read_escaped (code d) ≡ r
    → read_text plain (String.◌∷◌ "\\" (String.◌∷◌ d String.[]) <> s) ≡ proceed r s
unfolding read_one
backslash d r s e =
    ap (read_text plain) (pair-append "\\" d s)
    ∙ read_text-proceed plain "\\" (String.◌∷◌ d s) (shift escaped) refl
    ∙ read_text-proceed escaped d s r e

-- One digit, and its value.
pub digit_lem :
    (n : ℕ)
    → n < 16
    → (c : Char) × (digit_at "0123456789abcdef" n ≡ String.◌∷◌ c String.[])
      × (digit_value (code c) ≡ some n)
unfolding digit_at digit_value
digit_lem zero h = ("0", refl, refl)
digit_lem (suc zero) h = ("1", refl, refl)
digit_lem (suc (suc zero)) h = ("2", refl, refl)
digit_lem (suc (suc (suc zero))) h = ("3", refl, refl)
digit_lem (suc (suc (suc (suc zero)))) h = ("4", refl, refl)
digit_lem (suc (suc (suc (suc (suc zero))))) h = ("5", refl, refl)
digit_lem (suc (suc (suc (suc (suc (suc zero)))))) h = ("6", refl, refl)
digit_lem (suc (suc (suc (suc (suc (suc (suc zero))))))) h = ("7", refl, refl)
digit_lem (suc (suc (suc (suc (suc (suc (suc (suc zero)))))))) h = ("8", refl, refl)
digit_lem (suc (suc (suc (suc (suc (suc (suc (suc (suc zero))))))))) h = ("9", refl, refl)
digit_lem (suc (suc (suc (suc (suc (suc (suc (suc (suc (suc zero)))))))))) h = ("a", refl, refl)
digit_lem (suc (suc (suc (suc (suc (suc (suc (suc (suc (suc (suc zero))))))))))) h =
    ("b", refl, refl)
digit_lem (suc (suc (suc (suc (suc (suc (suc (suc (suc (suc (suc (suc zero)))))))))))) h =
    ("c", refl, refl)
digit_lem (suc (suc (suc (suc (suc (suc (suc (suc (suc (suc (suc (suc (suc zero))))))))))))) h =
    ("d", refl, refl)
digit_lem (suc (suc (suc (suc (suc (suc (suc (suc (suc (suc (suc (suc (suc (suc zero))))))))))))))
      h =
    ("e", refl, refl)
digit_lem
      (suc (suc (suc (suc (suc (suc (suc (suc (suc (suc (suc (suc (suc (suc (suc zero)))))))))))))))
      h =
    ("f", refl, refl)
digit_lem
      (suc
        (suc (suc (suc (suc (suc (suc (suc (suc (suc (suc (suc (suc (suc (suc (suc n))))))))))))))))
      h =
    let no : ⊥ = omega (arith, h) in elim no [ ]

abbrev pub hex : ℕ → String
hex n = digit_at "0123456789abcdef" n

pub read_digit :
    (k v n : ℕ) (s : String)
    → n < 16
    → read_text (digits (suc k) v) (hex n <> s) ≡ read_text (digits k (16 * v + n)) s
unfolding read_one
read_digit k v n s h =
    let (c, e, d) = digit_lem n h in
    ap (λ t. read_text (digits (suc k) v) (t <> s)) e
    ∙ ap (read_text (digits (suc k) v))
        (cons-append c String.[] s ∙ ap (String.◌∷◌ c) (nil-append s))
    ∙ read_text-proceed (digits (suc k) v) c s (shift (digits k (16 * v + n)))
        (ap (λ o. elim o [ none ↦ reject | some d ↦ shift (digits k (16 * v + d)) ]) d)

pub last_digit :
    (v n : ℕ) (s : String)
    → n < 16
    → read_text (digits zero v) (hex n <> s) ≡ push (16 * v + n) (read_text plain s)
unfolding read_one
last_digit v n s h =
    let (c, e, d) = digit_lem n h in
    ap (λ t. read_text (digits zero v) (t <> s)) e
    ∙ ap (read_text (digits zero v)) (cons-append c String.[] s ∙ ap (String.◌∷◌ c) (nil-append s))
    ∙ read_text-proceed (digits zero v) c s (emit (16 * v + n))
        (ap (λ o. elim o [ none ↦ reject | some d ↦ emit (16 * v + d) ]) d)

-- A code point in four digits.
pub unicode :
    (a b q r : ℕ) (s : String)
    → a < 16
    → b < 16
    → q < 16
    → r < 16
    → read_text plain ("\\u" <> (hex a <> (hex b <> (hex q <> (hex r <> s)))))
      ≡ push (16 * (16 * (16 * a + b) + q) + r) (read_text plain s)
unfolding read_one
unicode a b q r s ha hb hq hr =
    backslash "u" (shift (digits 3 0)) (hex a <> (hex b <> (hex q <> (hex r <> s)))) refl
    ∙ read_digit 2 0 a (hex b <> (hex q <> (hex r <> s))) ha
    ∙ read_digit 1 (16 * 0 + a) b (hex q <> (hex r <> s)) hb
    ∙ read_digit 0 (16 * (16 * 0 + a) + b) q (hex r <> s) hq
    ∙ last_digit (16 * (16 * (16 * 0 + a) + b) + q) r s hr
    ∙ ap (λ n. push n (read_text plain s)) (omega arith)
