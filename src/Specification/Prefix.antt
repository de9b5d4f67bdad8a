-- ===== src/Specification/Prefix.antt =====
-- What prefixing does to one reference and to a document.
use Prim.Native.Char.{Char}
use text.Mathlib.TextEquality.{codes_equal}
use text.Mathlib.TextLemmas.{append_assoc as <>_assoc, cons-append, nil-append, append_cancel_left}
use swagger_hub_controller.Base.{
  String, ◌<>◌, ◌≡◌, refl, sym, ap, ◌∙◌, true, false, none, some, if◌then◌else◌, ◌==◌, eq_iff,
  arith, is_some, not, inl, inr, ◌⊎◌, Option-cases, Bool-cases,
}
use swagger_hub_controller.Base.Text.{same_char}
use swagger_hub_controller.Specification.Json.{Fields, end, field, get_field}
use swagger_hub_controller.Specification.References.{
  strip_prefix, split_last, replace_last, has_prefix, prefix_ref, rename_schemas,
}

same_char→eq : (c d : Char) → same_char c d ≡ true → c ≡ d
unfolding same_char
same_char→eq c d h = codes_equal c d (ground arith)

same_char_refl : (c : Char) → same_char c c ≡ true
unfolding same_char
same_char_refl c = ground arith

-- A prefix that is found stands in front of what follows it.
strip_prefix_sound : (y x s : String) → strip_prefix y x ≡ some s → x ≡ y <> s
unfolding strip_prefix
strip_prefix_sound String.[] x s h = let e : x ≡ s = cc in e ∙ sym (nil-append s)
strip_prefix_sound (String.◌∷◌ c y) String.[] s h = cc
strip_prefix_sound (String.◌∷◌ c y) (String.◌∷◌ d x) s h =
    grind (arith, same_char→eq c d, strip_prefix_sound y x s, cons-append c y s)

pub strip_prefix-append : (y s : String) → strip_prefix y (y <> s) ≡ some s
unfolding strip_prefix
strip_prefix-append String.[] s = ap some (nil-append s)
strip_prefix-append (String.◌∷◌ c y) s =
    rw (cons-append c y s, strip_prefix, same_char_refl c) (strip_prefix-append y s)

split_last_sound : (x y p s : String) → split_last x y ≡ some (p, s) → x ≡ p <> (y <> s)
unfolding split_last
split_last_sound String.[] y p s h =
    ground (arith, strip_prefix_sound y String.[] s, nil-append (y <> s))
split_last_sound (String.◌∷◌ c x) y p s h = elim (Option-cases (split_last x y)) [
  | inl e ↦ ground (arith, strip_prefix_sound y (String.◌∷◌ c x) s, nil-append (y <> s))
  | inr ((q, t), e) ↦ ground (arith, split_last_sound x y q t, cons-append c q (y <> t))
]

-- No slash occurs in the text.
abbrev pub Slashless : String → Type 0
Slashless n = split_last n "/" ≡ none

slash-append : (n : String) → "/" <> n ≡ String.◌∷◌ "/" n
slash-append n = cons-append "/" String.[] n ∙ ap (String.◌∷◌ "/") (nil-append n)

split_last-append : (p n : String) → Slashless n → split_last (p <> ("/" <> n)) "/" ≡ some (p, n)
unfolding split_last
split_last-append String.[] n h = rw (nil-append, slash-append n, split_last, h) refl
split_last-append (String.◌∷◌ c p) n h =
    rw (cons-append c p ("/" <> n), split_last, split_last-append p n h) refl

-- A test that only avoids writing an equal text.
keep_new : (new old : String) → (if not (new == old) then new else old) ≡ new
keep_new new old = ground (arith, eq_iff new old)

strip_slash : (c : Char) (x s : String) → strip_prefix "/" (String.◌∷◌ c x) ≡ some s → x ≡ s
unfolding strip_prefix
strip_slash c x s h = ground arith

split_last-Slashless : (x p s : String) → split_last x "/" ≡ some (p, s) → Slashless s
unfolding split_last
split_last-Slashless String.[] p s h = cc
split_last-Slashless (String.◌∷◌ c x) p s h = elim (Option-cases (split_last x "/")) [
  | inl e ↦ ground (arith, strip_slash c x s)
  | inr ((q, t), e) ↦ ground (arith, split_last-Slashless x q t)
]

prefix_ref_found :
    (r d p n : String)
    → has_prefix r "#" ≡ true
    → split_last r "/" ≡ some (p, n)
    → prefix_ref r d ≡ p <> ("/" <> (d <> ("." <> n)))
unfolding prefix_ref replace_last
prefix_ref_found r d p n h e =
    rw (h, prefix_ref)
      (keep_new (replace_last r "/" ("/" <> (d <> "."))) r
        ∙ rw (e, replace_last)
            (ap (◌<>◌ p) (<>_assoc "/" (d <> ".") n ∙ ap (◌<>◌ "/") (<>_assoc d "." n))))

prefix_ref-Slashless : (r d : String) → Slashless r → prefix_ref r d ≡ r
unfolding prefix_ref
prefix_ref-Slashless r d h = ground arith

prefix_ref_external : (r d : String) → has_prefix r "#" ≡ false → prefix_ref r d ≡ r
unfolding prefix_ref
prefix_ref_external r d h = ground arith

-- A reference is changed in three ways: one that does not begin with `#` stays, one without a slash
-- stays, and in any other the name after the last slash gets the prefix and a dot.
pub prefix_ref_cases :
    (r d : String)
    → ((has_prefix r "#" ≡ false) × (prefix_ref r d ≡ r))
      ⊎ ((has_prefix r "#" ≡ true) × Slashless r × (prefix_ref r d ≡ r))
      ⊎ ((p : String) × (n : String) × (has_prefix r "#" ≡ true)
          × (r ≡ p <> ("/" <> n))
          × Slashless n
          × (prefix_ref r d ≡ p <> ("/" <> (d <> ("." <> n)))))
prefix_ref_cases r d = elim (Bool-cases (has_prefix r "#")) [
  | inr external ↦ inl (external, prefix_ref_external r d external)
  | inl local ↦ elim (Option-cases (split_last r "/")) [
    | inl e ↦ inr (inl (local, e, prefix_ref-Slashless r d e))
    | inr ((p, n), e) ↦ inr (
        inr (
          p,
          n,
          local,
          split_last_sound r "/" p n e,
          split_last-Slashless r p n e,
          prefix_ref_found r d p n local e,
        ))
  ]
]

-- The reference to a schema of a document.
abbrev pub schema_ref : String → String
schema_ref n = "#/components/schemas/" <> n

pub prefix_ref-schema_ref :
    (n d : String) → Slashless n → prefix_ref (schema_ref n) d ≡ schema_ref (d <> ("." <> n))
prefix_ref-schema_ref n d h =
    prefix_ref_found (schema_ref n) d "#/components/schemas" n local split
    ∙ sym (<>_assoc "#/components/schemas" "/" (d <> ("." <> n)))
  where
    local : has_prefix (schema_ref n) "#" ≡ true
    local = ap is_some (
        ap (strip_prefix "#") (<>_assoc "#" "/components/schemas/" n)
        ∙ strip_prefix-append "#" ("/components/schemas/" <> n))

    split : split_last (schema_ref n) "/" ≡ some ("#/components/schemas", n)
    split =
        ap (λ r. split_last r "/") (<>_assoc "#/components/schemas" "/" n)
        ∙ split_last-append "#/components/schemas" n h

qualified-injective : (d k n : String) → d <> ("." <> k) ≡ d <> ("." <> n) → k ≡ n
qualified-injective d k n e =
    append_cancel_left "." k n (append_cancel_left d ("." <> k) ("." <> n) e)

pub get_field-rename_schemas :
    (d n : String) (schemas : Fields)
    → get_field (d <> ("." <> n)) (rename_schemas d schemas) ≡ get_field n schemas
unfolding get_field rename_schemas
get_field-rename_schemas d n end = refl
get_field-rename_schemas d n (field k v fs) = ground (
  arith,
  get_field-rename_schemas d n fs,
  eq_iff k n,
  eq_iff (d <> ("." <> k)) (d <> ("." <> n)),
  qualified-injective d k n,
)

-- For a name without a slash, the prefixed reference to the schema of this name is the reference
-- to a schema that is, among the renamed schemas, what the name was among the schemas before: the
-- same schema, or none.
pub prefix_ref-resolves :
    (d n : String) (schemas : Fields)
    → Slashless n
    → (m : String) × (prefix_ref (schema_ref n) d ≡ schema_ref m)
      × (get_field m (rename_schemas d schemas) ≡ get_field n schemas)
prefix_ref-resolves d n schemas h =
    (d <> ("." <> n), prefix_ref-schema_ref n d h, get_field-rename_schemas d n schemas)
