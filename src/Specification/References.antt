-- ===== src/Specification/References.antt =====
-- `replaceLast`, `prefixRef` and `prefixRefs`, and the new names of the schemas.
use swagger_hub_controller.Base.{
  String, ◌<>◌, Bool, Option, none, some, Result, ok, panic, and_then, if◌then◌else◌, ◌==◌, is_some,
  not,
}
use swagger_hub_controller.Base.Text.{same_char}
use swagger_hub_controller.Specification.Json.{
  Json, null, boolean, number, string, array, object, Items, nil, cons, Fields, end, field,
  get_field, set_field,
}

-- What follows `y` at the start of the text.
unfoldable pub strip_prefix : String → String → Option String
unfolding same_char
strip_prefix String.[] x = some x
strip_prefix (String.◌∷◌ c y) String.[] = none
strip_prefix (String.◌∷◌ c y) (String.◌∷◌ d x) = if same_char c d then strip_prefix y x else none

-- `i := strings.LastIndex(x, y)`, as the texts `x[:i]` and `x[i+len(y):]`; `none` is -1.
unfoldable pub split_last : String → String → Option (String × String)
unfolding strip_prefix
split_last String.[] y = elim (strip_prefix y String.[]) [
  | none ↦ none
  | some s ↦ some (String.[], s)
]
split_last (String.◌∷◌ c x) y = elim (split_last x y) [
  | some (p, s) ↦ some (String.◌∷◌ c p, s)
  | none ↦ elim (strip_prefix y (String.◌∷◌ c x)) [ none ↦ none | some s ↦ some (String.[], s) ]
]

unfoldable pub replace_last : String → String → String → String
unfolding split_last
replace_last x y z = elim (split_last x y) [ none ↦ x | some (p, s) ↦ p <> (z <> s) ]

-- `strings.HasPrefix`
abbrev pub has_prefix : String → String → Bool
has_prefix s prefix = is_some (strip_prefix prefix s)

unfoldable pub prefix_ref : String → String → String
unfolding replace_last
prefix_ref ref prefix =
    if not (has_prefix ref "#")
    then ref
    else let new_ref = replace_last ref "/" ("/" <> (prefix <> ".")) in
      if not (new_ref == ref) then new_ref else ref

-- `vv.(string)`
abbrev pub as_text : Json → Result String
as_text null = panic "interface conversion: interface {} is nil, not string"
as_text (boolean b) = panic "interface conversion: interface {} is bool, not string"
as_text (number n) = panic "interface conversion: interface {} is float64, not string"
as_text (string s) = ok s
as_text (array xs) = panic "interface conversion: interface {} is []interface {}, not string"
as_text (object fs) =
    panic "interface conversion: interface {} is map[string]interface {}, not string"

-- The document is changed in place; here the changed document is returned.
unfoldable mutual
  pub prefix_refs : String → Json → Result Json
  prefix_refs name null = ok null
  prefix_refs name (boolean b) = ok (boolean b)
  prefix_refs name (number n) = ok (number n)
  prefix_refs name (string s) = ok (string s)
  prefix_refs name (array xs) = and_then (prefix_items name xs) λ ys. ok (array ys)
  prefix_refs name (object fs) = and_then (prefix_fields name fs) λ gs. ok (object gs)

  pub prefix_items : String → Items → Result Items
  prefix_items name nil = ok nil
  prefix_items name (cons v vs) =
      and_then (prefix_refs name v) λ w. and_then (prefix_items name vs) λ ws. ok (cons w ws)

  pub prefix_fields : String → Fields → Result Fields
  prefix_fields name end = ok end
  prefix_fields name (field k v fs) =
      and_then
        (if k == "$ref"
          then and_then (as_text v) (λ s. ok (string (prefix_ref s name)))
          else prefix_refs name v)
        λ w. and_then (prefix_fields name fs) λ gs. ok (field k w gs)

-- The loop that gives each schema of a definition its new name.
unfoldable pub rename_schemas : String → Fields → Fields
rename_schemas name end = end
rename_schemas name (field k v fs) = field (name <> ("." <> k)) v (rename_schemas name fs)

-- `v.(map[string]interface{})`
abbrev pub as_object : Json → Result Fields
as_object null = panic "interface conversion: interface {} is nil, not map[string]interface {}"
as_object (boolean b) =
    panic "interface conversion: interface {} is bool, not map[string]interface {}"
as_object (number n) =
    panic "interface conversion: interface {} is float64, not map[string]interface {}"
as_object (string s) =
    panic "interface conversion: interface {} is string, not map[string]interface {}"
as_object (array xs) =
    panic "interface conversion: interface {} is []interface {}, not map[string]interface {}"
as_object (object fs) = ok fs

-- The block on `untypedSpec["components"]` in `generateOpenAPI`.
unfoldable pub rename_components : String → Fields → Result Fields
unfolding rename_schemas get_field set_field
rename_components name untyped_spec = elim (get_field "components" untyped_spec) [
  | none ↦ ok untyped_spec
  | some v ↦ and_then (as_object v) λ components. elim (get_field "schemas" components) [
    | none ↦ ok untyped_spec
    | some s ↦ and_then (as_object s) λ schemas. ok (
        set_field "components"
          (object (set_field "schemas" (object (rename_schemas name schemas)) components))
          untyped_spec)
  ]
]
