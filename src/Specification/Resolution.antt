-- ===== src/Specification/Resolution.antt =====
-- The rewriting of a whole document: its schemas are found again under their new names.
use swagger_hub_controller.Base.{
  ok-injective, String, ◌<>◌, true, false, some, Result, ok, err, panic, and_then, ◌≡◌, refl, sym,
  ap, ◌∙◌, subst, if◌then◌else◌, ◌==◌, arith, eq_iff, Bool-cases, inl, inr,
}
use swagger_hub_controller.Specification.Json.{
  Json, string, object, Fields, end, field, get_field, set_field,
}
use swagger_hub_controller.Specification.References.{
  prefix_ref, prefix_refs, prefix_fields, as_text, rename_schemas, rename_components,
}
use swagger_hub_controller.Specification.Prefix.{
  Slashless, schema_ref, prefix_ref-schema_ref, get_field-rename_schemas,
}

-- The document has the schema under the name.
pub record HasSchema (fs : Fields) (n : String) (v : Json) : Type 0 where
  pub components : Fields
  pub schemas : Fields
  pub at_components : get_field "components" fs ≡ some (object components)
  pub at_schemas : get_field "schemas" components ≡ some (object schemas)
  pub at_name : get_field n schemas ≡ some v

and_then_ok :
    {A B : Type 0} (r : Result A) (f : A → Result B) {b : B}
    → and_then r f ≡ ok b
    → (a : A) × (r ≡ ok a) × (f a ≡ ok b)
and_then_ok (ok a) f e = (a, refl, e)
and_then_ok (err x) f e = cc
and_then_ok (panic m) f e = cc

get_field-set_field :
    (k : String) (v : Json) (fs : Fields) → get_field k (set_field k v fs) ≡ some v
unfolding get_field set_field
get_field-set_field k v end = ground (arith, eq_iff k k)
get_field-set_field k v (field j w fs) =
    ground (arith, get_field-set_field k v fs, eq_iff k k, eq_iff j k)

module _ (name : String) where
  -- A member of an object, after its references have got the prefix.
  Rewritten : String → Json → Fields → Type 0
  Rewritten j v hs = (v' : Json) × (prefix_refs name v ≡ ok v') × (get_field j hs ≡ some v')

  -- What becomes of the value of a member.
  abbrev member : String → Json → Result Json
  member k u =
      if k == "$ref"
      then and_then (as_text u) (λ s. ok (string (prefix_ref s name)))
      else prefix_refs name u

  member_step :
      (j k : String) (u w : Json) (gs : Fields)
      → (k == "$ref") ≡ false
      → (k == j) ≡ true
      → member k u ≡ ok w
      → Rewritten j u (field k w gs)
  unfolding Rewritten get_field
  member_step j k u w gs plain same e = (
    w,
    ap
          (λ b.
            if b
            then and_then (as_text u) (λ s. ok (string (prefix_ref s name)))
            else prefix_refs name u)
          (sym plain)
        ∙ e,
    rw same refl,
  )

  get_field-prefix_fields :
      (j : String) (fs hs : Fields) (v : Json)
      → (j == "$ref") ≡ false
      → prefix_fields name fs ≡ ok hs
      → get_field j fs ≡ some v
      → Rewritten j v hs
  unfolding Rewritten get_field prefix_fields
  get_field-prefix_fields j end hs v plain e g = cc
  get_field-prefix_fields j (field k u fs) hs v plain e g =
      let (w, e₁, f₁) =
        and_then_ok (member k u) (λ w. and_then (prefix_fields name fs) λ gs. ok (field k w gs))
          e in
      let (gs, e₂, f₂) = and_then_ok (prefix_fields name fs) (λ gs. ok (field k w gs)) f₁ in
      let shape : field k w gs ≡ hs = cc in
      elim (Bool-cases (k == j)) [
        | inl same ↦
            let found : u ≡ v = ground arith in
            let key : (k == "$ref") ≡ false = ap (λ x. x == "$ref") ((eq_iff k j).0 same) ∙ plain in
            subst (Rewritten j v) shape
              (subst (λ x. Rewritten j x (field k w gs)) found (member_step j k u w gs key same e₁))
        | inr other ↦
            let (v', r, q) = get_field-prefix_fields j fs gs v plain e₂ (ground arith) in
            (v', r, ap (get_field j) (sym shape) ∙ rw other q)
      ]

  renamed_ok :
      (fs components schemas : Fields)
      → get_field "components" fs ≡ some (object components)
      → get_field "schemas" components ≡ some (object schemas)
      → rename_components name fs
        ≡ ok (
            set_field "components"
              (object (set_field "schemas" (object (rename_schemas name schemas)) components))
              fs)
  unfolding rename_components
  renamed_ok fs components schemas e f = ground arith

  -- The value of a member that is an object.
  object_ok :
      (fs : Fields) (j' : Json)
      → prefix_refs name (object fs) ≡ ok j'
      → (gs : Fields) × (prefix_fields name fs ≡ ok gs) × (j' ≡ object gs)
  unfolding prefix_refs
  object_ok fs j' e =
      let (gs, e₁, f₁) = and_then_ok (prefix_fields name fs) (λ gs. ok (object gs)) e in
      (gs, e₁, cc)

  -- Where a document is rewritten without a panic, each schema of it whose name has no slash and
  -- is not `$ref` is found in the rewritten document under the prefixed name, with the prefix in
  -- its own references, and the reference to it becomes the reference to this schema: what
  -- resolved still resolves.
  pub rename_components-HasSchema :
      (n : String) (fs gs hs : Fields) (v : Json)
      → prefix_fields name fs ≡ ok gs
      → rename_components name gs ≡ ok hs
      → HasSchema fs n v
      → Slashless n
      → (n == "$ref") ≡ false
      → (v' : Json) × (prefix_refs name v ≡ ok v')
        × HasSchema hs (name <> ("." <> n)) v'
        × (prefix_ref (schema_ref n) name ≡ schema_ref (name <> ("." <> n)))
  unfolding Rewritten
  rename_components-HasSchema n fs gs hs v e f h slashless plain =
      let (c', c₁, c₂) =
        get_field-prefix_fields "components" fs gs (object h.components) refl e h.at_components in
      let (components, c₃, c₄) = object_ok h.components c' c₁ in
      let (s', s₁, s₂) =
        get_field-prefix_fields "schemas" h.components components (object h.schemas) refl c₃
          h.at_schemas in
      let (schemas, s₃, s₄) = object_ok h.schemas s' s₁ in
      let (v', v₁, v₂) = get_field-prefix_fields n h.schemas schemas v plain s₃ h.at_name in
      let renamed = set_field "schemas" (object (rename_schemas name schemas)) components in
      let shape : set_field "components" (object renamed) gs ≡ hs =
        ok-injective
          (sym (renamed_ok gs components schemas (c₂ ∙ ap some c₄) (s₂ ∙ ap some s₄)) ∙ f) in
      (
        v',
        v₁,
        record {
          components = renamed;
          schemas = rename_schemas name schemas;
          at_components =
              ap (get_field "components") (sym shape)
              ∙ get_field-set_field "components" (object renamed) gs;
          at_schemas =
              get_field-set_field "schemas" (object (rename_schemas name schemas)) components;
          at_name = get_field-rename_schemas name n schemas ∙ v₂;
        },
        prefix_ref-schema_ref n name slashless,
      )
