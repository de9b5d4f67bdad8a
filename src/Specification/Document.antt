-- ===== src/Specification/Document.antt =====
-- What prefixing does to a whole document.
use swagger_hub_controller.Base.{
  String, ◌≡◌, refl, sym, ap, ap₂, ◌∙◌, Bool, true, false, ◌&&◌, Result, ok, err, panic, and_then,
  if◌then◌else◌, ◌==◌, arith, List, [], ◌∷◌, ◌++◌, map, map-append, inl, inr, Bool-cases, eq_iff,
  subst,
}
use swagger_hub_controller.Specification.Json.{
  Json, null, boolean, number, string, array, object, Items, nil, cons, Fields, end, field,
}
use swagger_hub_controller.Specification.References.{
  prefix_ref, prefix_refs, prefix_items, prefix_fields, as_text,
}

-- The text of a member `$ref`, and whether it is one.
abbrev pub own_refs : Json → List String
own_refs (string s) = s ∷ []
own_refs _ = []

abbrev pub is_text : Json → Bool
is_text (string s) = true
is_text _ = false

-- The references of a document, in order: the texts of the members named `$ref`.
mutual
  pub refs : Json → List String
  refs null = []
  refs (boolean b) = []
  refs (number n) = []
  refs (string s) = []
  refs (array xs) = item_refs xs
  refs (object fs) = field_refs fs

  item_refs : Items → List String
  item_refs nil = []
  item_refs (cons v vs) = refs v ++ item_refs vs

  field_refs : Fields → List String
  field_refs end = []
  field_refs (field k v fs) = (if k == "$ref" then own_refs v else refs v) ++ field_refs fs

-- The document with its references blanked.
mutual
  pub skeleton : Json → Json
  skeleton null = null
  skeleton (boolean b) = boolean b
  skeleton (number n) = number n
  skeleton (string s) = string s
  skeleton (array xs) = array (item_skeletons xs)
  skeleton (object fs) = object (field_skeletons fs)

  item_skeletons : Items → Items
  item_skeletons nil = nil
  item_skeletons (cons v vs) = cons (skeleton v) (item_skeletons vs)

  field_skeletons : Fields → Fields
  field_skeletons end = end
  field_skeletons (field k v fs) =
      field k (if k == "$ref" then null else skeleton v) (field_skeletons fs)

-- Every member named `$ref` is a text.
mutual
  pub is_referable : Json → Bool
  is_referable null = true
  is_referable (boolean b) = true
  is_referable (number n) = true
  is_referable (string s) = true
  is_referable (array xs) = items_referable xs
  is_referable (object fs) = fields_referable fs

  items_referable : Items → Bool
  items_referable nil = true
  items_referable (cons v vs) = is_referable v && items_referable vs

  fields_referable : Fields → Bool
  fields_referable end = true
  fields_referable (field k v fs) =
      (if k == "$ref" then is_text v else is_referable v) && fields_referable fs

module _ (name : String) where
  -- What one call has done, by how it ended.
  abbrev pub Prefixed : Json → Result Json → Type 0
  Prefixed j (ok j') =
      (refs j' ≡ map (λ r. prefix_ref r name) (refs j))
      × (skeleton j' ≡ skeleton j)
      × (is_referable j ≡ true)
  Prefixed j (err e) = ⊥
  Prefixed j (panic m) = is_referable j ≡ false

  abbrev PrefixedItems : Items → Result Items → Type 0
  PrefixedItems vs (ok ws) =
      (item_refs ws ≡ map (λ r. prefix_ref r name) (item_refs vs))
      × (item_skeletons ws ≡ item_skeletons vs)
      × (items_referable vs ≡ true)
  PrefixedItems vs (err e) = ⊥
  PrefixedItems vs (panic m) = items_referable vs ≡ false

  abbrev PrefixedFields : Fields → Result Fields → Type 0
  PrefixedFields fs (ok gs) =
      (field_refs gs ≡ map (λ r. prefix_ref r name) (field_refs fs))
      × (field_skeletons gs ≡ field_skeletons fs)
      × (fields_referable fs ≡ true)
  PrefixedFields fs (err e) = ⊥
  PrefixedFields fs (panic m) = fields_referable fs ≡ false

  array_step :
      (vs : Items) (r : Result Items)
      → PrefixedItems vs r
      → Prefixed (array vs) (and_then r λ ws. ok (array ws))
  unfolding refs skeleton is_referable
  array_step vs (ok ws) (p, q, h) = (p, ap array q, h)
  array_step vs (err e) h = h
  array_step vs (panic m) h = h

  object_step :
      (fs : Fields) (r : Result Fields)
      → PrefixedFields fs r
      → Prefixed (object fs) (and_then r λ gs. ok (object gs))
  unfolding refs skeleton is_referable
  object_step fs (ok gs) (p, q, h) = (p, ap object q, h)
  object_step fs (err e) h = h
  object_step fs (panic m) h = h

  cons_step :
      (v : Json) (vs : Items) (r : Result Json) (rs : Result Items)
      → Prefixed v r
      → PrefixedItems vs rs
      → PrefixedItems (cons v vs) (and_then r λ w. and_then rs λ ws. ok (cons w ws))
  unfolding refs skeleton is_referable
  cons_step v vs (ok w) (ok ws) (p, q, h) (p', q', h') =
      (ap₂ ◌++◌ p p' ∙ sym (map-append _ (refs v) (item_refs vs)), ap₂ cons q q', ground arith)
  cons_step v vs (ok w) (err e) h h' = h'
  cons_step v vs (ok w) (panic m) h h' = ground arith
  cons_step v vs (err e) rs h h' = h
  cons_step v vs (panic m) rs h h' = ground arith

  -- The value of one member.
  abbrev PrefixedMember : String → Json → Result Json → Type 0
  PrefixedMember k v (ok w) =
      ((if k == "$ref" then own_refs w else refs w)
        ≡ map (λ r. prefix_ref r name) (if k == "$ref" then own_refs v else refs v))
      × ((if k == "$ref" then null else skeleton w) ≡ (if k == "$ref" then null else skeleton v))
      × ((if k == "$ref" then is_text v else is_referable v) ≡ true)
  PrefixedMember k v (err e) = ⊥
  PrefixedMember k v (panic m) = (if k == "$ref" then is_text v else is_referable v) ≡ false

  own_step :
      (v : Json)
      → PrefixedMember "$ref" v (and_then (as_text v) λ s. ok (string (prefix_ref s name)))
  own_step null = refl
  own_step (boolean b) = refl
  own_step (number n) = refl
  own_step (string s) = (refl, refl, refl)
  own_step (array xs) = refl
  own_step (object fs) = refl

  field_step :
      (k : String) (v : Json) (fs : Fields) (r : Result Json) (rs : Result Fields)
      → PrefixedMember k v r
      → PrefixedFields fs rs
      → PrefixedFields (field k v fs) (and_then r λ w. and_then rs λ gs. ok (field k w gs))
  unfolding refs skeleton is_referable
  field_step k v fs (ok w) (ok gs) (p, q, h) (p', q', h') =
      (ap₂ ◌++◌ p p' ∙ sym (map-append _ _ (field_refs fs)), ap₂ (field k) q q', ground arith)
  field_step k v fs (ok w) (err e) h h' = h'
  field_step k v fs (ok w) (panic m) h h' = ground arith
  field_step k v fs (err e) rs h h' = h
  field_step k v fs (panic m) rs h h' = ground arith

  member_step :
      (k : String) (v : Json)
      → Prefixed v (prefix_refs name v)
      → PrefixedMember k v (
          if k == "$ref"
          then and_then (as_text v) (λ s. ok (string (prefix_ref s name)))
          else prefix_refs name v)
  member_step k v h = elim (Bool-cases (k == "$ref")) [
    | inl e ↦ rw e (
        subst (λ j. PrefixedMember j v (and_then (as_text v) λ s. ok (string (prefix_ref s name))))
          (sym ((eq_iff k "$ref").0 e)) (own_step v))
    | inr e ↦ rw e (plain (prefix_refs name v) e h)
  ]
    where
      plain : (r : Result Json) → (k == "$ref") ≡ false → Prefixed v r → PrefixedMember k v r
      plain (ok w) e h = rw e h
      plain (err m) e h = h
      plain (panic m) e h = rw e h

  mutual
    unfolding prefix_refs refs skeleton is_referable

    prefix_refs_all : (j : Json) → Prefixed j (prefix_refs name j)
    prefix_refs_all null = (refl, refl, refl)
    prefix_refs_all (boolean b) = (refl, refl, refl)
    prefix_refs_all (number n) = (refl, refl, refl)
    prefix_refs_all (string s) = (refl, refl, refl)
    prefix_refs_all (array xs) = array_step xs (prefix_items name xs) (prefix_items_all xs)
    prefix_refs_all (object fs) = object_step fs (prefix_fields name fs) (prefix_fields_all fs)

    prefix_items_all : (vs : Items) → PrefixedItems vs (prefix_items name vs)
    prefix_items_all nil = (refl, refl, refl)
    prefix_items_all (cons v vs) =
        cons_step v vs (prefix_refs name v) (prefix_items name vs) (prefix_refs_all v)
          (prefix_items_all vs)

    prefix_fields_all : (fs : Fields) → PrefixedFields fs (prefix_fields name fs)
    prefix_fields_all end = (refl, refl, refl)
    prefix_fields_all (field k v fs) =
        field_step k v fs _ (prefix_fields name fs) (member_step k v (prefix_refs_all v))
          (prefix_fields_all fs)

  -- Prefixing a document returns or panics, never fails. It returns exactly where every member `$ref`
  -- is a text; then each reference is prefixed, in its place, and nothing else is changed.
  pub prefix_refs-Prefixed : (j : Json) → Prefixed j (prefix_refs name j)
  prefix_refs-Prefixed j = prefix_refs_all j
