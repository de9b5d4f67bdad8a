-- ===== src/Specification/Guards/Documents.antt =====
-- Rewriting and loading a document panics only as its library does, or in a type assertion.
use swagger_hub_controller.Base.{
  String, Bool, true, false, Option, none, some, Result, ok, err, panic, and_then, map_err, wrap,
  ◌==◌, if◌then◌else◌, errorf, ℕ, Error,
}
use swagger_hub_controller.Base.Dict.{lookup}
use swagger_hub_controller.Base.Runs.{IsCalm, IsCalm-and_then, IsCalm-map_err}
use swagger_hub_controller.Kube.Workload.{Bytes, ConfigMap}
use swagger_hub_controller.Kube.Client.{Client}
use swagger_hub_controller.Api.Definition.{SwaggerDefinition}
use swagger_hub_controller.Specification.Json.{
  Json, null, boolean, number, string, array, object, Items, nil, cons, Fields, end, field,
  get_field, set_field,
}
use swagger_hub_controller.Specification.References.{
  prefix_ref, prefix_refs, prefix_items, prefix_fields, as_text, as_object, rename_schemas,
  rename_components,
}
use swagger_hub_controller.Specification.OpenApi.{OpenApi, Loaded, OpenApiLibrary}
use swagger_hub_controller.Specification.Generate.{
  FetchResult, load_document, loaded, fetch_loaded, failed,
}

-- Panics of type assertions are allowed.
pub record Asserts (C : String → Type 0) : Type 0 where
  pub text : (j : Json) → IsCalm C (as_text j)
  pub fields : (j : Json) → IsCalm C (as_object j)

-- A document whose base path is read, and its reading, panic only as allowed.
abbrev pub IsCalmDocument : (String → Type 0) → Result Loaded → Type 0
IsCalmDocument C (ok s) = IsCalm C s.base_path
IsCalmDocument C (err e) = Unit
IsCalmDocument C (panic m) = C m

-- The library panics only as allowed.
pub record LibraryCalm (C : String → Type 0) (L : OpenApiLibrary) : Type 0 where
  pub unmarshal : (b : Bytes) → IsCalm C (L.unmarshal b)
  pub marshal : (fs : Fields) → IsCalm C (L.marshal fs)
  pub load_from_data : (b : Bytes) → IsCalmDocument C (L.load_from_data b)
  pub marshal_json : (d : OpenApi) → IsCalm C (L.marshal_json d)

document-and_then :
    {A : Type 0} (C : String → Type 0) (r : Result A) (f : A → Result Loaded)
    → IsCalm C r
    → ((a : A) → IsCalmDocument C (f a))
    → IsCalmDocument C (and_then r f)
document-and_then C (ok a) f h k = k a
document-and_then C (err e) f h k = tt
document-and_then C (panic m) f h k = h

document-map_err :
    (C : String → Type 0) (g : Error → Error) (r : Result Loaded)
    → IsCalmDocument C r
    → IsCalmDocument C (map_err g r)
document-map_err C g (ok s) h = h
document-map_err C g (err e) h = tt
document-map_err C g (panic m) h = h

module _ {C : String → Type 0} (allowed : Asserts C) where
  module _ (name : String) where
    member-IsCalm :
        (k : String) (v : Json)
        → IsCalm C (prefix_refs name v)
        → IsCalm C (
            if k == "$ref"
            then and_then (as_text v) (λ s. ok (string (prefix_ref s name)))
            else prefix_refs name v)
    member-IsCalm k v h = go (k == "$ref")
      where
        go :
            (b : Bool)
            → IsCalm C (
                if b
                then and_then (as_text v) (λ s. ok (string (prefix_ref s name)))
                else prefix_refs name v)
        go true =
            IsCalm-and_then C (as_text v) (λ s. ok (string (prefix_ref s name))) (allowed.text v)
              (λ s. tt)
        go false = h

    mutual
      unfolding prefix_refs

      prefix_refs-IsCalm : (j : Json) → IsCalm C (prefix_refs name j)
      prefix_refs-IsCalm null = tt
      prefix_refs-IsCalm (boolean b) = tt
      prefix_refs-IsCalm (number n) = tt
      prefix_refs-IsCalm (string s) = tt
      prefix_refs-IsCalm (array xs) =
          IsCalm-and_then C (prefix_items name xs) (λ ys. ok (array ys)) (prefix_items-IsCalm xs)
            (λ ys. tt)
      prefix_refs-IsCalm (object fs) =
          IsCalm-and_then C (prefix_fields name fs) (λ gs. ok (object gs)) (prefix_fields-IsCalm fs)
            (λ gs. tt)

      prefix_items-IsCalm : (vs : Items) → IsCalm C (prefix_items name vs)
      prefix_items-IsCalm nil = tt
      prefix_items-IsCalm (cons v vs) =
          IsCalm-and_then C (prefix_refs name v) _ (prefix_refs-IsCalm v) (λ w.
            IsCalm-and_then C (prefix_items name vs) (λ ws. ok (cons w ws)) (prefix_items-IsCalm vs)
              (λ ws. tt))

      prefix_fields-IsCalm : (fs : Fields) → IsCalm C (prefix_fields name fs)
      prefix_fields-IsCalm end = tt
      prefix_fields-IsCalm (field k v fs) =
          IsCalm-and_then C _ _ (member-IsCalm k v (prefix_refs-IsCalm v)) (λ w.
            IsCalm-and_then C (prefix_fields name fs) (λ gs. ok (field k w gs))
              (prefix_fields-IsCalm fs) (λ gs. tt))

  rename_components-IsCalm : (name : String) (fs : Fields) → IsCalm C (rename_components name fs)
  unfolding rename_components
  rename_components-IsCalm name fs = go (get_field "components" fs)
    where
      schemas :
          (components : Fields) (s : Option Json)
          → IsCalm C {A = Fields} (elim s [
            | none ↦ ok fs
            | some s ↦ and_then (as_object s) λ schemas. ok (
                set_field "components"
                  (object (set_field "schemas" (object (rename_schemas name schemas)) components))
                  fs)
          ])
      schemas components none = tt
      schemas components (some s) =
          IsCalm-and_then C (as_object s) _ (allowed.fields s) (λ schemas. tt)

      go :
          (x : Option Json)
          → IsCalm C {A = Fields} (elim x [
            | none ↦ ok fs
            | some v ↦ and_then (as_object v) λ components. elim (get_field "schemas" components) [
              | none ↦ ok fs
              | some s ↦ and_then (as_object s) λ schemas. ok (
                  set_field "components"
                    (object (set_field "schemas" (object (rename_schemas name schemas)) components))
                    fs)
            ]
          ])
      go none = tt
      go (some v) =
          IsCalm-and_then C (as_object v) _ (allowed.fields v)
            (λ components. schemas components (get_field "schemas" components))

  module _ (K : Client) {L : OpenApiLibrary} (calm : LibraryCalm C L) where
    load_document_calm :
        (name : String) (cm : ConfigMap) → IsCalmDocument C (load_document K L name cm)
    unfolding load_document
    load_document_calm name cm = go (lookup "definition.json" cm.binary_data)
      where
        load : Bytes → Result Loaded
        load b =
            and_then (map_err (wrap "failed to unmarshal definition: ") (L.unmarshal b))
              λ untyped_spec. and_then (prefix_fields name untyped_spec) λ prefixed.
                and_then (rename_components name prefixed) λ renamed.
                  and_then (map_err (wrap "failed to marshal specification: ") (L.marshal renamed))
                    λ b'.
                      map_err (wrap "failed to load SwaggerDefinition url: ") (L.load_from_data b')

        load_calm : (b : Bytes) → IsCalmDocument C (load b)
        load_calm b =
            document-and_then C (map_err _ (L.unmarshal b)) _
              (IsCalm-map_err C _ (L.unmarshal b) (calm.unmarshal b))
              λ u. document-and_then C (prefix_fields name u) _ (prefix_fields-IsCalm name u) λ p.
                document-and_then C (rename_components name p) _ (rename_components-IsCalm name p)
                  λ r.
                    document-and_then C (map_err _ (L.marshal r)) _
                      (IsCalm-map_err C _ (L.marshal r) (calm.marshal r))
                      λ b'. document-map_err C _ (L.load_from_data b') (calm.load_from_data b')

        go :
            (x : Option Bytes)
            → IsCalmDocument C (elim x [
              | none ↦
                  err (errorf "definition.json does not exists in definition configmap: %!w(<nil>)")
              | some b ↦ load b
            ])
        go none = tt
        go (some b) = load_calm b

    loaded-IsCalm :
        (n : ℕ) (d : SwaggerDefinition) (s : Loaded)
        → IsCalm C s.base_path
        → IsCalm C (loaded n d s)
    unfolding loaded
    loaded-IsCalm n d s h = go s.base_path h
      where
        result : Option Error → String → FetchResult
        result e base = record {
          definition = d;
          spec = some s;
          error = e;
          base_path = base;
          ref_id = n;
        }

        go :
            (x : Result String)
            → IsCalm C x
            → IsCalm C {A = FetchResult} (elim x [
              | ok base ↦ ok (result none base)
              | err e ↦ ok (result (some (wrap "failed to extract base path: " e)) "")
              | panic m ↦ panic m
            ])
        go (ok base) h = tt
        go (err e) h = tt
        go (panic m) h = h

    pub fetch_loaded-IsCalm :
        (n : ℕ) (d : SwaggerDefinition) (cm : ConfigMap) → IsCalm C (fetch_loaded K L n d cm)
    unfolding fetch_loaded
    fetch_loaded-IsCalm n d cm =
        go (load_document K L d.metadata.name cm) (load_document_calm d.metadata.name cm)
      where
        go :
            (x : Result Loaded)
            → IsCalmDocument C x
            → IsCalm C {A = FetchResult}
                (elim x [ ok s ↦ loaded n d s | err e ↦ ok (failed n d e) | panic m ↦ panic m ])
        go (ok s) h = loaded-IsCalm n d s h
        go (err e) h = tt
        go (panic m) h = h
