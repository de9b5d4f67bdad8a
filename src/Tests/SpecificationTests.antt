-- ===== src/Tests/SpecificationTests.antt =====
-- The specification controller at concrete documents.
use swagger_hub_controller.Base.{
  String, true, false, none, some, List, [], ◌∷◌, Result, ok, err, ◌≡◌, refl, subst, ap, Bool-cases,
  inl, inr, eq_iff, ◌==◌, ◌&&◌, panic,
}
use swagger_hub_controller.Base.Lists.{All, filter_by}
use swagger_hub_controller.Kube.Meta.{object_meta}
use swagger_hub_controller.Api.Definition.{SwaggerDefinition}
use swagger_hub_controller.Api.Specification.{SwaggerSpecification, ResourceLookupReference}
use swagger_hub_controller.Specification.Json.{
  Json, Fields, null, boolean, string, array, object, nil, cons, end, field, get_field,
}
use swagger_hub_controller.Specification.OpenApi.{OpenApiLibrary}
use swagger_hub_controller.Specification.References.{
  split_last, prefix_ref, prefix_refs, rename_schemas, rename_components,
}
use swagger_hub_controller.Specification.Resolution.{HasSchema, rename_components-HasSchema}
use swagger_hub_controller.Specification.Prefix.{Slashless, schema_ref, prefix_ref-resolves}
use swagger_hub_controller.Specification.Document.{Prefixed, prefix_refs-Prefixed}
use swagger_hub_controller.Specification.Generate.{
  FetchResult, Collected, collect_results, fetch_results,
}
use swagger_hub_controller.Specification.Catalog.{collect_results-catalog}
use swagger_hub_controller.Specification.Reconcile.{requests_for_change_by_selector}
use swagger_hub_controller.Specification.Watch.{
  IsLocal, ListsNamespace, requests_for_change_by_selector-IsLocal,
}
use swagger_hub_controller.Tests.Cluster.{Cluster, cluster}
use swagger_hub_controller.Tests.Samples.{private_pets, apps, type_of}

abbrev document : Json
document = object (
    field "schema" (object (field "$ref" (string "#/components/schemas/Pet") end))
      (field "others" (array (cons (string "#/x") nil)) end))

prefix_refs-Prefixed_example : Prefixed "pets" document (prefix_refs "pets" document)
prefix_refs-Prefixed_example = prefix_refs-Prefixed "pets" document

abbrev schemas : Fields
schemas = field "Owner" null (field "Pet" (boolean true) end)

pet-Slashless : Slashless "Pet"
unfolding split_last
pet-Slashless = refl

prefix_ref-resolves_example :
    (m : String) × (prefix_ref "#/components/schemas/Pet" "pets" ≡ schema_ref m)
    × (get_field m (rename_schemas "pets" schemas) ≡ some (boolean true))
unfolding get_field
prefix_ref-resolves_example = prefix_ref-resolves "pets" "Pet" schemas pet-Slashless

-- A library that reads every text as an empty document.
abbrev pub library : OpenApiLibrary
library = record {
  unmarshal = λ b. ok end;
  marshal = λ fs. ok "{}";
  load_from_data = λ b. ok (record { components = none; paths = []; base_path = ok "/v1" });
  new_paths = λ paths. paths;
  marshal_json = λ o. ok "{}";
}

-- A definition whose document was not stored.
abbrev missing : SwaggerDefinition
missing = record private_pets { metadata = record (private_pets.metadata) { name = "gone" } }

abbrev entry : String → String → ResourceLookupReference
entry name error = record {
  kind = "SwaggerDefinition";
  name = name;
  error = error;
  api_version = "swagger.infra.doodle.com/v1beta1";
}

abbrev start : Collected
start = record {
  catalog = entry "pets" "" ∷ entry "gone" "" ∷ [];
  schemas = [];
  security_schemes = [];
  paths = [];
}

abbrev results : List FetchResult
results =
    record {
      definition = private_pets;
      spec = some (record { components = none; paths = []; base_path = ok "/v1" });
      error = none;
      base_path = "/v1";
      ref_id = 0;
    }
    ∷ record {
      definition = missing;
      spec = none;
      error = some (record {
        is_not_found = true;
        message = "definition configmap does not exists: not found";
      });
      base_path = "";
      ref_id = 1;
    }
    ∷ []

fetched : fetch_results cluster library 0 (private_pets ∷ missing ∷ []) apps ≡ (ok results, apps)
unfolding fetch_results
fetched = refl

collect_results-catalog_example :
    (c' : Collected) × (collect_results start results ≡ ok c')
    × (c'.catalog
        ≡ entry "pets" "" ∷ entry "gone" "definition configmap does not exists: not found" ∷ [])
collect_results-catalog_example =
    collect_results-catalog cluster library (private_pets ∷ missing ∷ []) start apps fetched refl

abbrev pub specification : SwaggerSpecification
specification = record {
  type_meta = type_of "SwaggerSpecification";
  metadata = object_meta "all" "apps" [];
  spec = record {
    suspend = false;
    namespace_selector = none;
    definition_selector = some (record { match_labels = none; match_expressions = [] });
    info = record {
      title = "All";
      description = "";
      terms_of_service = "";
      contact = record { name = ""; url = ""; email = "" };
      license = record { name = ""; url = "" };
      version = "1";
    };
    servers = some (record { url = "https://api"; description = ""; variables = [] }) ∷ [];
  };
  status = record { conditions = []; observed_generation = 0; sub_resource_catalog = [] };
}

abbrev pub published : Cluster
published = record apps { specifications = specification ∷ [] }

listed_local :
    (l : List SwaggerSpecification)
    → All
        (λ s. s.metadata.namespace ≡ "apps")
        (filter_by (λ s. (s.metadata.namespace == "apps") && true) l)
listed_local [] = tt
listed_local (s ∷ l) = elim (Bool-cases (s.metadata.namespace == "apps")) [
  | inl e ↦ rw e ((eq_iff s.metadata.namespace "apps").0 e, listed_local l)
  | inr e ↦ rw e (listed_local l)
]

lists_namespace : ListsNamespace cluster private_pets.metadata
lists_namespace w w' l e =
    subst (All (λ s. s.metadata.namespace ≡ "apps"))
      (ap
        (λ (x : Result (List SwaggerSpecification) × Cluster). (elim x.0 [
          | ok a ↦ a
          | err e ↦ []
          | panic m ↦ []
        ]))
        e)
      (listed_local w.specifications)

requests_for_change_by_selector-IsLocal_example :
    All (IsLocal private_pets.metadata) (record { namespace = "apps"; name = "all" } ∷ [])
unfolding requests_for_change_by_selector
requests_for_change_by_selector-IsLocal_example =
    requests_for_change_by_selector-IsLocal cluster private_pets.metadata lists_namespace published
      refl

-- A document with a schema that refers to itself.
abbrev tree : String → Json
tree ref = object (field "items" (object (field "$ref" (string ref) end)) end)

abbrev forest : String → String → Fields
forest name ref =
    field "components" (object (field "schemas" (object (field name (tree ref) end)) end)) end

tree-HasSchema :
    HasSchema (forest "Tree" "#/components/schemas/Tree") "Tree" (tree "#/components/schemas/Tree")
unfolding get_field
tree-HasSchema = record {
  components = field "schemas" (object (field "Tree" (tree "#/components/schemas/Tree") end)) end;
  schemas = field "Tree" (tree "#/components/schemas/Tree") end;
  at_components = refl;
  at_schemas = refl;
  at_name = refl;
}

rename_components-HasSchema_example :
    (v' : Json) × (prefix_refs "pets" (tree "#/components/schemas/Tree") ≡ ok v')
    × HasSchema (forest "pets.Tree" "#/components/schemas/pets.Tree") "pets.Tree" v'
    × (prefix_ref "#/components/schemas/Tree" "pets" ≡ "#/components/schemas/pets.Tree")
unfolding prefix_refs rename_components split_last prefix_ref
rename_components-HasSchema_example =
    rename_components-HasSchema "pets" "Tree" (forest "Tree" "#/components/schemas/Tree")
      (forest "Tree" "#/components/schemas/pets.Tree")
      (forest "pets.Tree" "#/components/schemas/pets.Tree") (tree "#/components/schemas/Tree") refl
      refl tree-HasSchema refl refl
