-- ===== src/Specification/Generate.antt =====
-- `generateOpenAPI`: the definitions are loaded from their config maps and merged into one document.
use swagger_hub_controller.Base.{
  ℕ, zero, suc, String, ◌<>◌, Option, none, some, List, [], ◌∷◌, ◌++◌, Error, Result, ok, err,
  panic, errorf, wrap, map_err, and_then, Action, Run, on_world, assign, current, pure, lift, ◌>>=◌,
  ◌>>◌, if◌then◌else◌, ◌==◌,
}
use swagger_hub_controller.Base.Dict.{Dict, lookup, insert}
use swagger_hub_controller.Kube.Workload.{ConfigMap}
use swagger_hub_controller.Kube.Client.{Client}
use swagger_hub_controller.Api.Definition.{SwaggerDefinition}
use swagger_hub_controller.Api.Specification.{
  SwaggerSpecification, ResourceLookupReference, Info, Server,
}
use swagger_hub_controller.Specification.Json.{Json}
use swagger_hub_controller.Specification.References.{prefix_fields, rename_components}
use swagger_hub_controller.Specification.OpenApi.{
  Operation, PathItem, Components, OpenApiInfo, OpenApiServer, OpenApi, Loaded, OpenApiLibrary,
}

-- `fetchResult`
pub record FetchResult : Type 0 where
  pub definition : SwaggerDefinition
  pub spec : Option Loaded
  pub error : Option Error
  pub base_path : String
  pub ref_id : ℕ

-- `schema.Info`; the version of the specification is not copied.
unfoldable pub open_api_info : Info → OpenApiInfo
open_api_info i = record {
  title = i.title;
  description = i.description;
  terms_of_service = i.terms_of_service;
  contact = i.contact;
  license = i.license;
  version = "";
}

unfoldable pub open_api_server : Server → OpenApiServer
open_api_server s = record { url = s.url; description = s.description }

-- The loop over the servers, which dereferences each of them.
unfoldable pub open_api_servers : List (Option Server) → Result (List OpenApiServer)
unfolding open_api_server
open_api_servers [] = ok []
open_api_servers (none ∷ servers) = panic "invalid memory address or nil pointer dereference"
open_api_servers (some srv ∷ servers) =
    and_then (open_api_servers servers) λ rest. ok (open_api_server srv ∷ rest)

-- A result without a document.
abbrev pub failed : ℕ → SwaggerDefinition → Error → FetchResult
failed ref_id definition e = record {
  definition = definition;
  spec = none;
  error = some e;
  base_path = "";
  ref_id = ref_id;
}

-- A result with a document, which still has an error if there is no base path.
unfoldable pub loaded : ℕ → SwaggerDefinition → Loaded → Result FetchResult
loaded ref_id definition s = elim s.base_path [
  | ok base ↦ ok (record {
    definition = definition;
    spec = some s;
    error = none;
    base_path = base;
    ref_id = ref_id;
  })
  | err e ↦ ok (record {
    definition = definition;
    spec = some s;
    error = some (wrap "failed to extract base path: " e);
    base_path = "";
    ref_id = ref_id;
  })
  | panic m ↦ panic m
]

-- `specification.Status.SubResourceCatalog[i].Error = message`
unfoldable pub set_error :
    ℕ → String → List ResourceLookupReference → Result (List ResourceLookupReference)
set_error i message [] = panic "index out of range"
set_error zero message (r ∷ refs) = ok (record r { error = message } ∷ refs)
set_error (suc i) message (r ∷ refs) = and_then (set_error i message refs) λ refs'. ok (r ∷ refs')

-- `for name, v := range from { to[name] = v }`
unfoldable pub insert_all {ℓ} : {V : Type ℓ} → Dict V → Dict V → Dict V
unfolding insert
insert_all [] to = to
insert_all ((name, v) ∷ from) to = insert_all from (insert name v to)

-- `op.Tags = []string{result.definition.Name}` for each operation.
unfoldable pub tag_operations : String → Dict Operation → Dict Operation
tag_operations name [] = []
tag_operations name ((method, op) ∷ ops) =
    (method, record op { tags = name ∷ [] }) ∷ tag_operations name ops

-- The paths of a document, behind its base path.
unfoldable pub tagged_paths : String → String → Dict PathItem → List (String × PathItem)
unfolding tag_operations
tagged_paths name base [] = []
tagged_paths name base ((path, item) ∷ paths) =
    (
      (if base == "/" then "" else base) <> path,
      record item { operations = tag_operations name item.operations },
    )
    ∷ tagged_paths name base paths

-- What the loop over the results has gathered.
pub record Collected : Type 0 where
  pub catalog : List ResourceLookupReference
  pub schemas : Dict Json
  pub security_schemes : Dict Json
  pub paths : List (String × PathItem)

-- The components of one document are added.
unfoldable pub add_components : Option Components → Collected → Collected
unfolding insert_all
add_components none c = c
add_components (some cs) c = record c {
  schemas = insert_all cs.schemas c.schemas;
  security_schemes = insert_all cs.security_schemes c.security_schemes;
}

-- The body of the loop over the results.
unfoldable pub collect_result : Collected → FetchResult → Result Collected
unfolding set_error add_components tagged_paths
collect_result c result = elim result.error [
  | some e ↦
      and_then (set_error result.ref_id e.message c.catalog)
        λ catalog. ok (record c { catalog = catalog })
  | none ↦ elim result.spec [
    | none ↦ panic "invalid memory address or nil pointer dereference"
    | some s ↦
        let added = add_components s.components c in
        ok (record added {
          paths =
              added.paths ++ tagged_paths result.definition.metadata.name result.base_path s.paths;
        })
  ]
]

unfoldable pub collect_results : Collected → List FetchResult → Result Collected
unfolding collect_result
collect_results c [] = ok c
collect_results c (result ∷ results) =
    and_then (collect_result c result) λ c'. collect_results c' results

module _ (K : Client) (L : OpenApiLibrary) where
  -- The document of one definition, from its config map.
  unfoldable pub load_document : String → ConfigMap → Result Loaded
  unfolding lookup prefix_fields rename_components
  load_document name cm = elim (lookup "definition.json" cm.binary_data) [
    | none ↦ err (errorf "definition.json does not exists in definition configmap: %!w(<nil>)")
    | some b ↦
        and_then (map_err (wrap "failed to unmarshal definition: ") (L.unmarshal b)) λ untyped_spec.
          and_then (prefix_fields name untyped_spec) λ prefixed.
            and_then (rename_components name prefixed) λ renamed.
              and_then (map_err (wrap "failed to marshal specification: ") (L.marshal renamed))
                λ b'. map_err (wrap "failed to load SwaggerDefinition url: ") (L.load_from_data b')
  ]

  -- The part of the first loop's body after the config map was read.
  unfoldable pub fetch_loaded : ℕ → SwaggerDefinition → ConfigMap → Result FetchResult
  unfolding load_document loaded
  fetch_loaded ref_id definition cm = elim (load_document definition.metadata.name cm) [
    | ok s ↦ loaded ref_id definition s
    | err e ↦ ok (failed ref_id definition e)
    | panic m ↦ panic m
  ]

  -- The body of the first loop.
  unfoldable pub fetch_result : ℕ → SwaggerDefinition → Action K.World FetchResult
  unfolding fetch_loaded
  fetch_result ref_id definition w =
      let (r, w') =
        K.config_maps.get
          (record {
            namespace = definition.metadata.namespace;
            name = "swagger-definition-" <> definition.metadata.name;
          })
          w in
      elim r [
        | ok cm ↦ (fetch_loaded ref_id definition cm, w')
        | err e ↦
            (ok (failed ref_id definition (wrap "definition configmap does not exists: " e)), w')
        | panic m ↦ (panic m, w')
      ]

  unfoldable pub fetch_results : ℕ → List SwaggerDefinition → Action K.World (List FetchResult)
  unfolding fetch_result
  fetch_results ref_id [] = pure []
  fetch_results ref_id (definition ∷ definitions) = do
    result ← fetch_result ref_id definition
    results ← fetch_results (suc ref_id) definitions
    pure (result ∷ results)

  -- The document, from what was gathered.
  unfoldable pub assemble : SwaggerSpecification → List OpenApiServer → Collected → OpenApi
  unfolding open_api_info
  assemble specification servers c = record {
    open_api = "3.0.1";
    info = open_api_info specification.spec.info;
    servers = servers;
    paths = L.new_paths c.paths;
    components = record { schemas = c.schemas; security_schemes = c.security_schemes };
  }

  unfoldable pub generate_open_api :
      List SwaggerDefinition → Action (Run K.World SwaggerSpecification) OpenApi
  unfolding open_api_servers fetch_results collect_results assemble
  generate_open_api definitions = do
    specification ← current
    servers ← lift (open_api_servers specification.spec.servers)
    results ← on_world (fetch_results 0 definitions)
    c ← lift (
        collect_results
          (record {
            catalog = specification.status.sub_resource_catalog;
            schemas = [];
            security_schemes = [];
            paths = [];
          })
          results)
    assign (λ _ s. record s { status = record (s.status) { sub_resource_catalog = c.catalog } })
    pure (assemble specification servers c)
