-- ===== src/Api/Scheme.antt =====
-- api/v1beta1/groupversion_info.go, and the `init` functions and list types of the package.
use swagger_hub_controller.Base.{String, Bool, false, ◌&&◌, ◌||◌, List, [], ◌∷◌, ◌++◌, ◌==◌}

-- `schema.GroupVersionKind`
pub record GroupVersionKind : Type 0 where
  pub group : String
  pub version : String
  pub kind : String

-- A scheme, as the kinds that it knows.
abbrev pub Scheme : Type 0
Scheme = List GroupVersionKind

-- `GroupVersion`, with a kind
abbrev pub group_version_kind : String → GroupVersionKind
group_version_kind kind = record {
  group = "swagger.infra.doodle.com";
  version = "v1beta1";
  kind = kind;
}

-- `objectTypes = append(objectTypes, …)`, by the names of the types, which become the kinds
unfoldable pub append_definition_types : List String → List String
append_definition_types types = types ++ "SwaggerDefinition" ∷ "SwaggerDefinitionList" ∷ []

unfoldable pub append_hub_types : List String → List String
append_hub_types types = types ++ "SwaggerHub" ∷ "SwaggerHubList" ∷ []

unfoldable pub append_specification_types : List String → List String
append_specification_types types = types ++ "SwaggerSpecification" ∷ "SwaggerSpecificationList" ∷ []

-- `objectTypes` after the `init` functions have run, in the order of their files.
unfoldable pub object_types : List String
unfolding append_definition_types append_hub_types append_specification_types
object_types = append_specification_types (append_hub_types (append_definition_types []))

-- `scheme.AddKnownTypes(GroupVersion, …)`
unfoldable pub add_types : List String → Scheme → Scheme
add_types [] scheme = scheme
add_types (kind ∷ kinds) scheme = add_types kinds (group_version_kind kind ∷ scheme)

-- `metav1.AddToGroupVersion` is given. There is never an error.
unfoldable pub add_known_types : (Scheme → Scheme) → Scheme → Scheme
unfolding object_types add_types
add_known_types add_to_group_version scheme = add_to_group_version (add_types object_types scheme)

-- The scheme knows the kind.
unfoldable pub recognizes : Scheme → GroupVersionKind → Bool
recognizes [] k = false
recognizes (x ∷ scheme) k =
    (x.group == k.group && x.version == k.version && x.kind == k.kind) || recognizes scheme k
