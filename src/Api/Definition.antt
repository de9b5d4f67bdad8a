-- ===== src/Api/Definition.antt =====
-- api/v1beta1/swaggerdefintion_types.go
use swagger_hub_controller.Base.{ℕ, String, Bool, List, Option}
use swagger_hub_controller.Kube.Meta.{ℤ, TypeMeta, ObjectMeta, Condition, Object}

-- `LocalSecretReference`
pub record LocalSecretReference : Type 0 where
  pub name : String
  pub username_field : String
  pub password_field : String

-- `BasicAuth`
pub record BasicAuth : Type 0 where
  pub username : String
  pub secret_ref : LocalSecretReference
  pub allow_insecure : Bool

-- `DefinitionAuth`
pub record DefinitionAuth : Type 0 where
  pub basic : Option BasicAuth

-- `SwaggerDefinitionSpec`; durations in nanoseconds
pub record SwaggerDefinitionSpec : Type 0 where
  pub url : Option String
  pub suspend : Bool
  pub interval : ℤ
  pub timeout : ℤ
  pub auth : Option DefinitionAuth

-- `SwaggerDefinitionStatus`
pub record SwaggerDefinitionStatus : Type 0 where
  pub conditions : List Condition
  pub observed_generation : ℕ

-- `SwaggerDefinition`
pub record SwaggerDefinition : Type 0 where
  pub type_meta : TypeMeta
  pub metadata : ObjectMeta
  pub spec : SwaggerDefinitionSpec
  pub status : SwaggerDefinitionStatus

instance abbrev pub definition_object : Object SwaggerDefinition
definition_object = record {
  type_of = λ d. d.type_meta;
  meta_of = λ d. d.metadata;
  with_type = λ t d. record d { type_meta = t };
}
