-- ===== src/Api/Specification.antt =====
-- api/v1beta1/swaggerspecification_types.go
use swagger_hub_controller.Base.{ℕ, String, Bool, List, Option}
use swagger_hub_controller.Base.Dict.{Dict}
use swagger_hub_controller.Kube.Meta.{TypeMeta, ObjectMeta, Condition, LabelSelector, Object}

-- `Contact`
pub record Contact : Type 0 where
  pub name : String
  pub url : String
  pub email : String

-- `License`
pub record License : Type 0 where
  pub name : String
  pub url : String

-- `Info`
pub record Info : Type 0 where
  pub title : String
  pub description : String
  pub terms_of_service : String
  pub contact : Contact
  pub license : License
  pub version : String

-- `ServerVariable`
pub record ServerVariable : Type 0 where
  pub enum : List String
  pub default : String
  pub description : String

-- `Server`
pub record Server : Type 0 where
  pub url : String
  pub description : String
  pub variables : Dict ServerVariable

-- `SwaggerSpecificationSpec`; an item of `servers` is a pointer, which may be nil
pub record SwaggerSpecificationSpec : Type 0 where
  pub suspend : Bool
  pub namespace_selector : Option LabelSelector
  pub definition_selector : Option LabelSelector
  pub info : Info
  pub servers : List (Option Server)

-- `ResourceLookupReference`
pub record ResourceLookupReference : Type 0 where
  pub kind : String
  pub name : String
  pub error : String
  pub api_version : String

-- `SwaggerSpecificationStatus`
pub record SwaggerSpecificationStatus : Type 0 where
  pub conditions : List Condition
  pub observed_generation : ℕ
  pub sub_resource_catalog : List ResourceLookupReference

-- `SwaggerSpecification`
pub record SwaggerSpecification : Type 0 where
  pub type_meta : TypeMeta
  pub metadata : ObjectMeta
  pub spec : SwaggerSpecificationSpec
  pub status : SwaggerSpecificationStatus

instance abbrev pub specification_object : Object SwaggerSpecification
specification_object = record {
  type_of = λ s. s.type_meta;
  meta_of = λ s. s.metadata;
  with_type = λ t s. record s { type_meta = t };
}
