-- ===== src/Api/Hub.antt =====
-- api/v1beta1/swaggerhub_types.go
use swagger_hub_controller.Base.{ℕ, String, Bool, List, Option}
use swagger_hub_controller.Base.Dict.{Dict}
use swagger_hub_controller.Kube.Meta.{ℤ, TypeMeta, ObjectMeta, Condition, LabelSelector, Object}
use swagger_hub_controller.Kube.Workload.{PodTemplateSpec, DeploymentStrategy}

-- `DeploymentSpec` of the hub, the part of a deployment that a user may set
pub record HubDeploymentSpec : Type 0 where
  pub replicas : Option ℤ
  pub template : PodTemplateSpec
  pub strategy : DeploymentStrategy
  pub min_ready_seconds : ℤ
  pub revision_history_limit : Option ℤ
  pub paused : Bool
  pub progress_deadline_seconds : Option ℤ

-- `DeploymentTemplate`, with the fields of the embedded `ObjectMetadata`
pub record DeploymentTemplate : Type 0 where
  pub labels : Option (Dict String)
  pub annotations : Option (Dict String)
  pub spec : HubDeploymentSpec

-- `SwaggerHubSpec`
pub record SwaggerHubSpec : Type 0 where
  pub deployment_template : Option DeploymentTemplate
  pub frontend_url : String
  pub suspend : Bool
  pub wait : Bool
  pub definition_selector : Option LabelSelector
  pub specification_selector : Option LabelSelector
  pub namespace_selector : Option LabelSelector

-- `ResourceReference`
pub record ResourceReference : Type 0 where
  pub kind : String
  pub name : String
  pub namespace : String
  pub api_version : String

-- `SwaggerHubStatus`
pub record SwaggerHubStatus : Type 0 where
  pub conditions : List Condition
  pub observed_generation : ℕ
  pub sub_resource_catalog : List ResourceReference

-- `SwaggerHub`
pub record SwaggerHub : Type 0 where
  pub type_meta : TypeMeta
  pub metadata : ObjectMeta
  pub spec : SwaggerHubSpec
  pub status : SwaggerHubStatus

instance abbrev pub hub_object : Object SwaggerHub
hub_object = record {
  type_of = λ h. h.type_meta;
  meta_of = λ h. h.metadata;
  with_type = λ t h. record h { type_meta = t };
}
