-- ===== src/Kube/Client.antt =====
-- The libraries that the controllers call, as parameters: the client of controller-runtime, label
-- selectors, the functions on conditions, the recorder and the clock.
use swagger_hub_controller.Base.{String, Bool, List, Option, Result, Action}
use swagger_hub_controller.Kube.Meta.{ℤ, Condition, LabelSelector, Selector, ObjectKey}
use swagger_hub_controller.Kube.Workload.{ConfigMap, Secret, Namespace, Deployment, Service}
use swagger_hub_controller.Api.Definition.{SwaggerDefinition}
use swagger_hub_controller.Api.Hub.{SwaggerHub}
use swagger_hub_controller.Api.Specification.{SwaggerSpecification}

-- `client.InNamespace` and `client.MatchingLabelsSelector`
pub record ListOptions : Type 0 where
  pub in_namespace : Option String
  pub matching_labels : Option Selector

-- The calls on resources of one type. `C` is unstructured content.
pub record Resource (W C A : Type 0) : Type 0 where
  pub get : ObjectKey → Action W A
  pub list : ListOptions → Action W (List A)
  pub create : A → Action W (Unit {0})
  pub update : A → Action W (Unit {0})
  -- `ToUnstructured`
  pub to_unstructured : A → Result C
  -- `Apply` with a field owner and `ForceOwnership`
  pub apply : C → String → Bool → Action W (Unit {0})
  -- `Status().Patch(obj, client.MergeFrom(base))`, given the object and the base; the object becomes what the
  -- server answers
  pub patch_status : A → A → Action W A

-- An event about the resource at a key.
pub record Event : Type 0 where
  pub regarding : ObjectKey
  pub event_type : String
  pub reason : String
  pub action : String
  pub note : String

pub record Client : Type 1 where
  pub World : Type 0
  pub Content : Type 0
  pub hubs : Resource World Content SwaggerHub
  pub definitions : Resource World Content SwaggerDefinition
  pub specifications : Resource World Content SwaggerSpecification
  pub config_maps : Resource World Content ConfigMap
  pub secrets : Resource World Content Secret
  pub namespaces : Resource World Content Namespace
  pub deployments : Resource World Content Deployment
  pub services : Resource World Content Service
  -- `metav1.LabelSelectorAsSelector`
  pub label_selector_as_selector : Option LabelSelector → Result Selector
  -- `apimeta.SetStatusCondition`, which reads the clock
  pub set_status_condition : World → List Condition → Condition → List Condition
  -- `conditions.Delete`
  pub delete_condition : List Condition → String → List Condition
  -- `Recorder.Eventf`
  pub eventf : Event → World → World
  -- `context.WithTimeout`, and the deferred `cancel`
  pub with_timeout : ℤ → World → World
  pub cancel : World → World
