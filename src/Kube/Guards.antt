-- ===== src/Kube/Guards.antt =====
-- Calls of the client that keep a property of the cluster.
use swagger_hub_controller.Base.{Bool, ◌≡◌, String, Option, ok}
use swagger_hub_controller.Base.Runs.{Guards, IsCalm}
use swagger_hub_controller.Kube.Meta.{ℤ, ObjectKey, LabelSelector}
use swagger_hub_controller.Kube.Client.{Client, Resource, ListOptions, Event}
use swagger_hub_controller.Api.Definition.{SwaggerDefinition}
use swagger_hub_controller.Api.Hub.{SwaggerHub}
use swagger_hub_controller.Api.Specification.{SwaggerSpecification}

module _ {W : Type 0} (I : W → Type 0) (C : String → Type 0) where
  -- Reading resources of one type keeps the property, and panics only as allowed.
  pub record Reads {D A : Type 0} (R : Resource W D A) : Type 0 where
    pub get : (key : ObjectKey) → Guards I C (R.get key)
    pub list : (options : ListOptions) → Guards I C (R.list options)

  -- So does writing those that are allowed.
  pub record Writes {D A : Type 0} (Allowed : A → Type 0) (R : Resource W D A) : Type 0 where
    pub create : (a : A) → Allowed a → Guards I C (R.create a)
    pub update : (a : A) → Allowed a → Guards I C (R.update a)
    pub to_unstructured : (a : A) → IsCalm C (R.to_unstructured a)
    pub apply :
        (a : A) (d : D) (owner : String) (force : Bool)
        → Allowed a
        → R.to_unstructured a ≡ ok d
        → Guards I C (R.apply d owner force)

-- All that the controllers call keeps the property, but for what writes services and deployments.
pub record CallsGuard (K : Client) (I : K.World → Type 0) (C : String → Type 0) : Type 0 where
  pub hubs : Reads I C K.hubs
  pub definitions : Reads I C K.definitions
  pub specifications : Reads I C K.specifications
  pub config_maps : Reads I C K.config_maps
  pub secrets : Reads I C K.secrets
  pub namespaces : Reads I C K.namespaces
  pub deployments : Reads I C K.deployments
  pub services : Reads I C K.services
  pub config_map_writes : Writes I C (λ _. Unit) K.config_maps
  pub hub_status : (h base : SwaggerHub) → Guards I C (K.hubs.patch_status h base)
  pub definition_status :
      (d base : SwaggerDefinition) → Guards I C (K.definitions.patch_status d base)
  pub specification_status :
      (s base : SwaggerSpecification) → Guards I C (K.specifications.patch_status s base)
  pub label_selector : (s : Option LabelSelector) → IsCalm C (K.label_selector_as_selector s)
  pub eventf : (e : Event) (w : K.World) → I w → I (K.eventf e w)
  pub with_timeout : (d : ℤ) (w : K.World) → I w → I (K.with_timeout d w)
  pub cancel : (w : K.World) → I w → I (K.cancel w)
