-- ===== src/Manager/Setup.antt =====
-- The `SetupWithManager` functions: what each controller reconciles and watches.
use swagger_hub_controller.Base.{String, true, [], ◌∷◌, if◌then◌else◌, ◌==◌}
use swagger_hub_controller.Kube.Meta.{ℤ}
use swagger_hub_controller.Kube.Workload.{Container}
use swagger_hub_controller.Kube.Client.{Client}
use swagger_hub_controller.Api.Scheme.{GroupVersionKind, group_version_kind}
use swagger_hub_controller.Merge.{StrategicPatch}
use swagger_hub_controller.Definition.Fetch.{HttpClient}
use swagger_hub_controller.Definition.Reconcile.{reconcile_request as reconcile_definition}
use swagger_hub_controller.Hub.Watch.{
  requests_for_change_by_definition_selector, requests_for_change_by_specification_selector,
}
use swagger_hub_controller.Hub.Reconcile.{reconcile_request as reconcile_hub}
use swagger_hub_controller.Specification.OpenApi.{OpenApiLibrary}
use swagger_hub_controller.Specification.Reconcile.{
  requests_for_change_by_selector, reconcile_request as reconcile_specification,
}
use swagger_hub_controller.Manager.Runtime.{Controller, map_func, controller_owner}

abbrev pub config_map_kind : GroupVersionKind
config_map_kind = record { group = ""; version = "v1"; kind = "ConfigMap" }

abbrev pub secret_kind : GroupVersionKind
secret_kind = record { group = ""; version = "v1"; kind = "Secret" }

abbrev pub service_kind : GroupVersionKind
service_kind = record { group = ""; version = "v1"; kind = "Service" }

abbrev pub deployment_kind : GroupVersionKind
deployment_kind = record { group = "apps"; version = "v1"; kind = "Deployment" }

-- `SwaggerHubReconcilerOptions`
pub record SwaggerHubReconcilerOptions : Type 0 where
  pub max_concurrent_reconciles : ℤ
  pub default_swagger_ui_image : String

-- `SwaggerDefinitionReconcilerOptions`
pub record SwaggerDefinitionReconcilerOptions : Type 0 where
  pub max_concurrent_reconciles : ℤ

-- `SwaggerSpecificationReconcilerOptions`
pub record SwaggerSpecificationReconcilerOptions : Type 0 where
  pub max_concurrent_reconciles : ℤ

-- `r.DefaultSwaggerUIImage` after the first statement of the setup.
unfoldable pub reconciler_image : String → SwaggerHubReconcilerOptions → String
reconciler_image image opts =
    if opts.default_swagger_ui_image == "" then image else opts.default_swagger_ui_image

-- The controller of a reconciler with the given `DefaultSwaggerUIImage`.
unfoldable pub setup_hub :
    (K : Client) (P : StrategicPatch Container) (image : String)
    → SwaggerHubReconcilerOptions
    → Controller K
unfolding requests_for_change_by_definition_selector requests_for_change_by_specification_selector
    reconcile_hub reconciler_image
setup_hub K P image opts = record {
  for_kind = group_version_kind "SwaggerHub";
  generation_changed = true;
  watches =
      record {
        kind = group_version_kind "SwaggerDefinition";
        event_handler = map_func (requests_for_change_by_definition_selector K);
      }
      ∷ record {
        kind = group_version_kind "SwaggerSpecification";
        event_handler = map_func (requests_for_change_by_specification_selector K);
      }
      ∷ record {
        kind = service_kind;
        event_handler = controller_owner (group_version_kind "SwaggerHub");
      }
      ∷ record {
        kind = deployment_kind;
        event_handler = controller_owner (group_version_kind "SwaggerHub");
      }
      ∷ [];
  max_concurrent_reconciles = opts.max_concurrent_reconciles;
  reconcile = reconcile_hub K P (reconciler_image image opts);
}

unfoldable pub setup_definition :
    (K : Client) (H : HttpClient K.World) → SwaggerDefinitionReconcilerOptions → Controller K
unfolding reconcile_definition
setup_definition K H opts = record {
  for_kind = group_version_kind "SwaggerDefinition";
  generation_changed = true;
  watches =
      record {
        kind = config_map_kind;
        event_handler = controller_owner (group_version_kind "SwaggerDefinition");
      }
      ∷ [];
  max_concurrent_reconciles = opts.max_concurrent_reconciles;
  reconcile = reconcile_definition K H;
}

unfoldable pub setup_specification :
    (K : Client) (L : OpenApiLibrary) → SwaggerSpecificationReconcilerOptions → Controller K
unfolding requests_for_change_by_selector reconcile_specification
setup_specification K L opts = record {
  for_kind = group_version_kind "SwaggerSpecification";
  generation_changed = true;
  watches =
      record {
        kind = group_version_kind "SwaggerDefinition";
        event_handler = map_func (requests_for_change_by_selector K);
      }
      ∷ [];
  max_concurrent_reconciles = opts.max_concurrent_reconciles;
  reconcile = reconcile_specification K L;
}
