-- ===== src/Hub/Catalog.antt =====
-- `extendhubWithDefinitions` and `extendhubWithSpecifications`.
use swagger_hub_controller.Base.{
  String, List, ◌++◌, map, Action, Run, on_world, assign, current, pure, ◌>>=◌, ◌>>◌, if◌then◌else◌,
  ◌==◌,
}
use swagger_hub_controller.Kube.Meta.{TypeMeta, ObjectMeta}
use swagger_hub_controller.Kube.Client.{Client}
use swagger_hub_controller.Api.Hub.{SwaggerHub, ResourceReference}
use swagger_hub_controller.Api.Definition.{SwaggerDefinition, definition_object}
use swagger_hub_controller.Api.Specification.{SwaggerSpecification, specification_object}
use swagger_hub_controller.Shared.Lookup.{select_resources}

-- The reference to a resource; its namespace is left out where it is that of the hub.
unfoldable pub resource_reference : String → TypeMeta → ObjectMeta → ResourceReference
resource_reference hub_namespace t m = record {
  kind = t.kind;
  name = m.name;
  namespace = if m.namespace == hub_namespace then "" else m.namespace;
  api_version = t.api_version;
}

-- The last loop: the references are appended to the catalog.
unfoldable pub extend_catalog : List ResourceReference → SwaggerHub → SwaggerHub
extend_catalog refs hub = record hub {
  status = record (hub.status) { sub_resource_catalog = hub.status.sub_resource_catalog ++ refs };
}

module _ (K : Client) where
  unfoldable pub extend_hub_with_definitions :
      Action (Run K.World SwaggerHub) (List SwaggerDefinition)
  unfolding select_resources resource_reference extend_catalog
  extend_hub_with_definitions = do
    hub ← current
    items ← on_world (
        select_resources K K.definitions hub.spec.definition_selector hub.spec.namespace_selector
          hub.metadata.namespace)
    assign (λ _.
        extend_catalog
          (map (λ d. resource_reference hub.metadata.namespace d.type_meta d.metadata) items))
    pure items

  unfoldable pub extend_hub_with_specifications :
      Action (Run K.World SwaggerHub) (List SwaggerSpecification)
  unfolding select_resources resource_reference extend_catalog
  extend_hub_with_specifications = do
    hub ← current
    items ← on_world (
        select_resources K K.specifications hub.spec.specification_selector
          hub.spec.namespace_selector hub.metadata.namespace)
    assign (λ _.
        extend_catalog
          (map (λ s. resource_reference hub.metadata.namespace s.type_meta s.metadata) items))
    pure items
