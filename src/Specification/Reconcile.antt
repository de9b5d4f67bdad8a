-- ===== src/Specification/Reconcile.antt =====
-- `extendSpecificationWithDefinitions`, `reconcile`, `patchStatus`, `Reconcile` and the watch of the
-- specification controller.
use swagger_hub_controller.Base.{
  String, ◌<>◌, none, some, List, [], ◌∷◌, ◌++◌, map, Error, Result, ok, err, panic, Action, pure,
  and_then, lift, ◌>>=◌, ◌>>◌, if◌then◌else◌, Run, on_world, assign, current,
}
use swagger_hub_controller.Kube.Meta.{pos, ObjectMeta, ObjectKey, Selector, key_of, entries}
use swagger_hub_controller.Kube.Workload.{Bytes, ConfigMap}
use swagger_hub_controller.Kube.Client.{Client, Event}
use swagger_hub_controller.Api.Definition.{SwaggerDefinition, definition_object}
use swagger_hub_controller.Api.Specification.{
  SwaggerSpecification, ResourceLookupReference, specification_object,
}
use swagger_hub_controller.Api.Conditions.{
  swagger_specification_ready, condition_true, condition_false,
}
use swagger_hub_controller.Shared.Outcome.{CtrlResult, no_requeue, outcome, within}
use swagger_hub_controller.Shared.ConfigMaps.{owned_config_map, store_config_map}
use swagger_hub_controller.Shared.Lookup.{select_resources}
use swagger_hub_controller.Specification.OpenApi.{OpenApi, OpenApiLibrary}
use swagger_hub_controller.Specification.Generate.{generate_open_api}

-- An entry of the catalog; it names no namespace.
unfoldable pub lookup_reference : SwaggerDefinition → ResourceLookupReference
lookup_reference d = record {
  kind = d.type_meta.kind;
  name = d.metadata.name;
  error = "";
  api_version = d.type_meta.api_version;
}

-- `specification.Status.SubResourceCatalog = []infrav1beta1.ResourceLookupReference{}`
abbrev pub clear_catalog : SwaggerSpecification → SwaggerSpecification
clear_catalog s = record s { status = record (s.status) { sub_resource_catalog = [] } }

unfoldable pub extend_catalog : List SwaggerDefinition → SwaggerSpecification → SwaggerSpecification
unfolding lookup_reference
extend_catalog definitions s = record s {
  status = record (s.status) {
    sub_resource_catalog = s.status.sub_resource_catalog ++ map lookup_reference definitions;
  };
}

-- `fmt.Sprintf("swagger-specification-%s", specification.Name)`
abbrev pub specification_config_map : String → String
specification_config_map name = "swagger-specification-" <> name

abbrev pub specification_map : SwaggerSpecification → Bytes → ConfigMap
specification_map s b =
    record (owned_config_map (specification_config_map s.metadata.name) s.type_meta s.metadata) {
      binary_data = ("definition.json", b) ∷ [];
    }

-- `specification.Status.ObservedGeneration = specification.GetGeneration()`
abbrev pub observe : SwaggerSpecification → SwaggerSpecification
observe s = record s { status = record (s.status) { observed_generation = s.metadata.generation } }

-- The event that a failed reconciliation leaves.
abbrev pub failure_event : ObjectKey → Error → Event
failure_event key e = record {
  regarding = key;
  event_type = "Warning";
  reason = "Error";
  action = "Reconcile";
  note = "failed to reconcile: " <> e.message;
}

-- The request for a specification whose selector, if it is valid, matches the labels of the definition.
unfoldable pub request_of :
    SwaggerSpecification → ObjectMeta → Result Selector → Result (List ObjectKey)
request_of s o (ok label_sel) = ok (if label_sel (entries o.labels) then key_of s ∷ [] else [])
request_of s o (err e) = ok []
request_of s o (panic m) = panic m

module _ (K : Client) where
  -- The loop over the specifications.
  unfoldable pub requests_for_specifications :
      ObjectMeta → List SwaggerSpecification → Result (List ObjectKey)
  unfolding request_of
  requests_for_specifications o [] = ok []
  requests_for_specifications o (s ∷ specifications) =
      and_then (request_of s o (K.label_selector_as_selector s.spec.definition_selector))
        λ req. and_then (requests_for_specifications o specifications) λ reqs. ok (req ++ reqs)

  unfoldable pub requests_for_change_by_selector : ObjectMeta → Action K.World (List ObjectKey)
  unfolding requests_for_specifications
  requests_for_change_by_selector o w =
      let (r, w') =
        K.specifications.list (record { in_namespace = some o.namespace; matching_labels = none })
          w in
      elim r [
        | ok specifications ↦ (requests_for_specifications o specifications, w')
        | err e ↦ (ok [], w')
        | panic m ↦ (panic m, w')
      ]

  unfoldable pub extend_specification_with_definitions :
      Action (Run K.World SwaggerSpecification) (List SwaggerDefinition)
  unfolding select_resources extend_catalog
  extend_specification_with_definitions = do
    specification ← current
    definitions ← on_world (
        select_resources K K.definitions specification.spec.definition_selector
          specification.spec.namespace_selector specification.metadata.namespace)
    assign (λ _. extend_catalog definitions)
    pure definitions

  unfoldable pub patch_status : SwaggerSpecification → Action K.World SwaggerSpecification
  patch_status specification = do
    latest ← K.specifications.get (key_of specification)
    K.specifications.patch_status specification latest

  -- The specification whose status is patched.
  unfoldable pub reported :
      Result (Unit {0}) → K.World → SwaggerSpecification → SwaggerSpecification
  unfolding swagger_specification_ready
  reported (ok _) w s = observe s
  reported (err e) w s =
      swagger_specification_ready K condition_false "ReconciliationFailed" e.message w (observe s)
  reported (panic m) w s = s

  -- `Reconcile` from the return of `reconcile` on.
  unfoldable pub conclude : Result (Unit {0}) → SwaggerSpecification → Action K.World CtrlResult
  unfolding reported patch_status
  conclude (ok u) s w = (patch_status (reported (ok u) w s) >> lift (outcome (ok u))) w
  conclude (err e) s w =
      (patch_status (reported (err e) w s) >> lift (outcome (err e)))
        (K.eventf (failure_event (key_of s) e) w)
  conclude (panic m) s w = (panic m, w)

module _ (K : Client) (L : OpenApiLibrary) where
  -- The part of `reconcile` on the marshalled document.
  unfoldable pub store_specification :
      SwaggerSpecification → OpenApi → Action (Run K.World SwaggerSpecification) (Unit {0})
  unfolding store_config_map swagger_specification_ready
  store_specification specification open_api = do
    spec_json ← lift (L.marshal_json open_api)
    on_world (store_config_map K (specification_map specification spec_json))
    assign (
        swagger_specification_ready K condition_true "ReconciliationSuccessful"
          ("configmap/" <> (specification_config_map specification.metadata.name <> " created")))

  unfoldable pub reconcile : Action (Run K.World SwaggerSpecification) (Unit {0})
  unfolding extend_specification_with_definitions generate_open_api store_specification
  reconcile = do
    assign (λ _. clear_catalog)
    definitions ← extend_specification_with_definitions K
    open_api ← generate_open_api K L definitions
    specification ← current
    store_specification specification open_api

  unfoldable pub attempt : SwaggerSpecification → Action K.World CtrlResult
  unfolding reconcile conclude
  attempt specification w =
      let (r, s) = reconcile (record { world = w; object = specification }) in
      conclude K r s.object s.world

  -- `Reconcile`, under a deadline of three seconds
  unfoldable pub reconcile_request : ObjectKey → Action K.World CtrlResult
  unfolding attempt within
  reconcile_request key w =
      let (r, w') = K.specifications.get key w in
      elim r [
        | ok specification ↦
            if specification.spec.suspend
            then (ok no_requeue, w')
            else within K (pos 3000000000) (attempt specification) w'
        | err e ↦ if e.is_not_found then (ok no_requeue, w') else (err e, w')
        | panic m ↦ (panic m, w')
      ]
