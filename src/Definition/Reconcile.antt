-- ===== src/Definition/Reconcile.antt =====
-- `reconcile`, `patchStatus` and `Reconcile` of the definition controller.
use swagger_hub_controller.Base.{
  String, ◌<>◌, none, some, [], ◌∷◌, Error, Result, ok, err, panic, errorf, Action, pure, lift,
  wrapping, ◌>>=◌, ◌>>◌, if◌then◌else◌, Run, on_world, assign,
}
use swagger_hub_controller.Kube.Meta.{ObjectKey, key_of}
use swagger_hub_controller.Kube.Workload.{Bytes, ConfigMap}
use swagger_hub_controller.Kube.Client.{Client, Event}
use swagger_hub_controller.Api.Definition.{SwaggerDefinition, definition_object}
use swagger_hub_controller.Api.Conditions.{
  swagger_definition_ready, condition_true, condition_false,
}
use swagger_hub_controller.Shared.Outcome.{CtrlResult, no_requeue, is_positive, outcome, within}
use swagger_hub_controller.Shared.ConfigMaps.{owned_config_map, store_config_map}
use swagger_hub_controller.Definition.Fetch.{HttpClient, fetch_definition}

-- `fmt.Sprintf("swagger-definition-%s", definition.Name)`
abbrev pub definition_config_map : String → String
definition_config_map name = "swagger-definition-" <> name

-- The config map, with the fetched document.
abbrev pub definition_map : SwaggerDefinition → Bytes → ConfigMap
definition_map d b =
    record (owned_config_map (definition_config_map d.metadata.name) d.type_meta d.metadata) {
      binary_data = ("definition.json", b) ∷ [];
    }

-- `definition.Status.ObservedGeneration = definition.GetGeneration()`
abbrev pub observe : SwaggerDefinition → SwaggerDefinition
observe d = record d { status = record (d.status) { observed_generation = d.metadata.generation } }

-- The event that a failed reconciliation leaves.
abbrev pub failure_event : ObjectKey → Error → Event
failure_event key e = record {
  regarding = key;
  event_type = "Warning";
  reason = "Error";
  action = "Reconcile";
  note = "failed to reconcile: " <> e.message;
}

module _ (K : Client) where
  -- `patchStatus`, with the definition that it leaves in place of its argument
  unfoldable pub patch_status : SwaggerDefinition → Action K.World SwaggerDefinition
  patch_status definition = do
    latest ← K.definitions.get (key_of definition)
    K.definitions.patch_status definition latest

  -- The definition whose status is patched.
  unfoldable pub reported : Result (Unit {0}) → K.World → SwaggerDefinition → SwaggerDefinition
  unfolding swagger_definition_ready
  reported (ok _) w d = observe d
  reported (err e) w d =
      swagger_definition_ready K condition_false "ReconciliationFailed" e.message w (observe d)
  reported (panic m) w d = d

  -- `Reconcile` from the status patch on, given what `reconcile` has returned. The interval is that of the
  -- definition as the server has answered it.
  unfoldable pub finish : Result (Unit {0}) → SwaggerDefinition → Action K.World CtrlResult
  unfolding patch_status
  finish r d = patch_status d >>= λ d'.
      if is_positive d'.spec.interval
      then pure (record { requeue_after = d'.spec.interval })
      else lift (outcome r)

  -- `Reconcile` from the return of `reconcile` on.
  unfoldable pub conclude : Result (Unit {0}) → SwaggerDefinition → Action K.World CtrlResult
  unfolding reported finish
  conclude (ok u) d w = finish (ok u) (reported (ok u) w d) w
  conclude (err e) d w =
      finish (err e) (reported (err e) w d) (K.eventf (failure_event (key_of d) e) w)
  conclude (panic m) d w = (panic m, w)

module _ (K : Client) (H : HttpClient K.World) where
  -- `reconcile` from the fetch on.
  unfoldable pub store_definition :
      SwaggerDefinition → Action (Run K.World SwaggerDefinition) (Unit {0})
  unfolding fetch_definition store_config_map swagger_definition_ready
  store_definition definition = do
    b ← on_world (wrapping "failed to fetch definition: " (fetch_definition K H definition))
    on_world (store_config_map K (definition_map definition b))
    assign (
        swagger_definition_ready K condition_true "ReconciliationSuccessful"
          ("configmap/" <> (definition_config_map definition.metadata.name <> " created")))

  unfoldable pub reconcile : Action (Run K.World SwaggerDefinition) (Unit {0})
  unfolding store_definition
  reconcile s = elim s.object.spec.url [
    | none ↦ (err (errorf "url is required"), s)
    | some url ↦ store_definition s.object s
  ]

  unfoldable pub attempt : SwaggerDefinition → Action K.World CtrlResult
  unfolding reconcile conclude
  attempt d w =
      let (r, s) = reconcile (record { world = w; object = d }) in conclude K r s.object s.world

  -- `Reconcile`
  unfoldable pub reconcile_request : ObjectKey → Action K.World CtrlResult
  unfolding attempt within
  reconcile_request key w =
      let (r, w') = K.definitions.get key w in
      elim r [
        | ok d ↦
            if d.spec.suspend
            then (ok no_requeue, w')
            else if is_positive d.spec.timeout
            then within K d.spec.timeout (attempt d) w'
            else attempt d w'
        | err e ↦ if e.is_not_found then (ok no_requeue, w') else (err e, w')
        | panic m ↦ (panic m, w')
      ]
