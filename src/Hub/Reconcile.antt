-- ===== src/Hub/Reconcile.antt =====
-- `reconcile`, `patchStatus` and `Reconcile` of the hub controller.
use swagger_hub_controller.Base.{
  String, ◌<>◌, List, [], ◌∷◌, Error, Result, ok, err, panic, and_then, Action, lift, ◌>>=◌, ◌>>◌,
  if◌then◌else◌, ◌==◌, nat_eq, Run, on_world, assign, current,
}
use swagger_hub_controller.Kube.Meta.{ObjectKey, key_of}
use swagger_hub_controller.Kube.Workload.{Container, Deployment, deployment_object, service_object}
use swagger_hub_controller.Kube.Client.{Client, Event}
use swagger_hub_controller.Api.Hub.{SwaggerHub, hub_object}
use swagger_hub_controller.Api.Definition.{SwaggerDefinition}
use swagger_hub_controller.Api.Specification.{SwaggerSpecification}
use swagger_hub_controller.Api.Conditions.{
  swagger_hub_ready, swagger_hub_healthy, swagger_hub_reconciling, condition_true, condition_false,
  condition_healthy, condition_reconciling,
}
use swagger_hub_controller.Merge.{StrategicPatch, merge_patch_containers}
use swagger_hub_controller.Shared.Outcome.{CtrlResult, no_requeue, outcome}
use swagger_hub_controller.Hub.Catalog.{extend_hub_with_definitions, extend_hub_with_specifications}
use swagger_hub_controller.Hub.Ownership.{create_or_update_with_ownership_validation}
use swagger_hub_controller.Hub.Mounts.{ApiUrl, MountRef, mount_refs, refine_refs}
use swagger_hub_controller.Hub.Deployment.{
  ui_name, deployment_template, swagger_ui_container, with_pod, service_template, share_labels,
}

-- `hub.Status.SubResourceCatalog = []infrav1beta1.ResourceReference{}`
abbrev pub clear_catalog : SwaggerHub → SwaggerHub
clear_catalog hub = record hub { status = record (hub.status) { sub_resource_catalog = [] } }

-- `frontendURL`
abbrev pub frontend_url_of : SwaggerHub → String
frontend_url_of hub =
    if hub.spec.frontend_url == "" then "http://localhost" else hub.spec.frontend_url

-- The event of a failed health check.
abbrev pub unhealthy_event : SwaggerHub → Event
unhealthy_event hub = record {
  regarding = key_of hub;
  event_type = "Warning";
  reason = "Error";
  action = "HealthCheck";
  note = "health check failed; no endpoint is ready";
}

-- The event that a failed reconciliation leaves.
abbrev pub failure_event : SwaggerHub → Error → Event
failure_event hub e = record {
  regarding = key_of hub;
  event_type = "Normal";
  reason = "Error";
  action = "Reconcile";
  note = "failed to reconcile: " <> e.message;
}

-- `hub.Status.ObservedGeneration = hub.GetGeneration()`
abbrev pub observe : SwaggerHub → SwaggerHub
observe h = record h { status = record (h.status) { observed_generation = h.metadata.generation } }

module _ (K : Client) where
  -- `conditions.Delete`
  unfoldable pub delete_condition : String → K.World → SwaggerHub → SwaggerHub
  delete_condition condition _ hub = record hub {
    status = record (hub.status) {
      conditions = K.delete_condition hub.status.conditions condition;
    };
  }

  -- The end of a successful `reconcile`.
  unfoldable pub set_successful : Action (Run K.World SwaggerHub) (Unit {0})
  unfolding delete_condition swagger_hub_ready
  set_successful = do
    assign (delete_condition condition_reconciling)
    hub ← current
    assign (
        swagger_hub_ready K condition_true "ReconciliationSuccessful"
          ("deployment/" <> (ui_name hub <> " created")))

  -- The health check on the deployment that was read: a hub with no ready replica is not successful,
  -- but this is no error.
  unfoldable pub judge_health : Deployment → Action (Run K.World SwaggerHub) (Unit {0})
  unfolding set_successful swagger_hub_healthy swagger_hub_ready
  judge_health app =
      if nat_eq app.ready_replicas 0
      then (do
        assign (
            swagger_hub_healthy K condition_false "NoEndpointReady"
              "health check failed; no endpoint is ready")
        assign (
            swagger_hub_ready K condition_false "ReconciliationFailed"
              "health check failed; no endpoint is ready")
        hub ← current
        on_world (λ w. (ok tt, K.eventf (unhealthy_event hub) w)))
      else (do
        assign (
            swagger_hub_healthy K condition_true "EndpointReady"
              "health check passed; at least one endpoint is ready")
        set_successful)

  -- `reconcile` from `if hub.Spec.Wait` on.
  unfoldable pub conclude_health : Action (Run K.World SwaggerHub) (Unit {0})
  unfolding judge_health set_successful delete_condition
  conclude_health s =
      if s.object.spec.wait
      then (on_world (
              K.deployments.get
                (record { namespace = s.object.metadata.namespace; name = ui_name s.object }))
            >>= judge_health)
          s
      else (assign (delete_condition condition_healthy) >> set_successful) s

module _ (K : Client) (P : StrategicPatch Container) (default_image : String) where
  -- The deployment for the mounted config maps; pure, but for panics and errors of the merge.
  unfoldable pub hub_deployment : SwaggerHub → List ApiUrl → List MountRef → Result Deployment
  unfolding deployment_template swagger_ui_container merge_patch_containers with_pod
  hub_deployment hub urls refs = and_then (deployment_template hub) λ d.
      and_then
        (merge_patch_containers P (swagger_ui_container default_image urls refs ∷ [])
          d.spec.template.spec.containers)
        λ containers. ok (with_pod refs containers d)

  -- `reconcile` on what was selected, up to the health check.
  unfoldable pub deploy :
      SwaggerHub → List SwaggerDefinition → List SwaggerSpecification → Action K.World (Unit {0})
  unfolding mount_refs refine_refs hub_deployment create_or_update_with_ownership_validation
  deploy hub definitions specifications = do
    mounted ←
        refine_refs K hub.metadata.namespace (frontend_url_of hub) [] []
          (mount_refs definitions specifications)
    d ← lift (hub_deployment hub mounted.0 mounted.1)
    create_or_update_with_ownership_validation K K.services hub (service_template hub)
    create_or_update_with_ownership_validation K K.deployments hub d

  -- The first assignments of `reconcile`.
  unfoldable pub begin_reconcile : K.World → SwaggerHub → SwaggerHub
  unfolding swagger_hub_reconciling
  begin_reconcile w hub = clear_catalog (
      if hub.spec.wait
      then swagger_hub_reconciling K condition_true "Progressing" "" w hub
      else hub)

  unfoldable pub reconcile : Action (Run K.World SwaggerHub) (Unit {0})
  unfolding begin_reconcile extend_hub_with_definitions extend_hub_with_specifications deploy
      share_labels conclude_health
  reconcile = do
    assign begin_reconcile
    definitions ← extend_hub_with_definitions K
    specifications ← extend_hub_with_specifications K
    hub ← current
    assign (λ _. share_labels)
    on_world (deploy hub definitions specifications)
    conclude_health K

module _ (K : Client) where
  unfoldable pub patch_status : SwaggerHub → Action K.World SwaggerHub
  patch_status hub = do latest ← K.hubs.get (key_of hub); K.hubs.patch_status hub latest

  -- The hub whose status is patched.
  unfoldable pub reported : Result (Unit {0}) → K.World → SwaggerHub → SwaggerHub
  unfolding swagger_hub_ready
  reported (ok _) w h = observe h
  reported (err e) w h =
      swagger_hub_ready K condition_false "ReconciliationFailed" e.message w (observe h)
  reported (panic m) w h = h

  -- `Reconcile` from the return of `reconcile` on.
  unfoldable pub conclude : Result (Unit {0}) → SwaggerHub → Action K.World CtrlResult
  unfolding reported patch_status
  conclude (ok u) h w = (patch_status (reported (ok u) w h) >> lift (outcome (ok u))) w
  conclude (err e) h w =
      let h' = reported (err e) w h in
      (patch_status h' >> lift (outcome (err e))) (K.eventf (failure_event h' e) w)
  conclude (panic m) h w = (panic m, w)

module _ (K : Client) (P : StrategicPatch Container) (default_image : String) where
  -- `Reconcile`
  unfoldable pub reconcile_request : ObjectKey → Action K.World CtrlResult
  unfolding reconcile conclude
  reconcile_request key w =
      let (r, w') = K.hubs.get key w in
      elim r [
        | ok hub ↦
            if hub.spec.suspend
            then (ok no_requeue, w')
            else let (r', s) = reconcile K P default_image (record { world = w'; object = hub }) in
              conclude K r' s.object s.world
        | err e ↦ if e.is_not_found then (ok no_requeue, w') else (err e, w')
        | panic m ↦ (panic m, w')
      ]
