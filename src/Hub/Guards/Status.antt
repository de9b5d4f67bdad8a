-- ===== src/Hub/Guards/Status.antt =====
-- Selecting resources and judging the health of a deployment keep what the calls keep.
use swagger_hub_controller.Base.{
  String, ◌<>◌, map, ok, Action, Run, pure, ◌>>=◌, ◌>>◌, on_world, assign, current, nat_eq,
  if◌then◌else◌,
}
use swagger_hub_controller.Base.Runs.{
  Runs, Guards, InWorld, Runs-if, Runs-if_at, Runs-pure, Runs-bind, Runs-on_world, Runs-assign,
  Runs-frame, Runs-current,
}
use swagger_hub_controller.Kube.Meta.{TypeMeta, ObjectMeta}
use swagger_hub_controller.Kube.Workload.{Deployment, deployment_object, service_object}
use swagger_hub_controller.Kube.Client.{Client}
use swagger_hub_controller.Kube.Guards.{CallsGuard}
use swagger_hub_controller.Api.Definition.{definition_object}
use swagger_hub_controller.Api.Hub.{SwaggerHub, hub_object}
use swagger_hub_controller.Api.Specification.{specification_object}
use swagger_hub_controller.Api.Conditions.{
  swagger_hub_ready, swagger_hub_healthy, condition_healthy, condition_reconciling, condition_true,
  condition_false,
}
use swagger_hub_controller.Shared.Lookup.{select_resources}
use swagger_hub_controller.Shared.Guards.{select_resources-Guards}
use swagger_hub_controller.Hub.Catalog.{
  resource_reference, extend_catalog, extend_hub_with_definitions, extend_hub_with_specifications,
}
use swagger_hub_controller.Hub.Deployment.{ui_name}
use swagger_hub_controller.Hub.Reconcile.{
  unhealthy_event, delete_condition, set_successful, judge_health, conclude_health,
}

module _ {K : Client} {I : K.World → Type 0} {C : String → Type 0} (G : CallsGuard K I C) where
  module _ (Held : TypeMeta → ObjectMeta → Type 0) where
    -- The property of the cluster, and one of the type and the metadata of the controller's copy,
    -- which it never writes.
    abbrev pub HeldRun : Run K.World SwaggerHub → Type 0
    HeldRun s = I s.world × Held s.object.type_meta s.object.metadata

    pub definitions-Runs : Runs (InWorld I) C HeldRun (λ _. HeldRun) (extend_hub_with_definitions K)
    unfolding extend_hub_with_definitions extend_catalog
    definitions-Runs = Runs-bind {Q = λ _. HeldRun} current _ (Runs-current I (λ s p. p)) (λ hub.
        Runs-bind {Q = λ _. HeldRun}
          (on_world (
            select_resources K K.definitions hub.spec.definition_selector
              hub.spec.namespace_selector hub.metadata.namespace))
          _
          (Runs-on_world I _ (λ o. Runs-frame _ (
            select_resources-Guards G K.definitions G.definitions hub.spec.definition_selector
              hub.spec.namespace_selector hub.metadata.namespace)))
          (λ items.
            Runs-bind {Q = λ _. HeldRun}
              (assign (λ _. extend_catalog (
                map (λ d. resource_reference hub.metadata.namespace d.type_meta d.metadata) items)))
              (λ _. pure items)
              (Runs-assign I
                (λ _. extend_catalog (
                  map (λ d. resource_reference hub.metadata.namespace d.type_meta d.metadata)
                    items))
                (λ s p. p))
              (λ _. Runs-pure items (λ s p. p))))

    pub specifications-Runs :
        Runs (InWorld I) C HeldRun (λ _. HeldRun) (extend_hub_with_specifications K)
    unfolding extend_hub_with_specifications extend_catalog
    specifications-Runs = Runs-bind {Q = λ _. HeldRun} current _ (Runs-current I (λ s p. p)) (λ hub.
        Runs-bind {Q = λ _. HeldRun}
          (on_world (
            select_resources K K.specifications hub.spec.specification_selector
              hub.spec.namespace_selector hub.metadata.namespace))
          _
          (Runs-on_world I _ (λ o. Runs-frame _ (
            select_resources-Guards G K.specifications G.specifications
              hub.spec.specification_selector hub.spec.namespace_selector hub.metadata.namespace)))
          (λ items.
            Runs-bind {Q = λ _. HeldRun}
              (assign (λ _. extend_catalog (
                map (λ d. resource_reference hub.metadata.namespace d.type_meta d.metadata) items)))
              (λ _. pure items)
              (Runs-assign I
                (λ _. extend_catalog (
                  map (λ d. resource_reference hub.metadata.namespace d.type_meta d.metadata)
                    items))
                (λ s p. p))
              (λ _. Runs-pure items (λ s p. p))))

  set_successful-Guards : Guards (InWorld I) C (set_successful K)
  unfolding set_successful
  set_successful-Guards =
      Runs-bind {Q = λ _. InWorld I} (assign (delete_condition K condition_reconciling)) _
        (Runs-assign I _ (λ s p. p))
        (λ _.
          Runs-bind {Q = λ _. InWorld I} current _ (Runs-current I (λ s p. p))
            (λ hub. Runs-assign I (ready hub) (λ s p. p)))
    where
      ready : SwaggerHub → K.World → SwaggerHub → SwaggerHub
      ready hub =
          swagger_hub_ready K condition_true "ReconciliationSuccessful"
            ("deployment/" <> (ui_name hub <> " created"))

  judge_health-Guards : (app : Deployment) → Guards (InWorld I) C (judge_health K app)
  unfolding judge_health
  judge_health-Guards app =
      Runs-if (nat_eq app.ready_replicas 0) failed passed
        (λ _.
          Runs-bind {Q = λ _. InWorld I}
            (assign (
              healthy condition_false "NoEndpointReady"
                "health check failed; no endpoint is ready"))
            _
            (Runs-assign I
              (healthy condition_false "NoEndpointReady"
                "health check failed; no endpoint is ready")
              (λ s p. p))
            (λ _.
              Runs-bind {Q = λ _. InWorld I} (assign not_ready) _
                (Runs-assign I not_ready (λ s p. p))
                (λ _. Runs-bind {Q = λ _. InWorld I} current _ (Runs-current I (λ s p. p)) (λ hub.
                  Runs-on_world I (λ w. (ok tt, K.eventf (unhealthy_event hub) w))
                    (λ _. record { at = G.eventf (unhealthy_event hub) })))))
        (λ _.
          Runs-bind {Q = λ _. InWorld I}
            (assign (
              healthy condition_true "EndpointReady"
                "health check passed; at least one endpoint is ready"))
            _
            (Runs-assign I
              (healthy condition_true "EndpointReady"
                "health check passed; at least one endpoint is ready")
              (λ s p. p))
            (λ _. set_successful-Guards))
    where
      healthy : String → String → String → K.World → SwaggerHub → SwaggerHub
      healthy = swagger_hub_healthy K

      not_ready : K.World → SwaggerHub → SwaggerHub
      not_ready =
          swagger_hub_ready K condition_false "ReconciliationFailed"
            "health check failed; no endpoint is ready"

      failed : Action (Run K.World SwaggerHub) (Unit {0})
      failed = do
        assign
            (healthy condition_false "NoEndpointReady" "health check failed; no endpoint is ready")
        assign not_ready
        hub ← current
        on_world (λ w. (ok tt, K.eventf (unhealthy_event hub) w))

      passed : Action (Run K.World SwaggerHub) (Unit {0})
      passed = do
        assign (
            healthy condition_true "EndpointReady"
              "health check passed; at least one endpoint is ready")
        set_successful K

  pub conclude_health-Guards : Guards (InWorld I) C (conclude_health K)
  unfolding conclude_health
  conclude_health-Guards = record { at = λ s. (go s).at s }
    where
      get : SwaggerHub → Action (Run K.World SwaggerHub) Deployment
      get h =
          on_world
            (K.deployments.get (record { namespace = h.metadata.namespace; name = ui_name h }))

      go :
          (s : Run K.World SwaggerHub)
          → Guards (InWorld I) C (λ r.
            if s.object.spec.wait
            then (get s.object >>= judge_health K) r
            else (assign (delete_condition K condition_healthy) >> set_successful K) r)
      go s =
          Runs-if_at s.object.spec.wait (get s.object >>= judge_health K)
            (assign (delete_condition K condition_healthy) >> set_successful K)
            (λ _.
              Runs-bind {Q = λ _. InWorld I} (get s.object) (judge_health K)
                (Runs-on_world I _ (λ _. G.deployments.get _)) judge_health-Guards)
            (λ _.
              Runs-bind {Q = λ _. InWorld I} (assign (delete_condition K condition_healthy))
                (λ _. set_successful K) (Runs-assign I _ (λ s p. p)) (λ _. set_successful-Guards))
