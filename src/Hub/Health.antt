-- ===== src/Hub/Health.antt =====
-- What the health check of a hub that waits writes into its conditions.
use swagger_hub_controller.Base.{
  ℕ, String, ◌<>◌, true, none, some, ok, ◌≡◌, refl, ap, ◌∙◌, Run, nat_eq, if◌then◌else◌, ◌>>=◌,
  on_world, assign, ◌>>◌, >>=-ok, Bool-cases, inl, inr, Option, Result,
}
use swagger_hub_controller.Kube.Workload.{Deployment}
use swagger_hub_controller.Kube.Client.{Client}
use swagger_hub_controller.Kube.Laws.{ConditionsLawful, Verdict, find_verdict}
use swagger_hub_controller.Api.Hub.{SwaggerHub}
use swagger_hub_controller.Api.Conditions.{
  swagger_hub_ready, swagger_hub_healthy, condition_ready, condition_reconciling, condition_healthy,
  condition_true, condition_false,
}
use swagger_hub_controller.Hub.Deployment.{ui_name}
use swagger_hub_controller.Hub.Reconcile.{
  judge_health, conclude_health, set_successful, delete_condition,
}

module _ (K : Client) (L : ConditionsLawful K) where
  -- The verdict on a hub, for a condition of it.
  abbrev pub hub_verdict : String → SwaggerHub → Option Verdict
  hub_verdict t h = find_verdict t h.status.conditions

  abbrev judged : String → String → String → SwaggerHub → Option Verdict
  judged status reason message h = some (record {
    status = status;
    reason = reason;
    message = message;
    observed_generation = h.metadata.generation;
  })

  -- The conditions after a health check that found the number of ready replicas.
  abbrev pub Judged : ℕ → SwaggerHub → SwaggerHub → Type 0
  Judged replicas h h' =
      if nat_eq replicas 0
      then ((hub_verdict condition_healthy h'
            ≡ judged condition_false "NoEndpointReady" "health check failed; no endpoint is ready"
                h)
          × (hub_verdict condition_ready h'
              ≡ judged condition_false "ReconciliationFailed"
                  "health check failed; no endpoint is ready" h)
          × (hub_verdict condition_reconciling h' ≡ hub_verdict condition_reconciling h))
      else ((hub_verdict condition_healthy h'
            ≡ judged condition_true "EndpointReady"
                "health check passed; at least one endpoint is ready" h)
          × (hub_verdict condition_ready h'
              ≡ judged condition_true "ReconciliationSuccessful"
                  ("deployment/" <> (ui_name h <> " created")) h)
          × (hub_verdict condition_reconciling h' ≡ none))

  judge_health-Judged :
      (app : Deployment) (s : Run K.World SwaggerHub)
      → (s' : Run K.World SwaggerHub) × (judge_health K app s ≡ (ok tt, s'))
        × Judged app.ready_replicas s.object s'.object
  unfolding judge_health set_successful delete_condition swagger_hub_ready swagger_hub_healthy
  judge_health-Judged app s = elim (Bool-cases (nat_eq app.ready_replicas 0)) [
    | inl p ↦
        rw (p, judge_health)
          (
            _,
            refl,
            (
              L.find-set s.world _ _ condition_healthy ∙ L.find-set s.world _ _ condition_healthy,
              L.find-set s.world _ _ condition_ready,
              L.find-set s.world _ _ condition_reconciling
                  ∙ L.find-set s.world _ _ condition_reconciling,
            ),
          )
    | inr p ↦
        rw (p, judge_health)
          (
            _,
            refl,
            (
              L.find-set s.world _ _ condition_healthy
                  ∙ L.find-delete _ condition_reconciling condition_healthy
                  ∙ L.find-set s.world _ _ condition_healthy,
              L.find-set s.world _ _ condition_ready,
              L.find-set s.world _ _ condition_reconciling
                  ∙ L.find-delete _ condition_reconciling condition_reconciling,
            ),
          )
  ]

  -- Where conditions behave as documented, the health check of a hub that waits, and whose
  -- deployment can be read, returns without an error. The hub is healthy and ready where the
  -- deployment has a ready replica, and is then no longer reconciling; with none it is neither
  -- healthy nor ready, and keeps its condition `Reconciling`.
  pub conclude_health-Judged :
      (s : Run K.World SwaggerHub) (app : Deployment) (w : K.World)
      → s.object.spec.wait ≡ true
      → K.deployments.get
          (record { namespace = s.object.metadata.namespace; name = ui_name s.object })
          s.world
        ≡ (ok app, w)
      → (s' : Run K.World SwaggerHub) × (conclude_health K s ≡ (ok tt, s'))
        × Judged app.ready_replicas s.object s'.object
  unfolding conclude_health
  conclude_health-Judged s app w waits e =
      let (s', judged, h) = judge_health-Judged app (record s { world = w }) in
      let read = ap (λ (x : Result Deployment × K.World). (x.0, record s { world = x.1 })) e in
      (
        s',
        ap
              (λ b.
                (if b
                  then (on_world (
                          K.deployments.get (record {
                            namespace = s.object.metadata.namespace;
                            name = ui_name s.object;
                          }))
                        >>= judge_health K)
                      s
                  else (assign (delete_condition K condition_healthy) >> set_successful K) s))
              waits
            ∙ >>=-ok
                (on_world (
                  K.deployments.get
                    (record { namespace = s.object.metadata.namespace; name = ui_name s.object })))
                (judge_health K) s read
            ∙ judged,
        h,
      )
