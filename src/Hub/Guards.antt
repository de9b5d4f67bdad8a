-- ===== src/Hub/Guards.antt =====
-- The hub controller keeps what its calls keep, and panics only as they do.
pub mod Mounts
pub mod Owned
pub mod Status
use swagger_hub_controller.Base.{
  String, Bool, true, false, List, [], ◌∷◌, Result, ok, err, panic, Action, Run, pure, fail, lift,
  on_world, assign, current, if◌then◌else◌, sym, subst,
}
use swagger_hub_controller.Base.Runs.{
  Runs, Ends, Guards, IsCalm, IsCalm-and_then, InWorld, Runs-handle, Runs-if_at, Runs-pure,
  Runs-fail, Runs-lift, Runs-bind, Runs-on_world, Runs-assign, Runs-current,
}
use swagger_hub_controller.Kube.Meta.{ObjectKey, key_of, TypeMeta, ObjectMeta}
use swagger_hub_controller.Kube.Workload.{
  Container, Deployment, Service, deployment_object, service_object,
}
use swagger_hub_controller.Kube.Client.{Client}
use swagger_hub_controller.Kube.Guards.{CallsGuard}
use swagger_hub_controller.Api.Definition.{SwaggerDefinition, definition_object}
use swagger_hub_controller.Api.Hub.{SwaggerHub, hub_object}
use swagger_hub_controller.Api.Specification.{SwaggerSpecification, specification_object}
use swagger_hub_controller.Api.Conditions.{swagger_hub_reconciling, condition_true}
use swagger_hub_controller.Merge.{StrategicPatch, merge_patch_containers}
use swagger_hub_controller.Merge.Calm.{PatchCalm, merge_patch_containers-IsCalm}
use swagger_hub_controller.Shared.Outcome.{CtrlResult, no_requeue, outcome}
use swagger_hub_controller.Hub.Catalog.{extend_hub_with_definitions, extend_hub_with_specifications}
use swagger_hub_controller.Hub.Ownership.{create_or_update_with_ownership_validation}
use swagger_hub_controller.Hub.Mounts.{ApiUrl, MountRef, mount_refs, refine_refs}
use swagger_hub_controller.Hub.Deployment.{
  deployment_template, service_template, swagger_ui_container, share_labels,
}
use swagger_hub_controller.Hub.Labels.{deployment_template-labels}
use swagger_hub_controller.Hub.Guards.Mounts.{refine_refs-Guards}
use swagger_hub_controller.Hub.Guards.Status.{
  HeldRun, definitions-Runs, specifications-Runs, conclude_health-Guards,
}
use swagger_hub_controller.Hub.Reconcile.{
  frontend_url_of, hub_deployment, deploy, begin_reconcile, reconcile, patch_status, reported,
  conclude, reconcile_request,
}

-- Hubs that are read have a property of their type and metadata, and for a hub that has it the
-- writes of services and deployments keep what the calls keep.
pub record OwnedGuard (K : Client) (I : K.World → Type 0) (C : String → Type 0)
    (Held : TypeMeta → ObjectMeta → Type 0) : Type 0 where
  pub hub :
      (key : ObjectKey) → Runs I C I (λ h w. I w × Held h.type_meta h.metadata) (K.hubs.get key)
  pub service :
      (hub : SwaggerHub) (s : Service)
      → Held hub.type_meta hub.metadata
      → Guards I C (create_or_update_with_ownership_validation K K.services hub s)
  pub deployment :
      (hub : SwaggerHub) (d : Deployment)
      → Held hub.type_meta hub.metadata
      → Guards I C (create_or_update_with_ownership_validation K K.deployments hub d)

module _ (K : Client) {P : StrategicPatch Container} {C : String → Type 0}
    (calm : PatchCalm C P) where
  -- The deployment for a hub: its labels are assigned to maps that were made.
  hub_deployment-IsCalm :
      (image : String) (hub : SwaggerHub) (urls : List ApiUrl) (refs : List MountRef)
      → IsCalm C (hub_deployment K P image hub urls refs)
  unfolding hub_deployment
  hub_deployment-IsCalm image hub urls refs =
      let t = deployment_template-labels hub in
      IsCalm-and_then C (deployment_template hub) _ (subst (IsCalm C) (sym t.1) tt) λ d.
        IsCalm-and_then C
          (merge_patch_containers P (swagger_ui_container image urls refs ∷ [])
            d.spec.template.spec.containers)
          _
          (merge_patch_containers-IsCalm calm (swagger_ui_container image urls refs ∷ [])
            d.spec.template.spec.containers)
          λ containers. tt

module _ {K : Client} {I : K.World → Type 0} {C : String → Type 0} (G : CallsGuard K I C)
    {Held : TypeMeta → ObjectMeta → Type 0} (O : OwnedGuard K I C Held)
    {P : StrategicPatch Container} (calm : PatchCalm C P) (image : String) where
  deploy-Guards :
      (hub : SwaggerHub) (definitions : List SwaggerDefinition)
      (specifications : List SwaggerSpecification)
      → Held hub.type_meta hub.metadata
      → Guards I C (deploy K P image hub definitions specifications)
  unfolding deploy
  deploy-Guards hub definitions specifications held =
      Runs-bind {Q = λ _. I}
        (refine_refs K hub.metadata.namespace (frontend_url_of hub) [] []
          (mount_refs definitions specifications))
        _
        (refine_refs-Guards G hub.metadata.namespace (frontend_url_of hub) [] []
          (mount_refs definitions specifications))
        (λ mounted.
          Runs-bind {Q = λ _. I} (lift (hub_deployment K P image hub mounted.0 mounted.1)) _
            (Runs-lift _ (hub_deployment-IsCalm K calm image hub mounted.0 mounted.1) (λ w p. p)
              (λ a w _ p. p))
            (λ d.
              Runs-bind {Q = λ _. I}
                (create_or_update_with_ownership_validation K K.services hub (service_template hub))
                _ (O.service hub (service_template hub) held) (λ _. O.deployment hub d held)))

  reconcile-Runs : Runs (InWorld I) C (HeldRun G Held) (λ _. InWorld I) (reconcile K P image)
  unfolding reconcile begin_reconcile swagger_hub_reconciling
  reconcile-Runs =
      Runs-bind {Q = λ _. HeldRun G Held} (assign (begin_reconcile K P image)) _
        (Runs-assign I (begin_reconcile K P image) begun)
        (λ _.
          Runs-bind {Q = λ _. HeldRun G Held} (extend_hub_with_definitions K) _
            (definitions-Runs G Held)
            (λ ds.
              Runs-bind {Q = λ _. HeldRun G Held} (extend_hub_with_specifications K) _
                (specifications-Runs G Held)
                (λ ss.
                  Runs-bind {Q = λ hub s. I s.world × Held hub.type_meta hub.metadata} current _
                    (Runs-current I (λ s p. p))
                    (λ hub.
                      Runs-bind {Q = λ _ s. I s.world × Held hub.type_meta hub.metadata}
                        (assign (λ _. share_labels)) _
                        (Runs-assign I (λ _. share_labels) (λ s p. p))
                        (λ _.
                          Runs-bind {Q = λ _. InWorld I} (on_world (deploy K P image hub ds ss)) _
                            (Runs-on_world I _
                              (λ _. record { at = λ w p. (deploy-Guards hub ds ss p.1).at w p.0 }))
                            (λ _. conclude_health-Guards G))))))
    where
      begun :
          (s : Run K.World SwaggerHub)
          → HeldRun G Held s
          → HeldRun G Held (record s { object = begin_reconcile K P image s.world s.object })
      begun s p = (p.0, go s.object.spec.wait)
        where
          go :
              (b : Bool)
              → let h =
                  if b
                  then swagger_hub_reconciling K condition_true "Progressing" "" s.world s.object
                  else s.object in
                Held h.type_meta h.metadata
          go true = p.1
          go false = p.1

  patch_status-Guards : (hub : SwaggerHub) → Guards I C (patch_status K hub)
  unfolding patch_status
  patch_status-Guards hub =
      Runs-bind {Q = λ _. I} (K.hubs.get (key_of hub)) _ (G.hubs.get (key_of hub))
        (λ latest. G.hub_status hub latest)

  conclude-Ends :
      (x : Result (Unit {0}) × Run K.World SwaggerHub)
      → Ends (InWorld I) C (λ _. InWorld I) x
      → Ends I C (λ _. I) (conclude K x.0 x.1.object x.1.world)
  unfolding conclude
  conclude-Ends (ok u, s) p =
      (Runs-bind {Q = λ _. I} (patch_status K (reported K (ok u) s.world s.object))
          (λ _. lift (outcome (ok u))) (patch_status-Guards _)
          (λ _. Runs-lift (outcome (ok u)) tt (λ w p. p) (λ a w _ p. p))).at
        s.world p
  conclude-Ends (err e, s) p =
      (Runs-bind {Q = λ _. I} (patch_status K (reported K (err e) s.world s.object))
          (λ _. lift (outcome (err e))) (patch_status-Guards _)
          (λ _. Runs-lift (outcome (err e)) tt (λ w p. p) (λ a w _ p. p))).at
        _ (G.eventf _ s.world p)
  conclude-Ends (panic m, s) p = p

  -- A request for a hub keeps what the calls keep, and panics only as they do.
  pub reconcile_request-Guards : (key : ObjectKey) → Guards I C (reconcile_request K P image key)
  unfolding reconcile_request
  reconcile_request-Guards key =
      Runs-handle (K.hubs.get key) _
        (λ e w. if e.is_not_found then (ok no_requeue, w) else (err e, w)) (O.hub key)
        (λ hub.
          Runs-if_at hub.spec.suspend (pure no_requeue) (attempt hub)
            (λ _. Runs-pure no_requeue (λ w p. p.0))
            (λ _. record {
              at = λ w p.
                  conclude-Ends (reconcile K P image (record { world = w; object = hub }))
                    (reconcile-Runs.at (record { world = w; object = hub }) p);
            }))
        (λ e.
          Runs-if_at e.is_not_found (pure no_requeue) (fail e)
            (λ _. Runs-pure no_requeue (λ w p. p)) (λ _. Runs-fail e (λ w p. p)))
    where
      attempt : SwaggerHub → Action K.World CtrlResult
      attempt hub w =
          let (r, s) = reconcile K P image (record { world = w; object = hub }) in
          conclude K r s.object s.world
