-- ===== src/Hub/Labels.antt =====
-- The deployment finds its pods: whatever labels the user sets, the pods have those of the selectors.
use swagger_hub_controller.Base.{
  List, Result, err, panic, ap, sym, ◌∙◌, String, Option, none, some, [], ok, ◌≡◌, refl, arith,
  eq_iff,
}
use swagger_hub_controller.Base.Dict.{Dict, lookup, insert, lookup-insert}
use swagger_hub_controller.Kube.Meta.{entries}
use swagger_hub_controller.Kube.Workload.{Container, Deployment}
use swagger_hub_controller.Api.Hub.{SwaggerHub, DeploymentTemplate}
use swagger_hub_controller.Hub.Deployment.{
  selector_labels, service_selector, assign_labels, label_deployment, make_maps, or_make,
  use_template, initial_deployment, deployment_template, service_template,
}

-- The labels of the user's template, for the pods and for the deployment.
abbrev pub pod_labels : Option DeploymentTemplate → Dict String
pod_labels none = []
pod_labels (some t) = entries t.spec.template.labels

abbrev pub deployment_labels : Option DeploymentTemplate → Dict String
deployment_labels none = []
deployment_labels (some t) = entries t.labels

-- The containers of the user's template.
abbrev pub template_containers : Option DeploymentTemplate → List Container
template_containers none = []
template_containers (some t) = t.spec.template.spec.containers

-- The labels of a selector, and for any other key the given ones.
abbrev pub Overrides : Dict String → Dict String → Option (Dict String) → Type 0
Overrides over labels none = ⊥
Overrides over labels (some m) =
    (k : String) → lookup k m ≡ (elim (lookup k over) [ some v ↦ some v | none ↦ lookup k labels ])

labelled : SwaggerHub → Dict String → Dict String
labelled hub m = insert "swagger-hub-controller/hub" hub.metadata.name (
    insert "app.kubernetes.io/name" "swagger-ui"
      (insert "app.kubernetes.io/instance" "swagger-ui" m))

assign_labels-eq :
    (hub : SwaggerHub) (m : Dict String) → assign_labels hub (some m) ≡ ok (some (labelled hub m))
unfolding assign_labels labelled
assign_labels-eq hub m = refl

labelled-Overrides :
    (hub : SwaggerHub) (m : Dict String) → Overrides (selector_labels hub) m (some (labelled hub m))
unfolding labelled selector_labels lookup
labelled-Overrides hub m k = ground (
  arith,
  lookup-insert "swagger-hub-controller/hub" k hub.metadata.name (
      insert "app.kubernetes.io/name" "swagger-ui"
        (insert "app.kubernetes.io/instance" "swagger-ui" m)),
  lookup-insert "app.kubernetes.io/name" k "swagger-ui"
      (insert "app.kubernetes.io/instance" "swagger-ui" m),
  lookup-insert "app.kubernetes.io/instance" k "swagger-ui" m,
  eq_iff "swagger-hub-controller/hub" k,
  eq_iff "app.kubernetes.io/name" k,
  eq_iff "app.kubernetes.io/instance" k,
  eq_iff "app.kubernetes.io/instance" "app.kubernetes.io/name",
  eq_iff "app.kubernetes.io/instance" "swagger-hub-controller/hub",
  eq_iff "app.kubernetes.io/name" "swagger-hub-controller/hub",
)

abbrev with_labels : SwaggerHub → Deployment → Dict String → Dict String → Deployment
with_labels hub d pod own = record d {
  metadata = record (d.metadata) { labels = some (labelled hub own) };
  spec = record (d.spec) {
    selector = some (record { match_labels = some (selector_labels hub); match_expressions = [] });
    template = record (d.spec.template) { labels = some (labelled hub pod) };
  };
}

labelled_deployment-eq :
    (hub : SwaggerHub) (d : Deployment) (pod own : Dict String)
    → d.spec.template.labels ≡ some pod
    → d.metadata.labels ≡ some own
    → label_deployment hub d ≡ ok (with_labels hub d pod own)
unfolding label_deployment labelled
labelled_deployment-eq hub d pod own p q = rw (p, label_deployment, q) refl

-- What the selectors promise of a deployment: they find the pods, and the labels of the user are kept
-- under all other keys.
pub record Labelled (hub : SwaggerHub) (t : Option DeploymentTemplate) (d : Deployment)
    : Type 0 where
  pub selector :
      d.spec.selector
      ≡ some (record { match_labels = some (selector_labels hub); match_expressions = [] })
  pub pods : Overrides (selector_labels hub) (pod_labels t) d.spec.template.labels
  pub own : Overrides (selector_labels hub) (deployment_labels t) d.metadata.labels

with_labels-Labelled :
    (hub : SwaggerHub) (t : Option DeploymentTemplate) (d : Deployment)
    → Labelled hub t (with_labels hub d (pod_labels t) (deployment_labels t))
with_labels-Labelled hub t d = record {
  selector = refl;
  pods = labelled-Overrides hub (pod_labels t);
  own = labelled-Overrides hub (deployment_labels t);
}

or_make-eq : (m : Option (Dict String)) → or_make m ≡ some (entries m)
or_make-eq none = refl
or_make-eq (some m) = refl

-- For every hub, whatever template it gives, making the deployment does not panic, the selector of
-- the deployment and that of the service are the same labels, the pods carry those labels, and pods
-- and deployment keep the user's labels under all other keys.
pub deployment_template-labels :
    (hub : SwaggerHub)
    → (d : Deployment) × (deployment_template hub ≡ ok d)
      × Labelled hub hub.spec.deployment_template d
      × ((service_template hub).selector ≡ selector_labels hub)
unfolding deployment_template make_maps use_template initial_deployment service_template
    service_selector selector_labels
deployment_template-labels hub = go hub.spec.deployment_template refl
  where
    go :
        (t : Option DeploymentTemplate)
        → hub.spec.deployment_template ≡ t
        → (d : Deployment) × (label_deployment hub
              (make_maps (use_template t (initial_deployment hub)))
            ≡ ok d)
          × Labelled hub t d
          × ((service_template hub).selector ≡ selector_labels hub)
    go none e =
        let d = make_maps (use_template none (initial_deployment hub)) in
        (
          with_labels hub d [] [],
          labelled_deployment-eq hub d [] [] refl refl,
          with_labels-Labelled hub none d,
          refl,
        )
    go (some t) e =
        let d = make_maps (use_template (some t) (initial_deployment hub)) in
        let pod = entries t.spec.template.labels in
        let own = entries t.labels in
        (
          with_labels hub d pod own,
          labelled_deployment-eq hub d pod own (or_make-eq t.spec.template.labels)
              (or_make-eq t.labels),
          with_labels-Labelled hub (some t) d,
          refl,
        )

containers_of : Result Deployment → List Container
containers_of (ok d) = d.spec.template.spec.containers
containers_of (err e) = []
containers_of (panic m) = []

-- The containers come from the user's template.
pub containers-deployment_template :
    (hub : SwaggerHub) {d : Deployment}
    → deployment_template hub ≡ ok d
    → d.spec.template.spec.containers ≡ template_containers hub.spec.deployment_template
unfolding deployment_template make_maps use_template initial_deployment containers_of
containers-deployment_template hub {d} e = go hub.spec.deployment_template e
  where
    go :
        (t : Option DeploymentTemplate)
        → label_deployment hub (make_maps (use_template t (initial_deployment hub))) ≡ ok d
        → d.spec.template.spec.containers ≡ template_containers t
    go none e =
        let made =
          labelled_deployment-eq hub (make_maps (initial_deployment hub)) [] [] refl refl in
        ap containers_of (sym e ∙ made)
    go (some t) e =
        let made =
          labelled_deployment-eq hub (make_maps (use_template (some t) (initial_deployment hub)))
            (entries t.spec.template.labels) (entries t.labels) (or_make-eq t.spec.template.labels)
            (or_make-eq t.labels) in
        ap containers_of (sym e ∙ made)
