-- ===== src/Hub/Containers.antt =====
-- The containers of a hub's deployment.
use swagger_hub_controller.Base.{
  String, not, List, [], ◌∷◌, Result, ok, err, panic, and_then, ◌≡◌, refl, ap, sym, ◌∙◌,
}
use swagger_hub_controller.Base.Lists.{contains, filter_by}
use swagger_hub_controller.Kube.Workload.{Container, Deployment}
use swagger_hub_controller.Kube.Client.{Client}
use swagger_hub_controller.Api.Hub.{SwaggerHub}
use swagger_hub_controller.Merge.{StrategicPatch, merge_patch_containers}
use swagger_hub_controller.Merge.Laws.{names}
use swagger_hub_controller.Merge.Names.{KeepsName, names-merge_patch_containers}
use swagger_hub_controller.Hub.Mounts.{ApiUrl, MountRef}
use swagger_hub_controller.Hub.Deployment.{deployment_template, swagger_ui_container, with_pod}
use swagger_hub_controller.Hub.Labels.{template_containers, containers-deployment_template}
use swagger_hub_controller.Hub.Reconcile.{hub_deployment}

-- The names of the containers: `swagger-ui`, and then the user's other ones.
abbrev pub expected_names : SwaggerHub → List String
expected_names hub =
    "swagger-ui"
    ∷ filter_by (λ n. not (contains n ("swagger-ui" ∷ [])))
        (names (template_containers hub.spec.deployment_template))

module _ (K : Client) (P : StrategicPatch Container) (default_image : String) where
  -- Where merging two containers of one name keeps the name, a deployment that is made has the
  -- container `swagger-ui`, once and first, and then the user's containers of other names, in order.
  pub names-hub_deployment :
      KeepsName P
      → (hub : SwaggerHub) (urls : List ApiUrl) (refs : List MountRef) {d : Deployment}
      → hub_deployment K P default_image hub urls refs ≡ ok d
      → names d.spec.template.spec.containers ≡ expected_names hub
  unfolding hub_deployment with_pod swagger_ui_container
  names-hub_deployment keeps hub urls refs {d} e = go (deployment_template hub) refl e
    where
      merged :
          (d₀ : Deployment) (r : Result (List Container))
          → d₀.spec.template.spec.containers ≡ template_containers hub.spec.deployment_template
          → merge_patch_containers P
              (swagger_ui_container default_image urls refs ∷ [])
              d₀.spec.template.spec.containers
            ≡ r
          → and_then r (λ containers. ok (with_pod refs containers d₀)) ≡ ok d
          → names d.spec.template.spec.containers ≡ expected_names hub
      merged d₀ (ok containers) same m e =
          ap
            (λ (x : Result Deployment). (elim x [
              | ok d ↦ names d.spec.template.spec.containers
              | err x ↦ []
              | panic m ↦ []
            ]))
            (sym e)
          ∙ names-merge_patch_containers P keeps (swagger_ui_container default_image urls refs ∷ [])
              d₀.spec.template.spec.containers m
          ∙ ap
              (λ cs.
                "swagger-ui" ∷ filter_by (λ n. not (contains n ("swagger-ui" ∷ []))) (names cs))
              same
      merged d₀ (err x) same m e = cc
      merged d₀ (panic x) same m e = cc

      go :
          (r : Result Deployment)
          → deployment_template hub ≡ r
          → and_then r (λ d₀.
            and_then
              (merge_patch_containers P
                (swagger_ui_container default_image urls refs ∷ [])
                d₀.spec.template.spec.containers)
              λ containers. ok (with_pod refs containers d₀))
            ≡ ok d
          → names d.spec.template.spec.containers ≡ expected_names hub
      go (ok d₀) p e = merged d₀ _ (containers-deployment_template hub p) refl e
      go (err x) p e = cc
      go (panic x) p e = cc
