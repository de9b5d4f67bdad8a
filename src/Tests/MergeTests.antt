-- ===== src/Tests/MergeTests.antt =====
-- The merge of containers at concrete containers.
use swagger_hub_controller.Base.{List, [], ◌∷◌, ◌++◌, ok, ◌≡◌, refl, not, arith}
use swagger_hub_controller.Base.Lists.{contains, filter_by}
use swagger_hub_controller.Kube.Workload.{Container, Deployment}
use swagger_hub_controller.Merge.{StrategicPatch, patch_container, merge_patch_containers}
use swagger_hub_controller.Merge.Laws.{names, merge_spec, merge_patch_containers-eq_spec}
use swagger_hub_controller.Merge.Names.{KeepsName, names-merge_patch_containers}
use swagger_hub_controller.Tests.Samples.{container, own_hub}
use swagger_hub_controller.Tests.Cluster.{cluster}
use swagger_hub_controller.Hub.Reconcile.{hub_deployment}
use swagger_hub_controller.Hub.Containers.{names-hub_deployment}

-- Containers in a text of name and image, where a patch replaces the base.
abbrev pub image_only : StrategicPatch Container
image_only = record {
  marshal = λ c. ok c.name;
  strategic_merge_patch = λ base patch. ok patch;
  unmarshal = λ b. ok (container b "patched");
}

abbrev base : List Container
base = container "swagger-ui" "ui:1" ∷ container "proxy" "envoy:1" ∷ []

abbrev patches : List Container
patches = container "logs" "fluent:1" ∷ container "swagger-ui" "ui:2" ∷ []

abbrev merged : List Container
merged =
    container "swagger-ui" "patched"
    ∷ container "proxy" "envoy:1"
    ∷ container "logs" "fluent:1"
    ∷ []

merges : merge_patch_containers image_only base patches ≡ ok merged
unfolding merge_patch_containers
merges = refl

merge_patch_containers-eq_spec_example :
    merge_patch_containers image_only base patches ≡ merge_spec image_only base patches
merge_patch_containers-eq_spec_example =
    merge_patch_containers-eq_spec image_only base patches (refl, (refl, tt)) (refl, (refl, tt))

keeps : KeepsName image_only
unfolding patch_container
keeps c p r e q = ground arith

names-merge_patch_containers_example :
    names merged ≡ names base ++ filter_by (λ n. not (contains n (names base))) (names patches)
names-merge_patch_containers_example =
    names-merge_patch_containers image_only keeps base patches merges

deployed : (d : Deployment) × (hub_deployment cluster image_only "" own_hub [] [] ≡ ok d)
unfolding hub_deployment
deployed = (_, refl)

names-hub_deployment_example : names deployed.0.spec.template.spec.containers ≡ "swagger-ui" ∷ []
names-hub_deployment_example =
    names-hub_deployment cluster image_only "" keeps own_hub [] [] deployed.1
