-- ===== src/Tests/HubTests.antt =====
-- The hub controller at concrete resources.
use mathlib.Core.List.{Pairwise-pair}
use mathlib.Core.List.Perm
use mathlib.Core.HLevel.{hedberg}
use swagger_hub_controller.Base.{
  String, none, some, List, [], ◌∷◌, ok, err, errorf, ◌≡◌, refl, Run, arith, eq_iff, Bool-cases,
  inl, inr, ◌==◌,
}
use swagger_hub_controller.Base.Sort.{IsSorted, sort_func, Apart, sort_func-perm_eq}
use swagger_hub_controller.Kube.Meta.{key_of, Selector, object_named}
use swagger_hub_controller.Kube.Workload.{Deployment, config_map_object, service_object}
use swagger_hub_controller.Api.Definition.{SwaggerDefinition, definition_object}
use swagger_hub_controller.Api.Hub.{SwaggerHub}
use swagger_hub_controller.Shared.Selected.{Selected, select_resources-Selected}
use swagger_hub_controller.Shared.Lookup.{select_namespaces, select_resources}
use swagger_hub_controller.Shared.Selection.{select_resources-IsSorted}
use swagger_hub_controller.Hub.Ownership.{create_or_update_with_ownership_validation}
use swagger_hub_controller.Hub.Owners.{IsForeign, create_or_update-foreign}
use swagger_hub_controller.Hub.Deployment.{deployment_template, service_template, selector_labels}
use swagger_hub_controller.Hub.Labels.{Labelled, deployment_template-labels}
use swagger_hub_controller.Hub.Mounts.{ApiUrl, MountRef, refine_refs, local_copy}
use swagger_hub_controller.Hub.Served.{
  served, offered, refine_refs-served, key_of-local_copy_collision,
}
use swagger_hub_controller.Hub.Watch.{requests_for_change}
use swagger_hub_controller.Base.Lists.{All}
use swagger_hub_controller.Hub.Completeness.{IsWatched, select_resources-IsWatched}
use swagger_hub_controller.Hub.Requests.{requests_for_change-watching, requests_for_change-lost}
use swagger_hub_controller.Hub.Reconcile.{conclude_health}
use swagger_hub_controller.Hub.Health.{Judged, conclude_health-Judged}
use swagger_hub_controller.Kube.Laws.{ListLawful}
use swagger_hub_controller.Hub.ApiUrls.{marshal_api_urls}
use swagger_hub_controller.Hub.ApiText.{code_points}
use swagger_hub_controller.Hub.ApiList.{read_list}
use swagger_hub_controller.Hub.ApiList.RoundTrip.{read_list-marshal_api_urls}
use swagger_hub_controller.Hub.ApiSafety.{Inert, marshal_api_urls-Inert}
use swagger_hub_controller.Tests.Cluster.{
  resource-ListLawful, Cluster, cluster, cluster-ConditionsLawful,
}
use swagger_hub_controller.Tests.Samples.{
  config_map, own_hub, broken_hub, foreign_service, foreign_owner, ready_deployment, private_pets,
  apps,
}

other_uid : IsForeign own_hub foreign_owner
other_uid (p, q, r) = ground (arith, eq_iff "u0" "u1")

create_or_update-foreign_example :
    create_or_update_with_ownership_validation cluster cluster.services own_hub
      (service_template own_hub)
      apps
    ≡ (err (errorf "can not take ownership of existing resource: swagger-ui-own"), apps)
unfolding service_template
create_or_update-foreign_example =
    create_or_update-foreign cluster cluster.services own_hub (service_template own_hub)
      foreign_service apps apps refl (other_uid, tt)

deployment_template-labels_example :
    (d : Deployment) × (deployment_template own_hub ≡ ok d)
    × Labelled own_hub none d
    × ((service_template own_hub).selector ≡ selector_labels own_hub)
deployment_template-labels_example = deployment_template-labels own_hub

abbrev refs : List MountRef
refs =
    record { namespace = "apps"; name = "pets"; config_map = "swagger-definition-pets" }
    ∷ record { namespace = "other"; name = "birds"; config_map = "swagger-definition-birds" }
    ∷ record { namespace = "apps"; name = "gone"; config_map = "swagger-definition-gone" }
    ∷ []

abbrev urls : List ApiUrl
urls =
    record { name = "pets:apps"; url = "https://ui/definitions/apps/pets/definition.json" }
    ∷ record { name = "birds:other"; url = "https://ui/definitions/other/birds/definition.json" }
    ∷ []

abbrev refined : List MountRef
refined =
    record { namespace = "apps"; name = "pets"; config_map = "swagger-definition-pets" }
    ∷ record { namespace = "other"; name = "birds"; config_map = "swagger-definition-birds-other" }
    ∷ []

mounted :
    refine_refs cluster "apps" "https://ui" [] [] refs apps
    ≡ (ok (urls, refined), (refine_refs cluster "apps" "https://ui" [] [] refs apps).1)
unfolding refine_refs
mounted = refl

refine_refs-served_example : offered urls ≡ served "https://ui" refined
refine_refs-served_example = refine_refs-served cluster "apps" "https://ui" refs apps mounted

key_of-local_copy_collision_example :
    key_of (local_copy "ui" (config_map "c" "swagger-definition-a-b" "{}"))
    ≡ key_of (local_copy "ui" (config_map "b-c" "swagger-definition-a" "{}"))
key_of-local_copy_collision_example =
    key_of-local_copy_collision "ui" "b" (config_map "c" "swagger-definition-a-b" "{}")
      (config_map "b-c" "swagger-definition-a" "{}") refl refl

abbrev own_namespace : SwaggerHub → List String
own_namespace hub = hub.metadata.namespace ∷ []

requests_for_change-watching_example :
    requests_for_change cluster (λ h. h.spec.definition_selector) private_pets.metadata apps
    ≡ (ok (record { namespace = "apps"; name = "own" } ∷ []), apps)
unfolding requests_for_change
requests_for_change-watching_example =
    requests_for_change-watching cluster (λ h. h.spec.definition_selector) private_pets.metadata
      apps own_namespace (own_hub ∷ []) refl ((refl, tt), tt)

abbrev broken_apps : Cluster
broken_apps = record apps { hubs = own_hub ∷ broken_hub ∷ [] }

requests_for_change-lost_example :
    requests_for_change cluster (λ h. h.spec.definition_selector) private_pets.metadata broken_apps
    ≡ (ok [], broken_apps)
unfolding requests_for_change
requests_for_change-lost_example =
    requests_for_change-lost cluster (λ h. h.spec.definition_selector) private_pets.metadata
      broken_apps own_namespace (own_hub ∷ []) [] broken_hub
      (errorf "not a valid label selector operator") refl ((refl, tt), tt) refl

conclude_health-Judged_example :
    (s' : Run Cluster SwaggerHub) × (conclude_health cluster
        (record { world = apps; object = own_hub })
      ≡ (ok tt, s'))
    × Judged cluster cluster-ConditionsLawful 2 own_hub s'.object
conclude_health-Judged_example =
    conclude_health-Judged cluster cluster-ConditionsLawful
      (record { world = apps; object = own_hub }) ready_deployment apps refl refl

select_resources-IsSorted_example : IsSorted (private_pets ∷ [])
unfolding select_resources
select_resources-IsSorted_example =
    select_resources-IsSorted cluster cluster.definitions
      (some (record { match_labels = none; match_expressions = [] })) none "apps" apps refl

abbrev sibling : SwaggerDefinition
sibling = record private_pets { metadata = record (private_pets.metadata) { name = "birds" } }

apart : Apart private_pets sibling
apart (p, q) = ground (arith, eq_iff "pets" "birds")

text_discrete : Discrete String
text_discrete s t = elim (Bool-cases (s == t)) [
  | inl e ↦ yes ((eq_iff s t).0 e)
  | inr e ↦ no (λ p. ground (arith, eq_iff s t))
]

text_set : IsSet String
text_set = hedberg text_discrete

definitions_set : IsSet SwaggerDefinition
definitions_set = hlevel (text_set)

sort_func-perm_eq_example :
    sort_func (private_pets ∷ sibling ∷ []) ≡ sort_func (sibling ∷ private_pets ∷ [])
sort_func-perm_eq_example =
    sort_func-perm_eq (Perm.swap sibling private_pets []) ((Pairwise-pair (λ a b. hlevel)).1 apart)
      definitions_set

definitions-ListLawful : ListLawful cluster.definitions
definitions-ListLawful =
    resource-ListLawful (λ w. w.definitions) (λ l w. record w { definitions = l })
      (λ a b. record b { status = a.status })

select_resources-IsWatched_example :
    All
      (IsWatched cluster cluster.definitions definitions-ListLawful
        (λ h. h.spec.definition_selector)
        own_hub
        apps)
      (private_pets ∷ [])
unfolding select_resources
select_resources-IsWatched_example =
    select_resources-IsWatched cluster cluster.definitions definitions-ListLawful
      (λ h. h.spec.definition_selector) own_hub apps own_namespace (own_hub ∷ []) refl
      ((refl, tt), tt) (inl refl) refl

select_resources-Selected_example :
    (selector : Selector) × (namespaces : List String) × (v : Cluster)
    × (cluster.label_selector_as_selector own_hub.spec.definition_selector ≡ ok selector)
    × (select_namespaces cluster "apps" none apps ≡ (ok namespaces, v))
    × All (Selected selector namespaces) (private_pets ∷ [])
unfolding select_resources
select_resources-Selected_example =
    select_resources-Selected cluster cluster.definitions definitions-ListLawful
      own_hub.spec.definition_selector none "apps" apps refl

abbrev odd_urls : List ApiUrl
odd_urls =
    record { name = "pets & \"birds\""; url = "/v1?a=<b>\\" }
    ∷ record { name = ""; url = "/v2" }
    ∷ record { name = "fish"; url = "" }
    ∷ []

marshalled :
    marshal_api_urls odd_urls
    ≡ "[{\"name\":\"pets \\u0026 \\\"birds\\\"\",\"url\":\"/v1?a=\\u003cb\\u003e\\\\\"},{\"url\":\"/v2\"},{\"name\":\"fish\"}]"
unfolding marshal_api_urls
marshalled = refl

read_list-marshal_api_urls_example :
    read_list (marshal_api_urls odd_urls)
    ≡ some (
        (code_points "pets & \"birds\"", code_points "/v1?a=<b>\\")
        ∷ ([], code_points "/v2")
        ∷ (code_points "fish", [])
        ∷ [])
read_list-marshal_api_urls_example = read_list-marshal_api_urls odd_urls

marshal_api_urls-Inert_example : Inert (marshal_api_urls odd_urls)
marshal_api_urls-Inert_example = marshal_api_urls-Inert odd_urls
