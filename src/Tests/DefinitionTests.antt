-- ===== src/Tests/DefinitionTests.antt =====
-- The definition controller at concrete resources.
use swagger_hub_controller.Base.{
  none, some, [], ◌∷◌, ok, err, errorf, Action, ◌≡◌, refl, inl, inr, arith, if◌then◌else◌, ◌==◌,
  eq_iff,
}
use swagger_hub_controller.Kube.Meta.{pos}
use swagger_hub_controller.Kube.Workload.{Bytes}
use swagger_hub_controller.Kube.Laws.{Holds}
use swagger_hub_controller.Api.Definition.{SwaggerDefinition, definition_object}
use swagger_hub_controller.Definition.Fetch.{Request, Response, HttpClient, fetch_definition}
use swagger_hub_controller.Definition.Reconcile.{reconcile, reported, reconcile_request}
use swagger_hub_controller.Definition.Credentials.{
  IsSafe, IsStrict, fetch_definition-IsSafe, fetch_definition_ok,
}
use swagger_hub_controller.Definition.Retry.{IsRetried, reconcile_request-IsRetried}
use swagger_hub_controller.Definition.Outcome.{Reports, reconcile_stores, reconcile-Reports}
use swagger_hub_controller.Tests.Cluster.{
  Cluster, cluster, cluster-ConfigMapsLawful, cluster-ConditionsLawful,
}
use swagger_hub_controller.Tests.Samples.{private_pets, insecure_pets, apps}

-- A server that answers each request with a document.
abbrev pub server : HttpClient Cluster
server = record {
  parse_error = λ url. none;
  do_request = λ r w. (ok (record { status_code = 200; body = some (ok "{}") }), w);
  close_body = λ res w. w;
}

-- The same server behind an attacker, who answers what is sent in clear.
abbrev intercepted : Request → Action Cluster Response
intercepted r w =
    if r.scheme == "https"
    then (ok (record { status_code = 200; body = some (ok "{}") }), w)
    else elim r.basic_auth [
      | none ↦ (ok (record { status_code = 200; body = some (ok "{}") }), w)
      | some a ↦ (ok (record { status_code = 200; body = some (ok "stolen") }), w)
    ]

intercepted_agrees :
    (r : Request) (w : Cluster) → IsSafe cluster r → intercepted r w ≡ server.do_request r w
intercepted_agrees r w (inl e) = ground arith
intercepted_agrees r w (inr e) = ground (arith, eq_iff r.scheme "https")

fetches : fetch_definition cluster server private_pets apps ≡ (ok "{}", apps)
unfolding fetch_definition
fetches = refl

refuses :
    fetch_definition cluster server insecure_pets apps
    ≡ (err (errorf "refusing to send basic auth credentials to an insecure http:// url"), apps)
unfolding fetch_definition
refuses = refl

strict : IsStrict cluster insecure_pets
strict a b p q = ground arith

fetch_definition-IsSafe_example :
    fetch_definition cluster (record server { do_request = intercepted }) insecure_pets apps
    ≡ fetch_definition cluster server insecure_pets apps
fetch_definition-IsSafe_example =
    fetch_definition-IsSafe cluster server insecure_pets intercepted (strict) intercepted_agrees
      apps

-- After a read whose response is the given one: the response of the server to a request for the url.
abbrev Answered : SwaggerDefinition → Bytes → Cluster → Type 0
Answered d b w' =
    (r : Request) × (res : Response) × (v : Cluster) × (v' : Cluster) × (d.spec.url ≡ some r.url)
    × (server.do_request r v ≡ (ok res, v'))
    × (res.status_code ≡ 200)
    × (res.body ≡ some (ok b))
    × (w' ≡ server.close_body res v')

fetch_definition_ok_example : Answered private_pets "{}" apps
fetch_definition_ok_example = fetch_definition_ok cluster server private_pets apps fetches

reconcile_stores_example :
    (b : Bytes) × (v : Cluster) × (fetch_definition cluster server private_pets apps ≡ (ok b, v))
    × Holds cluster
        (reconcile cluster server (record { world = apps; object = private_pets })).1.world
        (record { namespace = "apps"; name = "swagger-definition-pets" })
        (("definition.json", b) ∷ [])
unfolding reconcile
reconcile_stores_example =
    reconcile_stores cluster server private_pets cluster-ConfigMapsLawful apps refl

reconcile-Reports_example :
    Reports cluster server insecure_pets
      (err (
        errorf
          "failed to fetch definition: refusing to send basic auth credentials to an insecure http:// url"))
      (reported cluster
        (err (
          errorf
            "failed to fetch definition: refusing to send basic auth credentials to an insecure http:// url"))
        apps
        insecure_pets)
unfolding reconcile reported
reconcile-Reports_example =
    reconcile-Reports cluster server insecure_pets cluster-ConditionsLawful apps

-- A definition with an interval of a minute, whose fetch is refused.
abbrev polled : SwaggerDefinition
polled = record insecure_pets { spec = record (insecure_pets.spec) { interval = pos 60000000000 } }

abbrev polling : Cluster
polling = record apps { definitions = polled ∷ [] }

reconcile_request-IsRetried_example :
    IsRetried cluster server polled polling (record { requeue_after = pos 60000000000 })
unfolding reconcile_request
reconcile_request-IsRetried_example =
    reconcile_request-IsRetried cluster server polled (record { namespace = "apps"; name = "pets" })
      polling polling refl refl refl
