-- ===== src/Tests/SystemTests.antt =====
-- The controllers together, on the cluster in memory.
use swagger_hub_controller.Base.{
  String, Bool, true, false, List, [], ◌∷◌, ok, ◌≡◌, refl, subst, sym, arith, ◌==◌, eq_iff, ◌∙◌,
  if◌then◌else◌,
}
use swagger_hub_controller.Base.Lists.{All, filter_by}
use swagger_hub_controller.Base.Runs.{Runs-consequence, Ends, IsCalm}
use swagger_hub_controller.Kube.Meta.{ObjectKey, Object, key_of}
use swagger_hub_controller.Kube.Workload.{Bytes, service_object, deployment_object}
use swagger_hub_controller.Kube.Guards.{CallsGuard}
use swagger_hub_controller.Api.Definition.{SwaggerDefinition, definition_object}
use swagger_hub_controller.Api.Hub.{SwaggerHub, hub_object}
use swagger_hub_controller.Api.Specification.{SwaggerSpecification, specification_object}
use swagger_hub_controller.Definition.Guards.Fetch.{HttpGuards}
use swagger_hub_controller.Definition.Fetch.{fetch_definition}
use swagger_hub_controller.Specification.Generate.{fetch_result}
use swagger_hub_controller.Definition.Reconcile.{
  reconcile as reconcile_object, reconcile_request as reconcile_definition,
}
use swagger_hub_controller.Hub.Reconcile.{reconcile_request as reconcile_hub}
use swagger_hub_controller.Specification.Reconcile.{reconcile_request as reconcile_specification}
use swagger_hub_controller.System.{
  hub_request, definition_request, serve, serves, elsewhere, Reach, start, later,
}
use swagger_hub_controller.System.Documents.{read_document, result_of, reconcile-fetch_result}
use swagger_hub_controller.System.Panics.{
  Never, IsAssertion, IsServer, definition_request-IsCalm, hub_request-IsCalm,
  specification_request-IsCalm,
}
use swagger_hub_controller.System.Foreign.{
  Any, AllForeign, Kept, AtOther, Spares, Reach-service, Reach-deployment,
}
use swagger_hub_controller.Tests.Cluster.{
  Cluster, cluster, cluster-ConfigMapsLawful, at_key, put, same_key,
}
use swagger_hub_controller.Tests.ClusterGuards.{
  resource-Reads, resource-Writes, at_key-put_other, cluster-CallsGuard,
}
use swagger_hub_controller.Tests.Samples.{
  apps, own_hub, private_pets, insecure_pets, foreign_owner, foreign_service, ready_deployment,
}
use swagger_hub_controller.Tests.DefinitionTests.{server}
use swagger_hub_controller.Tests.MergeTests.{image_only}
use swagger_hub_controller.Tests.SpecificationTests.{library, published}

abbrev Anything : Cluster → Type 0
Anything w = Unit

module _ (C : String → Type 0) where
  calls_lem : CallsGuard cluster Anything C
  calls_lem =
      cluster-CallsGuard Anything C (λ w a b e p. tt) (λ l w p. tt) (λ w a b e p. tt) (λ l w p. tt)

  server-HttpGuards : {I : Cluster → Type 0} → HttpGuards I C server
  server-HttpGuards = record {
    do_request = λ r. record { at = λ w p. (p, (ok "{}", refl, tt)) };
    close_body = λ res w p. p;
  }

definition_request-IsCalm_example :
    IsCalm Never
      (reconcile_definition cluster server (record { namespace = "apps"; name = "pets" }) apps).0
definition_request-IsCalm_example =
    definition_request-IsCalm (calls_lem Never) (server-HttpGuards Never)
      (record { namespace = "apps"; name = "pets" }) apps tt

hub_request-IsCalm_example :
    IsCalm Never
      (reconcile_hub cluster image_only "" (record { namespace = "apps"; name = "own" }) apps).0
hub_request-IsCalm_example =
    hub_request-IsCalm (calls_lem Never)
      (resource-Writes (λ w. w.services) (λ l w. record w { services = l }) (λ a b. b) Anything
        Never (λ _. Unit) (λ w a h p. tt))
      (resource-Writes (λ w. w.deployments) (λ l w. record w { deployments = l }) (λ a b. b)
        Anything Never (λ _. Unit) (λ w a h p. tt))
      (record { marshal = λ a. tt; strategic_merge_patch = λ b p. tt; unmarshal = λ b. tt }) ""
      (record { namespace = "apps"; name = "own" }) apps tt

-- What holds of each resource of a list holds of the one at a key, and of those that pass a test.
module _ {A : Type 0} ⦃o : Object A⦄ (P : A → Type 0) where
  at_key-All :
      (C : String → Type 0) (I : Cluster → Type 0) (key : ObjectKey) (l : List A) (w : Cluster)
      → All P l
      → I w
      → Ends I C (λ h w. I w × P h) (at_key key l, w)
  at_key-All C I key [] w h p = p
  at_key-All C I key (a ∷ l) w h p = go (same_key (key_of a) key) (at_key-All C I key l w h.1 p)
    where
      go :
          (b : Bool)
          → Ends I C (λ h w. I w × P h) (at_key key l, w)
          → Ends I C (λ h w. I w × P h) ((if b then ok a else at_key key l), w)
      go true q = (p, h.0)
      go false q = q

  at_key-found : (key : ObjectKey) (l : List A) (a : A) → All P l → at_key key l ≡ ok a → P a
  at_key-found key l a h e =
      (subst (λ r. Ends {W = Cluster} {A = A} (λ _. Unit) Any (λ h w. Unit × P h) (r, apps)) e
        (at_key-All Any (λ _. Unit) key l apps h tt)).1

  All-filter_by : (p : A → Bool) (l : List A) → All P l → All P (filter_by p l)
  All-filter_by p [] h = tt
  All-filter_by p (a ∷ l) h = go (p a) (All-filter_by p l h.1)
    where
      go :
          (b : Bool)
          → All P (filter_by p l)
          → All P (if b then a ∷ filter_by p l else filter_by p l)
      go true q = (h.0, q)
      go false q = q

-- No specification of the cluster has a nil pointer among its servers.
abbrev HasServers : SwaggerSpecification → Type 0
HasServers s = All IsServer s.spec.servers

abbrev AllHaveServers : Cluster → Type 0
AllHaveServers w = All HasServers w.specifications

specification_request-IsCalm_example :
    IsCalm IsAssertion
      (reconcile_specification cluster library
        (record { namespace = "apps"; name = "all" })
        published).0
specification_request-IsCalm_example =
    specification_request-IsCalm
      (cluster-CallsGuard AllHaveServers IsAssertion (λ w a b e p. p) (λ l w p. p)
        (λ w a b e p. (
          at_key-found HasServers (key_of a) w.specifications b p e,
          All-filter_by HasServers _ w.specifications p,
        ))
        (λ l w p. p))
      (record {
        unmarshal = λ b. tt;
        marshal = λ fs. tt;
        load_from_data = λ b. tt;
        marshal_json = λ d. tt;
      })
      (λ k. record {
        at = λ w p. at_key-All HasServers IsAssertion AllHaveServers k w.specifications w p p;
      })
      (record { namespace = "apps"; name = "all" }) published ((tt, tt), tt)

-- No hub of the list has the name, the uid and the kind of the service's owner.
abbrev IsStranger : SwaggerHub → Type 0
IsStranger h = AllForeign (foreign_owner ∷ []) h.type_meta h.metadata

abbrev Strangers : Cluster → Type 0
Strangers w = All IsStranger w.hubs

abbrev service_key : ObjectKey
service_key = record { namespace = "apps"; name = "swagger-ui-own" }

abbrev KeptService : Cluster → Type 0
KeptService = Kept cluster cluster.services service_key foreign_service Strangers

-- Another program adds a definition.
abbrev Adds : Cluster → Cluster → Type 0
Adds w w' = (d : SwaggerDefinition) × (w' ≡ record w { definitions = put d w.definitions })

own_hub-IsStranger : IsStranger own_hub
own_hub-IsStranger =
    (λ h. let e : ("u0" == "u1") ≡ true = (eq_iff "u0" "u1").1 h.1 in ground arith, tt)

service_spares : Spares cluster cluster.services service_key foreign_service Strangers server Adds
service_spares = record {
  calls =
      cluster-CallsGuard KeptService Any
        (λ w a b e p. (
          p.0,
          (
            at_key-found IsStranger (key_of a) w.hubs b p.1 e,
            All-filter_by IsStranger _ w.hubs p.1,
          ),
        ))
        (λ l w p. p) (λ w a b e p. p) (λ l w p. p);
  http = server-HttpGuards Any;
  writes =
      resource-Writes (λ w. w.services) (λ l w. record w { services = l }) (λ a b. b) KeptService
        Any (AtOther cluster cluster.services service_key foreign_service)
        (λ w a h p. (at_key-put_other service_key a w.services h ∙ p.0, p.1));
  hub = λ k. record { at = λ w p. at_key-All IsStranger Any KeptService k w.hubs w p.1 p };
  others = λ w w' (d, e) p. subst KeptService (sym e) p;
}

abbrev hub_served : Cluster
hub_served =
    (serve cluster server image_only library ""
      (hub_request (record { namespace = "apps"; name = "own" })) apps).1

abbrev definition_added : Cluster
definition_added = record hub_served { definitions = put insecure_pets hub_served.definitions }

abbrev both_served : Cluster
both_served =
    (serve cluster server image_only library ""
      (definition_request (record { namespace = "apps"; name = "pets" })) definition_added).1

-- The hub's request, a definition that another program adds, and the definition's request.
history : Reach cluster server image_only library "" Adds apps both_served
history =
    later
      (later (later start (serves (hub_request (record { namespace = "apps"; name = "own" })) refl))
        (elsewhere (insecure_pets, refl)))
      (serves (definition_request (record { namespace = "apps"; name = "pets" })) refl)

Reach-service_example : (cluster.services.get service_key both_served).0 ≡ ok foreign_service
Reach-service_example =
    Reach-service cluster server image_only library "" service_key foreign_service service_spares
      (resource-Writes (λ w. w.deployments) (λ l w. record w { deployments = l }) (λ a b. b)
        KeptService Any (λ _. Unit) (λ w a h p. p))
      history refl (own_hub-IsStranger, tt)

abbrev KeptDeployment : Cluster → Type 0
KeptDeployment = Kept cluster cluster.deployments service_key ready_deployment Anything

deployment_spares :
    Spares cluster cluster.deployments service_key ready_deployment Anything server Adds
deployment_spares = record {
  calls =
      cluster-CallsGuard KeptDeployment Any (λ w a b e p. p) (λ l w p. p) (λ w a b e p. p)
        (λ l w p. p);
  http = server-HttpGuards Any;
  writes =
      resource-Writes (λ w. w.deployments) (λ l w. record w { deployments = l }) (λ a b. b)
        KeptDeployment Any (AtOther cluster cluster.deployments service_key ready_deployment)
        (λ w a h p. (at_key-put_other service_key a w.deployments h ∙ p.0, tt));
  hub = λ k.
      Runs-consequence (cluster.hubs.get k) (λ w p. p) (λ h w p. (p, tt))
        ((resource-Reads (λ w. w.hubs) (λ l w. record w { hubs = l })
            (λ a b. record b { status = a.status }) KeptDeployment Any).get
          k);
  others = λ w w' (d, e) p. subst KeptDeployment (sym e) p;
}

Reach-deployment_example : (cluster.deployments.get service_key both_served).0 ≡ ok ready_deployment
Reach-deployment_example =
    Reach-deployment cluster server image_only library "" service_key ready_deployment
      deployment_spares
      (resource-Writes (λ w. w.services) (λ l w. record w { services = l }) (λ a b. b)
        KeptDeployment Any (λ _. Unit) (λ w a h p. p))
      history refl tt

reconcile-fetch_result_example :
    (b : Bytes) × (v : Cluster) × (fetch_definition cluster server private_pets apps ≡ (ok b, v))
    × ((fetch_result cluster library 0 private_pets
          (reconcile_object cluster server
            (record { world = apps; object = private_pets })).1.world).0
        ≡ result_of cluster server library 0 private_pets
            (read_document cluster server library "pets" b))
unfolding reconcile_object
reconcile-fetch_result_example =
    reconcile-fetch_result cluster server library cluster-ConfigMapsLawful private_pets private_pets
      apps refl refl refl 0
