-- ===== src/System/Panics.antt =====
-- Panics of the requests of the three controllers.
use swagger_hub_controller.Base.{
  String, Action, Result, ok, err, panic, true, Option, none, some, List, [], ◌∷◌, ◌≡◌, refl,
}
use swagger_hub_controller.Base.Lists.{All}
use swagger_hub_controller.Api.Specification.{Server}
use swagger_hub_controller.Specification.Generate.{open_api_servers}
use swagger_hub_controller.Base.Runs.{Runs, Ends, Guards, IsCalm, IsCalm-and_then, Runs-consequence}
use swagger_hub_controller.Kube.Meta.{ObjectKey, TypeMeta, ObjectMeta}
use swagger_hub_controller.Kube.Workload.{
  Container, Service, Deployment, service_object, deployment_object,
}
use swagger_hub_controller.Kube.Client.{Client}
use swagger_hub_controller.Kube.Guards.{CallsGuard, Writes}
use swagger_hub_controller.Merge.{StrategicPatch}
use swagger_hub_controller.Merge.Calm.{PatchCalm}
use swagger_hub_controller.Definition.Fetch.{HttpClient}
use swagger_hub_controller.Definition.Guards.Fetch.{HttpGuards}
use swagger_hub_controller.Definition.Reconcile.{reconcile_request as reconcile_definition}
use swagger_hub_controller.Definition.Guards.{
  reconcile_request-Guards as reconcile_definition-Guards,
}
use swagger_hub_controller.Hub.Reconcile.{reconcile_request as reconcile_hub}
use swagger_hub_controller.Hub.Guards.{OwnedGuard, reconcile_request-Guards as reconcile_hub-Guards}
use swagger_hub_controller.Hub.Guards.Owned.{create_or_update-Guards}
use swagger_hub_controller.Specification.Json.{Json, null, boolean, number, string, array, object}
use swagger_hub_controller.Specification.References.{as_text, as_object, has_prefix, strip_prefix}
use swagger_hub_controller.Specification.OpenApi.{OpenApiLibrary}
use swagger_hub_controller.Specification.Guards.Documents.{Asserts, LibraryCalm}
use swagger_hub_controller.Specification.Reconcile.{reconcile_request as reconcile_specification}
use swagger_hub_controller.Specification.Guards.{
  reconcile_request-Guards as reconcile_specification-Guards,
}

-- No panic is allowed.
abbrev pub Never : String → Type 0
Never m = ⊥

abbrev pub Anything : {A : Type 0} → A → Type 0
Anything a = Unit

abbrev AnyHub : TypeMeta → ObjectMeta → Type 0
AnyHub t m = Unit

Guards-IsCalm :
    {W A : Type 0} {I : W → Type 0} {C : String → Type 0} (m : Action W A)
    → Guards I C m
    → (w : W) → I w
    → IsCalm C (m w).0
Guards-IsCalm {W} {A} {I} {C} m h w p = ended (m w) (h.at w p)
  where
    ended : (x : Result A × W) → Ends I C (λ _. I) x → IsCalm C x.0
    ended (ok a, w) h = tt
    ended (err e, w) h = tt
    ended (panic m, w) h = h.0

module _ {K : Client} {I : K.World → Type 0} {C : String → Type 0} (G : CallsGuard K I C) where
  -- Where services and deployments may all be written.
  pub any-OwnedGuard :
      Writes I C (λ (_ : Service). Unit) K.services
      → Writes I C (λ (_ : Deployment). Unit) K.deployments
      → OwnedGuard K I C AnyHub
  any-OwnedGuard services deployments = record {
    hub = λ key. Runs-consequence (K.hubs.get key) (λ w p. p) (λ h w p. (p, tt)) (G.hubs.get key);
    service =
        λ h s _. create_or_update-Guards K K.services G.services services (λ t a _. tt) h s tt;
    deployment = λ h d _.
        create_or_update-Guards K K.deployments G.deployments deployments (λ t a _. tt) h d tt;
  }

module _ {K : Client} {I : K.World → Type 0} (G : CallsGuard K I Never) where
  -- In a cluster with some property that the calls of the client and of the HTTP client keep,
  -- where they do not panic and each response has a body that is read without a panic, a request
  -- for a definition does not panic.
  pub definition_request-IsCalm :
      {H : HttpClient K.World}
      → HttpGuards I Never H
      → (key : ObjectKey) (w : K.World) → I w
      → IsCalm Never (reconcile_definition K H key w).0
  definition_request-IsCalm {H} G' key w p =
      Guards-IsCalm (reconcile_definition K H key) (reconcile_definition-Guards G G' key) w p

  -- In a cluster with some property that the calls of the client keep, where neither they nor the
  -- functions that encode, patch and decode containers panic, a request for a hub does not panic:
  -- no map is assigned to before it is made.
  pub hub_request-IsCalm :
      {P : StrategicPatch Container}
      → Writes I Never (λ (_ : Service). Unit) K.services
      → Writes I Never (λ (_ : Deployment). Unit) K.deployments
      → PatchCalm Never P
      → (image : String) (key : ObjectKey) (w : K.World) → I w
      → IsCalm Never (reconcile_hub K P image key w).0
  hub_request-IsCalm {P} services deployments calm image key w p =
      Guards-IsCalm (reconcile_hub K P image key)
        (reconcile_hub-Guards G (any-OwnedGuard G services deployments) calm image key) w p

-- The panic of a failed type assertion.
abbrev pub IsAssertion : String → Type 0
IsAssertion m = has_prefix m "interface conversion: " ≡ true

pub asserts_lem : Asserts IsAssertion
unfolding strip_prefix
asserts_lem = record { text = text; fields = fields }
  where
    text : (j : Json) → IsCalm IsAssertion (as_text j)
    text null = refl
    text (boolean b) = refl
    text (number n) = refl
    text (string t) = tt
    text (array xs) = refl
    text (object fs) = refl

    fields : (j : Json) → IsCalm IsAssertion (as_object j)
    fields null = refl
    fields (boolean b) = refl
    fields (number n) = refl
    fields (string t) = refl
    fields (array xs) = refl
    fields (object fs) = tt

-- An item of the servers that is no nil pointer.
abbrev pub IsServer : Option Server → Type 0
IsServer none = ⊥
IsServer (some s) = Unit

open_api_servers-IsCalm :
    (C : String → Type 0) (l : List (Option Server))
    → All IsServer l
    → IsCalm C (open_api_servers l)
unfolding open_api_servers
open_api_servers-IsCalm C [] h = tt
open_api_servers-IsCalm C (none ∷ l) h = elim h.0 [ ]
open_api_servers-IsCalm C (some s ∷ l) h =
    IsCalm-and_then C (open_api_servers l) _ (open_api_servers-IsCalm C l h.1) (λ rest. tt)

module _ {K : Client} {I : K.World → Type 0} (G : CallsGuard K I IsAssertion) where
  -- No specification that is read has a nil pointer among its servers.
  abbrev pub ReadsServers : Type 0
  ReadsServers =
      (key : ObjectKey)
      → Runs I IsAssertion I (λ s w. I w × All IsServer s.spec.servers) (K.specifications.get key)

  -- In a cluster with some property that the calls of the client keep, where any panic of theirs
  -- and of the library for documents is a failed type assertion, and no specification that is read
  -- has a nil pointer among its servers, a request for a specification panics in no other way: no
  -- index of the catalog is out of range, and no result without an error lacks its document.
  pub specification_request-IsCalm :
      {L : OpenApiLibrary}
      → LibraryCalm IsAssertion L
      → ReadsServers
      → (key : ObjectKey) (w : K.World) → I w
      → IsCalm IsAssertion (reconcile_specification K L key w).0
  specification_request-IsCalm {L} calm servers key w p =
      Guards-IsCalm (reconcile_specification K L key)
        (reconcile_specification-Guards G asserts_lem calm
          (λ k.
            Runs-consequence (K.specifications.get k) (λ w p. p)
              (λ s w p. (p.0, open_api_servers-IsCalm IsAssertion s.spec.servers p.1)) (servers k))
          key)
        w p
