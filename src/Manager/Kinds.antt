-- ===== src/Manager/Kinds.antt =====
-- The kinds that the controllers read and watch, and what they are for.
use swagger_hub_controller.Base.{String, true, false, ◌&&◌, List, [], ◌∷◌, ◌≡◌, refl, arith, ◌==◌}
use swagger_hub_controller.Base.Lists.{All}
use swagger_hub_controller.Kube.Meta.{Selector}
use swagger_hub_controller.Kube.Workload.{Container}
use swagger_hub_controller.Kube.Client.{Client}
use swagger_hub_controller.Api.Scheme.{
  GroupVersionKind, Scheme, group_version_kind, recognizes, add_types, object_types,
  add_known_types,
}
use swagger_hub_controller.Merge.{StrategicPatch}
use swagger_hub_controller.Definition.Fetch.{HttpClient}
use swagger_hub_controller.Specification.OpenApi.{OpenApiLibrary}
use swagger_hub_controller.Manager.Runtime.{
  Flags, Controller, Watch, map_func, controller_owner, Runtime,
}
use swagger_hub_controller.Manager.Setup.{
  config_map_kind, secret_kind, service_kind, deployment_kind, setup_hub, setup_definition,
  setup_specification,
}
use swagger_hub_controller.Manager.Main.{init_scheme, cache_options, controllers}

-- Adding kinds of Kubernetes forgets no kind, and the client library knows its own.
pub record SchemeLawful {K : Client} {W : Type 0} (R : Runtime K W) : Type 0 where
  pub add_to_group_version :
      (s : Scheme) (k : GroupVersionKind)
      → recognizes s k ≡ true
      → recognizes (R.add_to_group_version s) k ≡ true
  pub core :
      (s : Scheme) (k : GroupVersionKind)
      → recognizes s k ≡ true
      → recognizes (R.core_add_to_scheme s) k ≡ true
  pub client_go :
      (s : Scheme)
      → All
          (λ k. recognizes (R.client_go_add_to_scheme s) k ≡ true)
          (config_map_kind ∷ secret_kind ∷ service_kind ∷ deployment_kind ∷ [])

recognizes-add_types :
    (kinds : List String) (s : Scheme) (k : GroupVersionKind)
    → recognizes s k ≡ true
    → recognizes (add_types kinds s) k ≡ true
unfolding add_types recognizes
recognizes-add_types [] s k h = h
recognizes-add_types (x ∷ kinds) s k h =
    recognizes-add_types kinds (group_version_kind x ∷ s) k (ground arith)

module _ {K : Client} {W : Type 0} (R : Runtime K W) where
  -- The kinds that a controller watches, and the kinds of the owners that it looks for.
  abbrev watched_kinds : List (Watch K) → List GroupVersionKind
  watched_kinds [] = []
  watched_kinds (x ∷ watches) = x.kind ∷ watched_kinds watches

  abbrev owners : List (Watch K) → List GroupVersionKind
  owners [] = []
  owners (x ∷ watches) = elim x.event_handler [
    | map_func f ↦ owners watches
    | controller_owner k ↦ k ∷ owners watches
  ]

  -- The resources of the kind are restricted to those that the selector of the process matches.
  abbrev Restricted : List (GroupVersionKind × Selector) → GroupVersionKind → Selector → Type 0
  Restricted [] k s = ⊥
  Restricted (x ∷ by_object) k s =
      elim (x.0.group == k.group && x.0.version == k.version && x.0.kind == k.kind) [
        | true ↦ x.1 ≡ s
        | false ↦ Restricted by_object k s
      ]

  -- The scheme has all kinds of the controller, and its resources are restricted.
  abbrev pub IsServed : Selector → String → Controller K → Type 0
  IsServed selector namespace c =
      (recognizes (init_scheme R []) c.for_kind ≡ true)
      × All (λ k. recognizes (init_scheme R []) k ≡ true) (watched_kinds c.watches)
      × All (λ k. recognizes (init_scheme R []) k ≡ true) (owners c.watches)
      × Restricted (cache_options R selector namespace).by_object c.for_kind selector

  module _ (lawful : SchemeLawful R) where
    known :
        (k : String)
        → recognizes
            (add_types object_types (R.core_add_to_scheme (R.client_go_add_to_scheme [])))
            (group_version_kind k)
          ≡ true
        → recognizes (init_scheme R []) (group_version_kind k) ≡ true
    unfolding init_scheme add_known_types
    known k h = lawful.add_to_group_version _ (group_version_kind k) h

    core_known :
        (k : GroupVersionKind)
        → recognizes (R.client_go_add_to_scheme []) k ≡ true
        → recognizes (init_scheme R []) k ≡ true
    unfolding init_scheme add_known_types
    core_known k h = lawful.add_to_group_version _ k (
        recognizes-add_types object_types (R.core_add_to_scheme (R.client_go_add_to_scheme [])) k
          (lawful.core (R.client_go_add_to_scheme []) k h))

    hub_known : recognizes (init_scheme R []) (group_version_kind "SwaggerHub") ≡ true
    unfolding object_types add_types recognizes
    hub_known = known "SwaggerHub" refl

    definition_known : recognizes (init_scheme R []) (group_version_kind "SwaggerDefinition") ≡ true
    unfolding object_types add_types recognizes
    definition_known = known "SwaggerDefinition" refl

    specification_known :
        recognizes (init_scheme R []) (group_version_kind "SwaggerSpecification") ≡ true
    unfolding object_types add_types recognizes
    specification_known = known "SwaggerSpecification" refl

    -- Where the libraries know their own kinds and forget none, the scheme of the process has, for
    -- each controller that `main` sets up, the kind that it is for, the kinds that it watches and
    -- the kinds of the owners that it looks for, and the cache restricts the resources that it is
    -- for to the selector of the process.
    pub controllers-IsServed :
        (H : HttpClient K.World) (P : StrategicPatch Container) (L : OpenApiLibrary) (flags : Flags)
        (selector : Selector) (namespace : String)
        → All (λ c. IsServed selector namespace c.1) (controllers R H P L flags)
    unfolding controllers setup_hub setup_definition setup_specification cache_options
    controllers-IsServed H P L flags selector namespace =
        let core = lawful.client_go [] in
        let config_map = core_known config_map_kind core.0 in
        let service = core_known service_kind core.1.1.0 in
        let deployment = core_known deployment_kind core.1.1.1.0 in
        (
          (
            hub_known,
            (definition_known, (specification_known, (service, (deployment, tt)))),
            (hub_known, (hub_known, tt)),
            refl,
          ),
          (
            (definition_known, (config_map, tt), (definition_known, tt), refl),
            ((specification_known, (definition_known, tt), tt, refl), tt),
          ),
        )
