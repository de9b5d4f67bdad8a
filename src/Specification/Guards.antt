-- ===== src/Specification/Guards.antt =====
-- The rules of Base/Runs for the functions of the specification controller.
pub mod Documents
use swagger_hub_controller.Base.{
  ℕ, suc, String, ◌<>◌, List, [], ◌∷◌, ◌++◌, map, Result, ok, err, panic, Run, pure, fail, lift,
  wrap, on_world, assign, current, if◌then◌else◌, ◌≡◌, refl, ap,
}
use swagger_hub_controller.Base.Lists.{length}
use swagger_hub_controller.Base.Runs.{
  Runs, Ends, Guards, IsCalm, InWorld, Runs-handle, Runs-if_at, Runs-pure, Runs-fail, Runs-lift,
  Runs-bind, Runs-frame, Runs-returned, Runs-on_world, Runs-assign, Runs-current,
}
use swagger_hub_controller.Kube.Meta.{pos, ObjectKey, key_of}
use swagger_hub_controller.Kube.Client.{Client}
use swagger_hub_controller.Kube.Guards.{CallsGuard}
use swagger_hub_controller.Api.Definition.{SwaggerDefinition, definition_object}
use swagger_hub_controller.Api.Specification.{
  SwaggerSpecification, ResourceLookupReference, specification_object,
}
use swagger_hub_controller.Api.Conditions.{swagger_specification_ready, condition_true}
use swagger_hub_controller.Shared.Outcome.{no_requeue, outcome, within}
use swagger_hub_controller.Shared.Lookup.{select_resources}
use swagger_hub_controller.Shared.ConfigMaps.{store_config_map}
use swagger_hub_controller.Shared.Guards.{
  store_config_map-Guards, select_resources-Guards, within-Guards,
}
use swagger_hub_controller.Specification.OpenApi.{OpenApi, OpenApiLibrary}
use swagger_hub_controller.Specification.Generate.{
  FetchResult, Collected, collect_results, fetch_loaded, fetch_result, fetch_results, assemble,
  open_api_servers, failed, generate_open_api,
}
use swagger_hub_controller.Specification.Catalog.{collect_results-catalog}
use swagger_hub_controller.Specification.Guards.Documents.{
  Asserts, LibraryCalm, fetch_loaded-IsCalm,
}
use swagger_hub_controller.Specification.Reconcile.{
  lookup_reference, clear_catalog, extend_catalog, specification_config_map, specification_map,
  extend_specification_with_definitions, patch_status, reported, conclude, store_specification,
  reconcile, attempt, reconcile_request,
}

length-catalog :
    (ds : List SwaggerDefinition) (refs : List ResourceLookupReference)
    → refs ≡ []
    → length (refs ++ map lookup_reference ds) ≡ length ds
length-catalog ds refs e = rw e (go ds)
  where
    go : (ds : List SwaggerDefinition) → length (map lookup_reference ds) ≡ length ds
    go [] = refl
    go (d ∷ ds) = ap suc (go ds)

module _ {K : Client} {I : K.World → Type 0} {C : String → Type 0} (G : CallsGuard K I C) where
  -- The loop over the servers panics only as allowed.
  abbrev pub CalmServers : SwaggerSpecification → Type 0
  CalmServers spec = IsCalm C (open_api_servers spec.spec.servers)

  abbrev Served : Run K.World SwaggerSpecification → Type 0
  Served s = I s.world × CalmServers s.object

  -- The controller's copy has no entry in its catalog.
  abbrev Fresh : Run K.World SwaggerSpecification → Type 0
  Fresh s = Served s × (s.object.status.sub_resource_catalog ≡ [])

  -- The controller's copy has an entry of the catalog for each of the definitions.
  abbrev HasEntries : List SwaggerDefinition → Run K.World SwaggerSpecification → Type 0
  HasEntries ds s = Served s × (length s.object.status.sub_resource_catalog ≡ length ds)

  extend_specification-Runs :
      Runs (InWorld I) C Fresh HasEntries (extend_specification_with_definitions K)
  unfolding extend_specification_with_definitions extend_catalog
  extend_specification-Runs =
      Runs-bind {Q = λ _. Fresh} current _ (Runs-current I (λ s p. p)) (λ spec.
        Runs-bind {Q = λ _. Fresh}
          (on_world (
            select_resources K K.definitions spec.spec.definition_selector
              spec.spec.namespace_selector spec.metadata.namespace))
          _
          (Runs-on_world I _ (λ o. Runs-frame _ (
            Runs-frame _ (
              select_resources-Guards G K.definitions G.definitions spec.spec.definition_selector
                spec.spec.namespace_selector spec.metadata.namespace))))
          (λ ds.
            Runs-bind {Q = λ _. HasEntries ds} (assign (λ _. extend_catalog ds)) (λ _. pure ds)
              (Runs-assign I (λ _. extend_catalog ds)
                (λ s p. (p.0, length-catalog ds s.object.status.sub_resource_catalog p.1)))
              (λ _. Runs-pure ds (λ s p. p))))

  module _ (allowed : Asserts C) {L : OpenApiLibrary} (calm : LibraryCalm C L) where
    fetch_result-Guards : (n : ℕ) (d : SwaggerDefinition) → Guards I C (fetch_result K L n d)
    unfolding fetch_result
    fetch_result-Guards n d =
        Runs-handle (K.config_maps.get key) (λ cm. lift (fetch_loaded K L n d cm))
          (λ e. pure (failed n d (wrap "definition configmap does not exists: " e)))
          (G.config_maps.get key)
          (λ cm. Runs-lift _ (fetch_loaded-IsCalm allowed K calm n d cm) (λ w p. p) (λ a w _ p. p))
          (λ e. Runs-pure _ (λ w p. p))
      where
        key : ObjectKey
        key = record {
          namespace = d.metadata.namespace;
          name = "swagger-definition-" <> d.metadata.name;
        }

    fetch_results-Guards :
        (n : ℕ) (ds : List SwaggerDefinition) → Guards I C (fetch_results K L n ds)
    unfolding fetch_results
    fetch_results-Guards n [] = Runs-pure [] (λ w p. p)
    fetch_results-Guards n (d ∷ ds) =
        Runs-bind {Q = λ _. I} (fetch_result K L n d) _ (fetch_result-Guards n d) (λ r.
          Runs-bind {Q = λ _. I} (fetch_results K L (suc n) ds) _ (fetch_results-Guards (suc n) ds)
            (λ rs. Runs-pure (r ∷ rs) (λ w p. p)))

    -- What is known where the results are collected.
    abbrev Gathered :
        List SwaggerDefinition
        → SwaggerSpecification
        → List FetchResult
        → Run K.World SwaggerSpecification
        → Type 0
    Gathered ds spec rs s =
        (I s.world × ((w : K.World) × (fetch_results K L 0 ds w ≡ (ok rs, s.world))))
        × (length spec.status.sub_resource_catalog ≡ length ds)

    abbrev start : SwaggerSpecification → Collected
    start spec = record {
      catalog = spec.status.sub_resource_catalog;
      schemas = [];
      security_schemes = [];
      paths = [];
    }

    -- The collection returns, so it does not panic.
    collect-Runs :
        (ds : List SwaggerDefinition) (spec : SwaggerSpecification) (rs : List FetchResult)
        → Runs
            (InWorld I)
            C
            (Gathered ds spec rs)
            (λ _. InWorld I)
            (lift (collect_results (start spec) rs))
    collect-Runs ds spec rs = record {
      at = λ s p. go (collect_results (start spec) rs) s (p.0.0) (
          let (c, e, _) = collect_results-catalog K L ds (start spec) (p.0.1.0) p.0.1.1 p.1 in
          (c, e));
    }
      where
        go :
            (r : Result Collected) (s : Run K.World SwaggerSpecification)
            → I s.world
            → (c : Collected) × (r ≡ ok c)
            → Ends {W = Run K.World SwaggerSpecification} (InWorld I) C (λ _. InWorld I) (r, s)
        go (ok c) s p h = p
        go (err e) s p h = p
        go (panic m) s p (c, e) = cc

    servers-Runs :
        (ds : List SwaggerDefinition) (spec : SwaggerSpecification)
        → Runs {W = Run K.World SwaggerSpecification}
            (InWorld I)
            C
            (λ s.
              (I s.world × CalmServers spec)
              × (length spec.status.sub_resource_catalog ≡ length ds))
            (λ _ s. I s.world × (length spec.status.sub_resource_catalog ≡ length ds))
            (lift (open_api_servers spec.spec.servers))
    servers-Runs ds spec = record {
      at = λ s p.
          (Runs-lift {Pre = λ s. I s.world × (length spec.status.sub_resource_catalog ≡ length ds)}
              (open_api_servers spec.spec.servers) p.0.1 (λ s p. p.0) (λ a s _ p. p)).at
            s (p.0.0, p.1);
    }

    generate-Runs :
        (ds : List SwaggerDefinition)
        → Runs (InWorld I) C (HasEntries ds) (λ _. InWorld I) (generate_open_api K L ds)
    unfolding generate_open_api
    generate-Runs ds =
        Runs-bind
          {Q = λ spec s.
            (I s.world × CalmServers spec) × (length spec.status.sub_resource_catalog ≡ length ds)}
          current _ (Runs-current I (λ s p. p))
          (λ spec.
            Runs-bind {Q = λ _ s. I s.world × (length spec.status.sub_resource_catalog ≡ length ds)}
              (lift (open_api_servers spec.spec.servers)) _ (servers-Runs ds spec)
              (λ servers.
                Runs-bind {Q = Gathered ds spec} (on_world (fetch_results K L 0 ds)) _
                  (Runs-on_world I _
                    (λ o. Runs-frame _ (Runs-returned _ (fetch_results-Guards 0 ds))))
                  (λ rs.
                    Runs-bind {Q = λ _. InWorld I} (lift (collect_results (start spec) rs)) _
                      (collect-Runs ds spec rs)
                      (λ c.
                        Runs-bind {Q = λ _. InWorld I}
                          (assign (λ _ s. record s {
                            status = record (s.status) { sub_resource_catalog = c.catalog };
                          }))
                          (λ _. pure (assemble K L spec servers c)) (Runs-assign I _ (λ s p. p))
                          (λ _. Runs-pure _ (λ s p. p))))))

    store_specification-Guards :
        (spec : SwaggerSpecification) (d : OpenApi)
        → Guards (InWorld I) C (store_specification K L spec d)
    unfolding store_specification
    store_specification-Guards spec d =
        Runs-bind {Q = λ _. InWorld I} (lift (L.marshal_json d)) _
          (Runs-lift _ (calm.marshal_json d) (λ s p. p) (λ a s _ p. p))
          (λ b.
            Runs-bind {Q = λ _. InWorld I}
              (on_world (store_config_map K (specification_map spec b))) _
              (Runs-on_world I _ (λ _. store_config_map-Guards G (specification_map spec b)))
              (λ _. Runs-assign I ready (λ s p. p)))
      where
        ready : K.World → SwaggerSpecification → SwaggerSpecification
        ready =
            swagger_specification_ready K condition_true "ReconciliationSuccessful"
              ("configmap/" <> (specification_config_map spec.metadata.name <> " created"))

    reconcile-Runs : Runs (InWorld I) C Served (λ _. InWorld I) (reconcile K L)
    unfolding reconcile
    reconcile-Runs =
        Runs-bind {Q = λ _. Fresh} (assign (λ _. clear_catalog)) _
          (Runs-assign I (λ _. clear_catalog) (λ s p. (p, refl)))
          (λ _.
            Runs-bind {Q = HasEntries} (extend_specification_with_definitions K) _
              extend_specification-Runs
              (λ ds.
                Runs-bind {Q = λ _. InWorld I} (generate_open_api K L ds) _ (generate-Runs ds) (λ d.
                  Runs-bind {Q = λ _. InWorld I} current (λ spec. store_specification K L spec d)
                    (Runs-current I (λ s p. p)) (λ spec. store_specification-Guards spec d))))

    patch_status-Guards : (spec : SwaggerSpecification) → Guards I C (patch_status K spec)
    unfolding patch_status
    patch_status-Guards spec =
        Runs-bind {Q = λ _. I} (K.specifications.get (key_of spec)) _
          (G.specifications.get (key_of spec)) (λ latest. G.specification_status spec latest)

    conclude-Ends :
        (x : Result (Unit {0}) × Run K.World SwaggerSpecification)
        → Ends (InWorld I) C (λ _. InWorld I) x
        → Ends I C (λ _. I) (conclude K x.0 x.1.object x.1.world)
    unfolding conclude
    conclude-Ends (ok u, s) p =
        (Runs-bind {Q = λ _. I} (patch_status K (reported K (ok u) s.world s.object))
            (λ _. lift (outcome (ok u))) (patch_status-Guards _)
            (λ _. Runs-lift (outcome (ok u)) tt (λ w p. p) (λ a w _ p. p))).at
          s.world p
    conclude-Ends (err e, s) p =
        (Runs-bind {Q = λ _. I} (patch_status K (reported K (err e) s.world s.object))
            (λ _. lift (outcome (err e))) (patch_status-Guards _)
            (λ _. Runs-lift (outcome (err e)) tt (λ w p. p) (λ a w _ p. p))).at
          _ (G.eventf _ s.world p)
    conclude-Ends (panic m, s) p = p

    attempt-Guards :
        (spec : SwaggerSpecification) → CalmServers spec → Guards I C (attempt K L spec)
    unfolding attempt
    attempt-Guards spec h = record {
      at = λ w p.
          conclude-Ends (reconcile K L (record { world = w; object = spec }))
            (reconcile-Runs.at (record { world = w; object = spec }) (p, h));
    }

    -- A request for a specification keeps what the calls keep, and panics only as they do, where the servers of
    -- each specification that is read can be looped over.
    pub reconcile_request-Guards :
        ((key : ObjectKey)
          → Runs I C I (λ spec w. I w × CalmServers spec) (K.specifications.get key))
        → (key : ObjectKey) → Guards I C (reconcile_request K L key)
    unfolding reconcile_request
    reconcile_request-Guards read key =
        Runs-handle (K.specifications.get key) _
          (λ e w. if e.is_not_found then (ok no_requeue, w) else (err e, w)) (read key)
          (λ spec. record {
            at = λ w p.
                (Runs-if_at spec.spec.suspend (pure no_requeue)
                    (within K (pos 3000000000) (attempt K L spec))
                    (λ _. Runs-pure no_requeue (λ w p. p))
                    (λ _.
                      within-Guards G (pos 3000000000) (attempt K L spec)
                        (attempt-Guards spec p.1))).at
                  w p.0;
          })
          (λ e.
            Runs-if_at e.is_not_found (pure no_requeue) (fail e)
              (λ _. Runs-pure no_requeue (λ w p. p)) (λ _. Runs-fail e (λ w p. p)))
