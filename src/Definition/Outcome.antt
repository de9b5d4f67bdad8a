-- ===== src/Definition/Outcome.antt =====
-- What a reconciliation of a definition leaves: the config map, the reported status, the requeue.
use swagger_hub_controller.Base.{
  String, Option, none, errorf, ◌<>◌, some, [], ◌∷◌, Error, Result, ok, err, panic, Action, Run,
  wrapping, if◌then◌else◌, ◌≡◌, refl, ap, subst, ap₂, sym, ◌∙◌, inl, inr, arith, Option-cases,
  Bool-cases, on_world-eq-ok, ◌>>◌, >>=-eq-ok, on_world, assign, wrapping-eq-ok,
}
use swagger_hub_controller.Kube.Meta.{key_of}
use swagger_hub_controller.Kube.Workload.{Bytes, ConfigMap, config_map_object}
use swagger_hub_controller.Kube.Client.{Client}
use swagger_hub_controller.Kube.Laws.{ConditionsLawful, ConfigMapsLawful, Holds, find_verdict}
use swagger_hub_controller.Api.Definition.{SwaggerDefinition, definition_object}
use swagger_hub_controller.Api.Conditions.{
  swagger_definition_ready, condition_true, condition_false, condition_ready,
}
use swagger_hub_controller.Shared.ConfigMaps.{store_config_map}
use swagger_hub_controller.Definition.Fetch.{HttpClient, fetch_definition}
use swagger_hub_controller.Definition.Reconcile.{
  definition_config_map, definition_map, store_definition, reconcile, reported,
}

module _ (K : Client) where
  store_config_map-Holds :
      ConfigMapsLawful K
      → (cm : ConfigMap) (w : K.World) {w' : K.World} → store_config_map K cm w ≡ (ok tt, w')
      → Holds K w' (key_of cm) cm.binary_data
  unfolding store_config_map
  store_config_map-Holds L cm w {w'} e = go (K.config_maps.get (key_of cm) w) e
    where
      go :
          (x : Result ConfigMap × K.World)
          → elim x.0 [
            | ok existing_spec ↦ K.config_maps.update cm x.1
            | err e ↦ if e.is_not_found then K.config_maps.create cm x.1 else (err e, x.1)
            | panic m ↦ (panic m, x.1)
          ]
            ≡ (ok tt, w')
          → Holds K w' (key_of cm) cm.binary_data
      go (ok old, v) e = L.get-update cm e
      go (err m, v) e = elim (Bool-cases m.is_not_found) [
        | inl t ↦ L.get-create cm (rw t at e)
        | inr f ↦ absurd (ground arith)
      ]
      go (panic m, v) e = absurd (ground arith)

  module _ (H : HttpClient K.World) (d : SwaggerDefinition) where
    -- What a successful run has done: fetched, stored, and set the condition.
    store_definition_ok :
        (w : K.World) {s : Run K.World SwaggerDefinition}
        → store_definition K H d (record { world = w; object = d }) ≡ (ok tt, s)
        → (b : Bytes) × (v : K.World) × (fetch_definition K H d w ≡ (ok b, v))
          × (store_config_map K (definition_map d b) v ≡ (ok tt, s.world))
          × (s.object
              ≡ swagger_definition_ready K condition_true "ReconciliationSuccessful"
                  ("configmap/" <> (definition_config_map d.metadata.name <> " created"))
                  s.world
                  d)
    unfolding store_definition
    store_definition_ok w {s} e =
        let (b, s₁, fetched, e₁) =
          >>=-eq-ok (on_world (wrapping "failed to fetch definition: " (fetch_definition K H d)))
            store_and_set _ e in
        let (f, same) =
          on_world-eq-ok (wrapping "failed to fetch definition: " (fetch_definition K H d)) _
            fetched in
        let (u, s₂, stored, e₂) =
          >>=-eq-ok (on_world (store_config_map K (definition_map d b))) (λ _. set_ready) s₁ e₁ in
        let (g, same') = on_world-eq-ok (store_config_map K (definition_map d b)) s₁ stored in
        let world₂ : s₂.world ≡ s.world =
          ap (λ (x : Result (Unit {0}) × Run K.World SwaggerDefinition). x.1.world) e₂ in
        let object₂ : ready s₂.world s₂.object ≡ s.object =
          ap (λ (x : Result (Unit {0}) × Run K.World SwaggerDefinition). x.1.object) e₂ in
        (
          b,
          s₁.world,
          wrapping-eq-ok "failed to fetch definition: " (fetch_definition K H d) w f,
          g ∙ ap (λ z. (ok tt, z)) world₂,
          sym object₂ ∙ ap₂ ready world₂ (same' ∙ same),
        )
      where
        ready : K.World → SwaggerDefinition → SwaggerDefinition
        ready =
            swagger_definition_ready K condition_true "ReconciliationSuccessful"
              ("configmap/" <> (definition_config_map d.metadata.name <> " created"))

        set_ready : Action (Run K.World SwaggerDefinition) (Unit {0})
        set_ready = assign ready

        store_and_set : Bytes → Action (Run K.World SwaggerDefinition) (Unit {0})
        store_and_set b = on_world (store_config_map K (definition_map d b)) >> set_ready

    -- Where a config map that was written can be read, a reconciliation without error leaves in
    -- the config map of the definition, under `definition.json`, the bytes that the fetch
    -- returned.
    pub reconcile_stores :
        ConfigMapsLawful K
        → (w : K.World) {s : Run K.World SwaggerDefinition}
        → reconcile K H (record { world = w; object = d }) ≡ (ok tt, s)
        → (b : Bytes) × (v : K.World) × (fetch_definition K H d w ≡ (ok b, v))
          × Holds K s.world
              (record {
                namespace = d.metadata.namespace;
                name = definition_config_map d.metadata.name;
              })
              (("definition.json", b) ∷ [])
    unfolding reconcile
    reconcile_stores L w {s} e = elim (Option-cases d.spec.url) [
      | inl n ↦ absurd (ground arith)
      | inr (u, eu) ↦
          let (b, v, fetched, stored, _) = store_definition_ok w {s = s} (ground arith) in
          (b, v, fetched, store_config_map-Holds L (definition_map d b) v stored)
    ]

    -- An error leaves the definition as it was.
    store_definition_err :
        (w : K.World) {m : Error} {s : Run K.World SwaggerDefinition}
        → store_definition K H d (record { world = w; object = d }) ≡ (err m, s)
        → s.object ≡ d
    unfolding store_definition
    store_definition_err w {m} {s} e =
        fetched (wrapping "failed to fetch definition: " (fetch_definition K H d) w) e
      where
        set_ready : Action (Run K.World SwaggerDefinition) (Unit {0})
        set_ready = assign (
            swagger_definition_ready K condition_true "ReconciliationSuccessful"
              ("configmap/" <> (definition_config_map d.metadata.name <> " created")))

        stored :
            (x : Result (Unit {0}) × K.World)
            → elim x.0 [
              | ok u ↦ set_ready (record { world = x.1; object = d })
              | err e ↦ (err e, record { world = x.1; object = d })
              | panic p ↦ (panic p, record { world = x.1; object = d })
            ]
              ≡ (err m, s)
            → s.object ≡ d
        stored (ok u, v) q = cc
        stored (err x, v) q =
            sym (ap (λ (y : Result (Unit {0}) × Run K.World SwaggerDefinition). y.1.object) q)
        stored (panic x, v) q = cc

        fetched :
            (x : Result Bytes × K.World)
            → elim x.0 [
              | ok b ↦
                  (on_world (store_config_map K (definition_map d b)) >> set_ready)
                    (record { world = x.1; object = d })
              | err e ↦ (err e, record { world = x.1; object = d })
              | panic p ↦ (panic p, record { world = x.1; object = d })
            ]
              ≡ (err m, s)
            → s.object ≡ d
        fetched (ok b, v) q = stored (store_config_map K (definition_map d b) v) q
        fetched (err x, v) q =
            sym (ap (λ (y : Result (Unit {0}) × Run K.World SwaggerDefinition). y.1.object) q)
        fetched (panic x, v) q = cc

    reconcile_err :
        (w : K.World) {m : Error} {s : Run K.World SwaggerDefinition}
        → reconcile K H (record { world = w; object = d }) ≡ (err m, s)
        → s.object ≡ d
    unfolding reconcile
    reconcile_err w {m} {s} e = go d.spec.url e
      where
        go :
            (o : Option String)
            → ◌≡◌ {A = Result (Unit {0}) × Run K.World SwaggerDefinition}
                (elim o [
                  | none ↦ (err (errorf "url is required"), record { world = w; object = d })
                  | some url ↦ store_definition K H d (record { world = w; object = d })
                ])
                (err m, s)
            → s.object ≡ d
        go none q =
            sym (ap (λ (y : Result (Unit {0}) × Run K.World SwaggerDefinition). y.1.object) q)
        go (some u) q = store_definition_err w q

    -- The status that is patched tells how the reconciliation has ended.
    abbrev pub Reports : Result (Unit {0}) → SwaggerDefinition → Type 0
    Reports (ok u) d' =
        (find_verdict condition_ready d'.status.conditions
          ≡ some (record {
            status = condition_true;
            reason = "ReconciliationSuccessful";
            message = "configmap/" <> (definition_config_map d.metadata.name <> " created");
            observed_generation = d.metadata.generation;
          }))
        × (d'.status.observed_generation ≡ d.metadata.generation)
    Reports (err e) d' =
        (find_verdict condition_ready d'.status.conditions
          ≡ some (record {
            status = condition_false;
            reason = "ReconciliationFailed";
            message = e.message;
            observed_generation = d.metadata.generation;
          }))
        × (d'.status.observed_generation ≡ d.metadata.generation)
    Reports (panic m) d' = Unit

    reported-Reports :
        ConditionsLawful K
        → (w : K.World) (x : Result (Unit {0}) × Run K.World SwaggerDefinition)
        → reconcile K H (record { world = w; object = d }) ≡ x
        → Reports x.0 (reported K x.0 x.1.world x.1.object)
    unfolding reconcile reported swagger_definition_ready
    reported-Reports L w (ok u, s) e = elim (Option-cases d.spec.url) [
      | inl n ↦ absurd (ground arith)
      | inr (u, eu) ↦
          let (b, v, fetched, stored, same) = store_definition_ok w {s = s} (ground arith) in
          rw same (L.find-set s.world d.status.conditions _ condition_ready, refl)
    ]
    reported-Reports L w (err m, s) e =
        subst (λ o. Reports (err m) (reported K (err m) s.world o)) (sym (reconcile_err w e))
          (L.find-set s.world d.status.conditions _ condition_ready, refl)
    reported-Reports L w (panic m, s) e = tt

    -- Where conditions behave as documented, the status that is patched tells the outcome, unless
    -- it is a panic: the condition `Ready` is `True` where the reconciliation returned no error,
    -- `False` with the text of the error where it returned one, and condition and status have the
    -- generation of the definition.
    pub reconcile-Reports :
        ConditionsLawful K
        → (w : K.World)
        → let (r, s) = reconcile K H (record { world = w; object = d }) in
          Reports r (reported K r s.world s.object)
    reconcile-Reports L w = reported-Reports L w _ refl
