-- ===== src/Definition/Guards.antt =====
-- The definition controller keeps what the calls of the client and of the HTTP client keep, and
-- panics only as they do.
pub mod Fetch
use swagger_hub_controller.Base.{
  String, ◌<>◌, Option, none, some, Result, ok, err, panic, errorf, Run, pure, fail, lift, wrapping,
  on_world, if◌then◌else◌, ◌≡◌, refl,
}
use swagger_hub_controller.Base.Runs.{
  Ends, Guards, IsCalm, InWorld, Runs-handle, Runs-if, Runs-if_at, Runs-pure, Runs-fail, Runs-lift,
  Runs-bind, Runs-wrapping, Runs-on_world, Runs-assign,
}
use swagger_hub_controller.Kube.Meta.{ObjectKey, key_of}
use swagger_hub_controller.Kube.Client.{Client}
use swagger_hub_controller.Kube.Guards.{CallsGuard}
use swagger_hub_controller.Api.Definition.{SwaggerDefinition, definition_object}
use swagger_hub_controller.Api.Conditions.{swagger_definition_ready, condition_true}
use swagger_hub_controller.Shared.Outcome.{no_requeue, outcome, is_positive, within}
use swagger_hub_controller.Shared.ConfigMaps.{store_config_map}
use swagger_hub_controller.Shared.Guards.{store_config_map-Guards, within-Guards}
use swagger_hub_controller.Definition.Fetch.{HttpClient, fetch_url, fetch_definition}
use swagger_hub_controller.Definition.Reconcile.{
  definition_config_map, definition_map, patch_status, reported, finish, conclude, store_definition,
  reconcile, attempt, reconcile_request,
}
use swagger_hub_controller.Definition.Guards.Fetch.{HttpGuards, fetch_url-Guards}

module _ {K : Client} {I : K.World → Type 0} {C : String → Type 0} (G : CallsGuard K I C) where
  module _ {H : HttpClient K.World} (G' : HttpGuards I C H) where
    store_definition-Guards :
        (d : SwaggerDefinition) (u : String)
        → d.spec.url ≡ some u
        → Guards (InWorld I) C (store_definition K H d)
    unfolding store_definition fetch_definition
    store_definition-Guards d u e =
        Runs-bind {Q = λ _. InWorld I} (on_world (wrapping _ (fetch_definition K H d))) _
          (Runs-on_world I _ (λ _. Runs-wrapping _ (fetch_definition K H d) (fetched d.spec.url e)))
          (λ b.
            Runs-bind {Q = λ _. InWorld I} (on_world (store_config_map K (definition_map d b))) _
              (Runs-on_world I _ (λ _. store_config_map-Guards G (definition_map d b)))
              (λ _. Runs-assign I ready (λ s p. p)))
      where
        ready : K.World → SwaggerDefinition → SwaggerDefinition
        ready =
            swagger_definition_ready K condition_true "ReconciliationSuccessful"
              ("configmap/" <> (definition_config_map d.metadata.name <> " created"))

        fetched :
            (url : Option String)
            → url ≡ some u
            → Guards I C (elim url [
              | none ↦ λ w. (panic "invalid memory address or nil pointer dereference", w)
              | some url ↦ fetch_url K H d url
            ])
        fetched none e = cc
        fetched (some url) e = fetch_url-Guards G G' d url

    pub reconcile-Guards : Guards (InWorld I) C (reconcile K H)
    unfolding reconcile
    reconcile-Guards = record { at = λ s p. go s s.object.spec.url refl p }
      where
        go :
            (s : Run K.World SwaggerDefinition) (url : Option String)
            → s.object.spec.url ≡ url
            → I s.world
            → Ends {W = Run K.World SwaggerDefinition} {A = Unit {0}}
                (InWorld I)
                C
                (λ _. InWorld I)
                (elim url [
                  | none ↦ (err (errorf "url is required"), s)
                  | some url ↦ store_definition K H s.object s
                ])
        go s none e p = p
        go s (some u) e p = (store_definition-Guards s.object u e).at s p

    patch_status-Guards : (d : SwaggerDefinition) → Guards I C (patch_status K d)
    unfolding patch_status
    patch_status-Guards d =
        Runs-bind {Q = λ _. I} (K.definitions.get (key_of d)) _ (G.definitions.get (key_of d))
          (λ latest. G.definition_status d latest)

    outcome-IsCalm : (r : Result (Unit {0})) → IsCalm C r → IsCalm C (outcome r)
    outcome-IsCalm (ok u) h = tt
    outcome-IsCalm (err e) h = tt
    outcome-IsCalm (panic m) h = h

    finish-Guards :
        (r : Result (Unit {0})) (d : SwaggerDefinition) → IsCalm C r → Guards I C (finish K r d)
    unfolding finish
    finish-Guards r d h = Runs-bind {Q = λ _. I} (patch_status K d) _ (patch_status-Guards d) (λ d'.
        Runs-if (is_positive d'.spec.interval) (pure (record { requeue_after = d'.spec.interval }))
          (lift (outcome r)) (λ _. Runs-pure _ (λ w p. p))
          (λ _. Runs-lift (outcome r) (outcome-IsCalm r h) (λ w p. p) (λ a w _ p. p)))

    attempt-Guards : (d : SwaggerDefinition) → Guards I C (attempt K H d)
    unfolding attempt conclude
    attempt-Guards d = record {
      at = λ w p. go (reconcile K H (record { world = w; object = d })) (reconcile-Guards.at _ p);
    }
      where
        go :
            (x : Result (Unit {0}) × Run K.World SwaggerDefinition)
            → Ends (InWorld I) C (λ _. InWorld I) x
            → Ends I C (λ _. I) (conclude K x.0 x.1.object x.1.world)
        go (ok u, s) p = (finish-Guards (ok u) (reported K (ok u) s.world s.object) tt).at s.world p
        go (err e, s) p =
            (finish-Guards (err e) (reported K (err e) s.world s.object) tt).at _
              (G.eventf _ s.world p)
        go (panic m, s) p = p

    -- A request for a definition keeps what the calls keep, and panics only as they do.
    pub reconcile_request-Guards : (key : ObjectKey) → Guards I C (reconcile_request K H key)
    unfolding reconcile_request
    reconcile_request-Guards key =
        Runs-handle (K.definitions.get key) _
          (λ e w. if e.is_not_found then (ok no_requeue, w) else (err e, w)) (G.definitions.get key)
          (λ d.
            Runs-if_at d.spec.suspend (pure no_requeue)
              (λ w.
                if is_positive d.spec.timeout
                then within K d.spec.timeout (attempt K H d) w
                else attempt K H d w)
              (λ _. Runs-pure no_requeue (λ w p. p))
              (λ _.
                Runs-if_at (is_positive d.spec.timeout) (within K d.spec.timeout (attempt K H d))
                  (attempt K H d)
                  (λ _. within-Guards G d.spec.timeout (attempt K H d) (attempt-Guards d))
                  (λ _. attempt-Guards d)))
          (λ e.
            Runs-if_at e.is_not_found (pure no_requeue) (fail e)
              (λ _. Runs-pure no_requeue (λ w p. p)) (λ _. Runs-fail e (λ w p. p)))
