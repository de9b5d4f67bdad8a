-- ===== src/System.antt =====
-- The three controllers on one cluster (`main.go`, where they are added to the manager): requests for
-- hubs, definitions and specifications, and what other programs do in between.
pub mod Panics
pub mod Foreign
pub mod Documents
use swagger_hub_controller.Base.{String, Action, Result, ok, err, panic, ◌≡◌, subst}
use swagger_hub_controller.Base.Runs.{Guards, Ends}
use swagger_hub_controller.Kube.Meta.{ObjectKey}
use swagger_hub_controller.Kube.Workload.{Container}
use swagger_hub_controller.Kube.Client.{Client}
use swagger_hub_controller.Merge.{StrategicPatch}
use swagger_hub_controller.Shared.Outcome.{CtrlResult}
use swagger_hub_controller.Definition.Fetch.{HttpClient}
use swagger_hub_controller.Specification.OpenApi.{OpenApiLibrary}
use swagger_hub_controller.Hub.Reconcile.{reconcile_request as reconcile_hub}
use swagger_hub_controller.Definition.Reconcile.{reconcile_request as reconcile_definition}
use swagger_hub_controller.Specification.Reconcile.{reconcile_request as reconcile_specification}

-- A request, with the controller that it is for.
pub data Request : Type 0 where
  hub_request : ObjectKey → Request
  definition_request : ObjectKey → Request
  specification_request : ObjectKey → Request

module _ (K : Client) (H : HttpClient K.World) (P : StrategicPatch Container) (L : OpenApiLibrary)
    (image : String) where
  -- `Reconcile` of the controller that the request is for.
  unfoldable pub serve : Request → Action K.World CtrlResult
  serve (hub_request key) = reconcile_hub K P image key
  serve (definition_request key) = reconcile_definition K H key
  serve (specification_request key) = reconcile_specification K L key

  -- A step of the cluster: a request is served, or another program acts.
  pub data Step (Elsewhere : K.World → K.World → Type 0) (w : K.World) : K.World → Type 0 where
    serves : (r : Request) {w' : K.World} → (serve r w).1 ≡ w' → Step Elsewhere w w'
    elsewhere : {w' : K.World} → Elsewhere w w' → Step Elsewhere w w'

  pub data Reach (Elsewhere : K.World → K.World → Type 0) (w : K.World) : K.World → Type 0 where
    start : Reach Elsewhere w w
    later : {v v' : K.World} → Reach Elsewhere w v → Step Elsewhere v v' → Reach Elsewhere w v'

  -- What every request keeps, and every other program, holds in each cluster that is reached.
  pub Reach-keeps :
      {I : K.World → Type 0} {C : String → Type 0} {Elsewhere : K.World → K.World → Type 0}
      {w v : K.World}
      → ((r : Request) → Guards I C (serve r))
      → ((u u' : K.World) → Elsewhere u u' → I u → I u')
      → Reach Elsewhere w v
      → I w
      → I v
  Reach-keeps kept other start p = p
  Reach-keeps {I} {C} kept other (later {v = v} {v' = v'} reach (elsewhere e)) p =
      other v v' e (Reach-keeps kept other reach p)
  Reach-keeps {I} {C} kept other (later {v = v} reach (serves r e)) p =
      subst I e (ended (serve r v) ((kept r).at v (Reach-keeps kept other reach p)))
    where
      ended : (x : Result CtrlResult × K.World) → Ends I C (λ _. I) x → I x.1
      ended (ok a, u) p = p
      ended (err a, u) p = p
      ended (panic m, u) p = p.1
