-- ===== src/System/Foreign.antt =====
-- Services and deployments that no hub owns are left alone.
use swagger_hub_controller.Base.{
  String, List, Result, ok, err, panic, ◌≡◌, ◌==◌, ◌&&◌, Bool-cases, ◌⊎◌, inl, inr, eq_iff, refl,
  ap, ap₂, subst, sym, arith, ◌∙◌,
}
use swagger_hub_controller.Base.Lists.{All}
use swagger_hub_controller.Base.Runs.{Runs-consequence, Runs, Ends, IsCalm, Guards}
use swagger_hub_controller.Kube.Meta.{
  ObjectKey, TypeMeta, ObjectMeta, OwnerReference, Object, key_of,
}
use swagger_hub_controller.Kube.Workload.{
  Container, Service, Deployment, service_object, deployment_object,
}
use swagger_hub_controller.Kube.Client.{Client, Resource}
use swagger_hub_controller.Kube.Guards.{CallsGuard, Reads, Writes}
use swagger_hub_controller.Api.Hub.{SwaggerHub}
use swagger_hub_controller.Merge.{StrategicPatch}
use swagger_hub_controller.Merge.Calm.{PatchCalm}
use swagger_hub_controller.Definition.Fetch.{HttpClient}
use swagger_hub_controller.Definition.Guards.Fetch.{HttpGuards}
use swagger_hub_controller.Definition.Guards.{
  reconcile_request-Guards as reconcile_definition-Guards,
}
use swagger_hub_controller.Hub.Ownership.{create_or_update_with_ownership_validation}
use swagger_hub_controller.Hub.Owners.{create_or_update-foreign}
use swagger_hub_controller.Hub.Guards.{OwnedGuard, reconcile_request-Guards as reconcile_hub-Guards}
use swagger_hub_controller.Hub.Guards.Owned.{create_or_update-Guards}
use swagger_hub_controller.Specification.Generate.{open_api_servers}
use swagger_hub_controller.Specification.References.{as_text, as_object}
use swagger_hub_controller.Specification.OpenApi.{OpenApiLibrary, Loaded}
use swagger_hub_controller.Specification.Guards.{
  CalmServers, reconcile_request-Guards as reconcile_specification-Guards,
}
use swagger_hub_controller.Specification.Guards.Documents.{Asserts, LibraryCalm, IsCalmDocument}
use swagger_hub_controller.System.{
  Request, hub_request, definition_request, specification_request, serve, Reach, Reach-keeps,
}

abbrev pub Any : String → Type 0
Any m = Unit

-- None of the references names the hub with the type and the metadata.
abbrev pub AllForeign : List OwnerReference → TypeMeta → ObjectMeta → Type 0
AllForeign refs t m = All (λ r. (r.name ≡ m.name) × (r.uid ≡ m.uid) × (r.kind ≡ t.kind) → ⊥) refs

same_key : (a b : ObjectKey) → (a ≡ b) ⊎ (a ≡ b → ⊥)
same_key a b = elim (Bool-cases (a.namespace == b.namespace && a.name == b.name)) [
  | inl e ↦ inl (
      named ((eq_iff a.namespace b.namespace).0 (ground arith))
        ((eq_iff a.name b.name).0 (ground arith)))
  | inr e ↦ inr (λ q.
      let p = ap (λ k. k.namespace) q in
      let r = ap (λ k. k.name) q in
      let no : ⊥ = ground (arith, eq_iff a.namespace b.namespace, eq_iff a.name b.name) in no)
]
  where
    named : a.namespace ≡ b.namespace → a.name ≡ b.name → a ≡ b
    named e f = ap₂ (λ m n. record { namespace = m; name = n }) e f

module _ (K : Client) {A : Type 0} (R : Resource K.World K.Content A) ⦃o : Object A⦄
    (key : ObjectKey) (a : A) where
  -- The resource is at the key.
  abbrev pub Stays : K.World → Type 0
  Stays w = (R.get key w).0 ≡ ok a

  -- Resources at other keys.
  abbrev pub AtOther : A → Type 0
  AtOther b = key_of b ≡ key → ⊥

  module _ {I : K.World → Type 0} (stays : (w : K.World) → I w → Stays w) where
    stays-Guards :
        (hub : SwaggerHub) (b : A)
        → Reads I Any R
        → Writes I Any AtOther R
        → ((t : TypeMeta) (b : A) → key_of (o.with_type t b) ≡ key_of b)
        → AllForeign (o.meta_of a).owner_references hub.type_meta hub.metadata
        → Guards I Any (create_or_update_with_ownership_validation K R hub b)
    stays-Guards hub b reads writes keyed foreign = elim (same_key (key_of b) key) [
      | inl e ↦ refused e
      | inr e ↦
          create_or_update-Guards K R reads writes (λ t c h q. h (sym (keyed t c) ∙ q)) hub b e
    ]
      where
        ended : (x : Result A × K.World) → Ends I Any (λ _. I) x → I x.1
        ended (ok c, w) p = p
        ended (err c, w) p = p
        ended (panic m, w) p = p.1

        refused :
            key_of b ≡ key → Guards I Any (create_or_update_with_ownership_validation K R hub b)
        refused e = record {
          at = λ w p.
              let read : R.get (key_of b) w ≡ (ok a, (R.get key w).1) =
                ap (λ k. R.get k w) e ∙ ap (λ r. (r, (R.get key w).1)) (stays w p) in
              subst (Ends I Any (λ _. I))
                (sym (create_or_update-foreign K R hub b a w (R.get key w).1 read foreign))
                (ended (R.get key w) ((reads.get key).at w p));
        }

IsCalm-Any : {A : Type 0} (r : Result A) → IsCalm Any r
IsCalm-Any (ok a) = tt
IsCalm-Any (err e) = tt
IsCalm-Any (panic m) = tt

IsCalmDocument-Any : (r : Result Loaded) → IsCalmDocument Any r
IsCalmDocument-Any (ok s) = IsCalm-Any s.base_path
IsCalmDocument-Any (err e) = tt
IsCalmDocument-Any (panic m) = tt

module _ (K : Client) (H : HttpClient K.World) (P : StrategicPatch Container) (L : OpenApiLibrary)
    (image : String) {I : K.World → Type 0} {Held : TypeMeta → ObjectMeta → Type 0}
    (G : CallsGuard K I Any) (G' : HttpGuards I Any H) (O : OwnedGuard K I Any Held) where
  serve-Guards : (r : Request) → Guards I Any (serve K H P L image r)
  unfolding serve
  serve-Guards (hub_request key) = reconcile_hub-Guards G O patches image key
    where
      patches : PatchCalm Any P
      patches = record {
        marshal = λ a. IsCalm-Any (P.marshal a);
        strategic_merge_patch = λ b p. IsCalm-Any (P.strategic_merge_patch b p);
        unmarshal = λ b. IsCalm-Any (P.unmarshal b);
      }
  serve-Guards (definition_request key) = reconcile_definition-Guards G G' key
  serve-Guards (specification_request key) =
      reconcile_specification-Guards G assertions library read key
    where
      assertions : Asserts Any
      assertions = record {
        text = λ j. IsCalm-Any (as_text j);
        fields = λ j. IsCalm-Any (as_object j);
      }

      read : (k : ObjectKey) → Runs I Any I (λ s w. I w × CalmServers G s) (K.specifications.get k)
      read k =
          Runs-consequence (K.specifications.get k) (λ w p. p)
            (λ s w p. (p, IsCalm-Any (open_api_servers s.spec.servers))) (G.specifications.get k)

      library : LibraryCalm Any L
      library = record {
        unmarshal = λ b. IsCalm-Any (L.unmarshal b);
        marshal = λ fs. IsCalm-Any (L.marshal fs);
        load_from_data = λ b. IsCalmDocument-Any (L.load_from_data b);
        marshal_json = λ d. IsCalm-Any (L.marshal_json d);
      }

-- The resource is at the key, and the cluster has a further property, on which the assumptions on the
-- hubs may rest.
module _ (K : Client) {A : Type 0} (R : Resource K.World K.Content A) ⦃o : Object A⦄
    (key : ObjectKey) (a : A) (Also : K.World → Type 0) where
  abbrev pub Kept : K.World → Type 0
  Kept w = Stays K R key a w × Also w

  -- Both are kept by the calls that do not write at the key, and by the other programs, and no hub that is
  -- read meanwhile owns the resource.
  pub record Spares (H : HttpClient K.World) (Other : K.World → K.World → Type 0) : Type 0 where
    pub calls : CallsGuard K Kept Any
    pub http : HttpGuards Kept Any H
    pub writes : Writes Kept Any (AtOther K R key a) R
    pub hub :
        (k : ObjectKey)
        → Runs Kept Any Kept
            (λ h w. Kept w × AllForeign (o.meta_of a).owner_references h.type_meta h.metadata)
            (K.hubs.get k)
    pub others : (w w' : K.World) → Other w w' → Kept w → Kept w'

module _ (K : Client) (H : HttpClient K.World) (P : StrategicPatch Container) (L : OpenApiLibrary)
    (image : String) {Other : K.World → K.World → Type 0} {Also : K.World → Type 0} where
  -- A service that is there and whose owner references name no hub stays as it is, whatever
  -- requests are served for hubs, definitions and specifications, in any order, and with other
  -- programs in between. This holds where the calls of the client and the other programs keep the
  -- service and a further property of the cluster, the client changes at most the service that it
  -- is asked to write, and no hub that is read while both hold is an owner of the service.
  pub Reach-service :
      (key : ObjectKey) (s : Service)
      → Spares K K.services key s Also H Other
      → Writes (Kept K K.services key s Also) Any (λ (_ : Deployment). Unit) K.deployments
      → {w v : K.World} → Reach K H P L image Other w v
      → (K.services.get key w).0 ≡ ok s
      → Also w
      → (K.services.get key v).0 ≡ ok s
  Reach-service key s spares deployments reach stays also =
      (Reach-keeps K H P L image (serve-Guards K H P L image spares.calls spares.http owned)
        spares.others reach (stays, also)).0
    where
      owned :
          OwnedGuard K (Kept K K.services key s Also) Any (AllForeign s.metadata.owner_references)
      owned = record {
        hub = spares.hub;
        service = λ hub b.
            stays-Guards K K.services key s (λ w p. p.0) hub b spares.calls.services spares.writes
              (λ t b. refl);
        deployment = λ hub d _.
            create_or_update-Guards K K.deployments spares.calls.deployments deployments
              (λ t a _. tt) hub d tt;
      }

  -- A deployment that is there and whose owner references name no hub stays as it is, whatever
  -- requests are served for hubs, definitions and specifications, in any order, and with other
  -- programs in between. This holds where the calls of the client and the other programs keep the
  -- deployment and a further property of the cluster, the client changes at most the deployment
  -- that it is asked to write, and no hub that is read while both hold is an owner of the
  -- deployment.
  pub Reach-deployment :
      (key : ObjectKey) (d : Deployment)
      → Spares K K.deployments key d Also H Other
      → Writes (Kept K K.deployments key d Also) Any (λ (_ : Service). Unit) K.services
      → {w v : K.World} → Reach K H P L image Other w v
      → (K.deployments.get key w).0 ≡ ok d
      → Also w
      → (K.deployments.get key v).0 ≡ ok d
  Reach-deployment key d spares services reach stays also =
      (Reach-keeps K H P L image (serve-Guards K H P L image spares.calls spares.http owned)
        spares.others reach (stays, also)).0
    where
      owned :
          OwnedGuard K
            (Kept K K.deployments key d Also)
            Any
            (AllForeign d.metadata.owner_references)
      owned = record {
        hub = spares.hub;
        service = λ hub s _.
            create_or_update-Guards K K.services spares.calls.services services (λ t a _. tt) hub s
              tt;
        deployment = λ hub b.
            stays-Guards K K.deployments key d (λ w p. p.0) hub b spares.calls.deployments
              spares.writes (λ t b. refl);
      }
