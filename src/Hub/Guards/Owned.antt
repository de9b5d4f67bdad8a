-- ===== src/Hub/Guards/Owned.antt =====
-- Creating and updating services and deployments keeps a property where the client's writes do.
use swagger_hub_controller.Base.{
  String, true, ◌<>◌, Option, none, some, Error, errorf, fail, lift, wrapping, ok, ◌≡◌,
}
use swagger_hub_controller.Base.Runs.{
  Guards, Runs-bind, Runs-lift, Runs-fail, Runs-wrapping, Runs-if,
}
use swagger_hub_controller.Kube.Meta.{TypeMeta, Object, key_of}
use swagger_hub_controller.Kube.Client.{Client, Resource}
use swagger_hub_controller.Kube.Guards.{Reads, Writes}
use swagger_hub_controller.Api.Hub.{SwaggerHub}
use swagger_hub_controller.Shared.Lookup.{find}
use swagger_hub_controller.Shared.Guards.{find-Guards}
use swagger_hub_controller.Hub.Ownership.{
  is_owner, apply_owned, apply_found, create_or_update_with_ownership_validation,
}

module _ (K : Client) {A : Type 0} (R : Resource K.World K.Content A) ⦃o : Object A⦄
    {I : K.World → Type 0} {C : String → Type 0} {Allowed : A → Type 0} (reads : Reads I C R)
    (writes : Writes I C Allowed R)
    (closed : (t : TypeMeta) (a : A) → Allowed a → Allowed (o.with_type t a)) where
  apply_owned-Guards : (obj existing : A) → Allowed obj → Guards I C (apply_owned K R obj existing)
  unfolding apply_owned
  apply_owned-Guards obj existing allowed =
      let typed = o.with_type (o.type_of existing) obj in
      Runs-bind {Q = λ d w. I w × (R.to_unstructured typed ≡ ok d)}
        (wrapping _ (lift (R.to_unstructured typed))) _
        (Runs-wrapping _ (lift (R.to_unstructured typed)) (
          Runs-lift (R.to_unstructured typed) (writes.to_unstructured typed) (λ w p. p)
            (λ d w e p. (p, e))))
        (λ d. record {
          at = λ w p.
              (Runs-wrapping _ (R.apply d "swagger-hub-controller" true) (
                  writes.apply typed d "swagger-hub-controller" true
                    (closed (o.type_of existing) obj allowed) p.1)).at
                w p.0;
        })

  pub create_or_update-Guards :
      (hub : SwaggerHub) (obj : A)
      → Allowed obj
      → Guards I C (create_or_update_with_ownership_validation K R hub obj)
  unfolding create_or_update_with_ownership_validation apply_found
  create_or_update-Guards hub obj allowed =
      Runs-bind {Q = λ _. I} (find R (key_of obj)) (apply_found K R hub obj)
        (find-Guards R (key_of obj) (reads.get (key_of obj))) found
    where
      refused : Error
      refused = errorf ("can not take ownership of existing resource: " <> (o.meta_of obj).name)

      found : (x : Option A) → Guards I C (apply_found K R hub obj x)
      found none = writes.create obj allowed
      found (some existing) =
          Runs-if (is_owner hub (o.meta_of existing).owner_references)
            (apply_owned K R obj existing) (fail refused)
            (λ _. apply_owned-Guards obj existing allowed) (λ _. Runs-fail refused (λ w p. p))
