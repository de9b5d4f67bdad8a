-- ===== src/Hub/Ownership.antt =====
-- `isOwner` and `createOrUpdateWithOwnershipValidation`.
use swagger_hub_controller.Base.{
  ◌<>◌, Bool, true, false, ◌&&◌, ◌||◌, Option, none, some, List, [], ◌∷◌, errorf, Action, fail,
  lift, wrapping, ◌>>=◌, if◌then◌else◌, ◌==◌,
}
use swagger_hub_controller.Kube.Meta.{OwnerReference, Object, key_of}
use swagger_hub_controller.Kube.Client.{Client, Resource}
use swagger_hub_controller.Api.Hub.{SwaggerHub}
use swagger_hub_controller.Shared.Lookup.{find}

-- The loop of `isOwner` over the owner references.
unfoldable pub is_owner : SwaggerHub → List OwnerReference → Bool
is_owner owner [] = false
is_owner owner (owner_ref ∷ refs) =
    (owner_ref.name == owner.metadata.name
      && owner_ref.uid == owner.metadata.uid
      && owner_ref.kind == owner.type_meta.kind)
    || is_owner owner refs

module _ (K : Client) {A : Type 0} (R : Resource K.World K.Content A) ⦃o : Object A⦄ where
  -- The update of an object that the hub owns.
  unfoldable pub apply_owned : A → A → Action K.World (Unit {0})
  apply_owned obj existing = do
    content ←
        wrapping "can not convert resource to unstructured: "
          (lift (R.to_unstructured (o.with_type (o.type_of existing) obj)))
    wrapping "can not apply resource: " (R.apply content "swagger-hub-controller" true)

  -- What follows the `Get`.
  unfoldable pub apply_found : SwaggerHub → A → Option A → Action K.World (Unit {0})
  unfolding is_owner apply_owned
  apply_found owner obj none = R.create obj
  apply_found owner obj (some existing) =
      if is_owner owner (o.meta_of existing).owner_references
      then apply_owned obj existing
      else fail (errorf ("can not take ownership of existing resource: " <> (o.meta_of obj).name))

  unfoldable pub create_or_update_with_ownership_validation :
      SwaggerHub → A → Action K.World (Unit {0})
  unfolding find apply_found
  create_or_update_with_ownership_validation owner obj =
      find R (key_of obj) >>= apply_found owner obj
