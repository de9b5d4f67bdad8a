-- ===== src/Hub/Owners.antt =====
-- The hub controller writes no resource that another owner holds.
use swagger_hub_controller.Base.{
  ◌<>◌, false, List, [], ◌∷◌, none, some, ok, err, panic, errorf, ◌≡◌, refl, ap, ◌∙◌, >>=-ok,
  Result, arith, eq_iff, if◌then◌else◌,
}
use swagger_hub_controller.Base.Lists.{All}
use swagger_hub_controller.Kube.Meta.{OwnerReference, ObjectKey, Object, key_of}
use swagger_hub_controller.Kube.Client.{Client, Resource}
use swagger_hub_controller.Api.Hub.{SwaggerHub}
use swagger_hub_controller.Shared.Lookup.{find}
use swagger_hub_controller.Hub.Ownership.{
  is_owner, apply_found, create_or_update_with_ownership_validation,
}

-- The reference names another owner than the hub: another name, uid or kind.
abbrev pub IsForeign : SwaggerHub → OwnerReference → Type 0
IsForeign hub r =
    (r.name ≡ hub.metadata.name) × (r.uid ≡ hub.metadata.uid) × (r.kind ≡ hub.type_meta.kind) → ⊥

pub is_owner_foreign :
    (hub : SwaggerHub) (refs : List OwnerReference)
    → All (IsForeign hub) refs
    → is_owner hub refs ≡ false
unfolding is_owner
is_owner_foreign hub [] h = refl
is_owner_foreign hub (r ∷ refs) h = ground (
  arith,
  is_owner_foreign hub refs h.1,
  eq_iff r.name hub.metadata.name,
  eq_iff r.uid hub.metadata.uid,
  eq_iff r.kind hub.type_meta.kind,
)

find-some :
    {W C A : Type 0} (R : Resource W C A) (key : ObjectKey) (w w' : W) (a : A)
    → R.get key w ≡ (ok a, w')
    → find R key w ≡ (ok (some a), w')
unfolding find
find-some {W} {C} {A} R key w w' a e =
    ap
      (λ (x : Result A × W). (elim x.0 [
        | ok a ↦ (ok (some a), x.1)
        | err e ↦ if e.is_not_found then (ok none, x.1) else (err e, x.1)
        | panic m ↦ (panic m, x.1)
      ]))
      e

module _ (K : Client) {A : Type 0} (R : Resource K.World K.Content A) ⦃o : Object A⦄ where
  -- Where a resource of the name can be read and none of its owner references has the name, the
  -- uid and the kind of the hub, the call fails, and nothing is called but the read.
  pub create_or_update-foreign :
      (hub : SwaggerHub) (obj existing : A) (w w' : K.World)
      → R.get (key_of obj) w ≡ (ok existing, w')
      → All (IsForeign hub) (o.meta_of existing).owner_references
      → create_or_update_with_ownership_validation K R hub obj w ≡ (
        err (errorf ("can not take ownership of existing resource: " <> (o.meta_of obj).name)),
        w',
      )
  unfolding create_or_update_with_ownership_validation apply_found
  create_or_update-foreign hub obj existing w w' e h =
      >>=-ok (find R (key_of obj)) (apply_found K R hub obj) w
        (find-some R (key_of obj) w w' existing e)
      ∙ rw (is_owner_foreign hub (o.meta_of existing).owner_references h) refl
