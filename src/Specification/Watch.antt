-- ===== src/Specification/Watch.antt =====
-- Which specifications are asked to reconcile when a definition changes.
use swagger_hub_controller.Base.{
  List, [], ◌∷◌, ◌++◌, and_then, Result, ok, err, panic, ◌≡◌, refl, subst, some, none, Bool, true,
  false, if◌then◌else◌, return-injective,
}
use swagger_hub_controller.Base.Lists.{All, All-append}
use swagger_hub_controller.Kube.Meta.{ObjectKey, ObjectMeta, Selector, entries}
use swagger_hub_controller.Kube.Client.{Client}
use swagger_hub_controller.Api.Specification.{SwaggerSpecification}
use swagger_hub_controller.Specification.Reconcile.{
  request_of, requests_for_specifications, requests_for_change_by_selector,
}

-- A request for a resource of the changed definition's namespace.
abbrev pub IsLocal : ObjectMeta → ObjectKey → Type 0
IsLocal o k = k.namespace ≡ o.namespace

-- Requests that are returned are for resources of that namespace.
abbrev AllLocal : ObjectMeta → Result (List ObjectKey) → Type 0
AllLocal o (ok reqs) = All (IsLocal o) reqs
AllLocal o (err e) = Unit
AllLocal o (panic m) = Unit

request_of-IsLocal :
    (s : SwaggerSpecification) (o : ObjectMeta) (r : Result Selector)
    → s.metadata.namespace ≡ o.namespace
    → AllLocal o (request_of s o r)
unfolding request_of
request_of-IsLocal s o (ok label_sel) h = go (label_sel (entries o.labels))
  where
    go :
        (b : Bool)
        → All (IsLocal o) (
            if b
            then record { namespace = s.metadata.namespace; name = s.metadata.name } ∷ []
            else [])
    go true = (h, tt)
    go false = tt
request_of-IsLocal s o (err e) h = tt
request_of-IsLocal s o (panic m) h = tt

append-AllLocal :
    (o : ObjectMeta) (r r' : Result (List ObjectKey))
    → AllLocal o r
    → AllLocal o r'
    → AllLocal o (and_then r λ req. and_then r' λ reqs. ok (req ++ reqs))
append-AllLocal o (ok req) (ok reqs) h k = All-append (IsLocal o) req reqs h k
append-AllLocal o (ok req) (err e) h k = tt
append-AllLocal o (ok req) (panic m) h k = tt
append-AllLocal o (err e) r' h k = tt
append-AllLocal o (panic m) r' h k = tt

module _ (K : Client) (o : ObjectMeta) where
  -- `client.InNamespace` restricts a list to the namespace.
  abbrev pub ListsNamespace : Type 0
  ListsNamespace =
      (w w' : K.World) (l : List SwaggerSpecification)
      → K.specifications.list (record { in_namespace = some o.namespace; matching_labels = none }) w
        ≡ (ok l, w')
      → All (λ s. s.metadata.namespace ≡ o.namespace) l

  requests_for_specifications-IsLocal :
      (l : List SwaggerSpecification)
      → All (λ s. s.metadata.namespace ≡ o.namespace) l
      → AllLocal o (requests_for_specifications K o l)
  unfolding requests_for_specifications
  requests_for_specifications-IsLocal [] h = tt
  requests_for_specifications-IsLocal (s ∷ l) h =
      append-AllLocal o _ _
        (request_of-IsLocal s o (K.label_selector_as_selector s.spec.definition_selector) h.0)
        (requests_for_specifications-IsLocal l h.1)

  -- Where a list in a namespace gives only resources of that namespace, a changed definition asks
  -- only specifications of its own namespace to reconcile.
  pub requests_for_change_by_selector-IsLocal :
      ListsNamespace
      → (w : K.World) {reqs : List ObjectKey} {w' : K.World}
      → requests_for_change_by_selector K o w ≡ (ok reqs, w')
      → All (IsLocal o) reqs
  unfolding requests_for_change_by_selector
  requests_for_change_by_selector-IsLocal law w {reqs} {w'} e =
      go
        (K.specifications.list (record { in_namespace = some o.namespace; matching_labels = none })
          w)
        refl e
    where
      go :
          (x : Result (List SwaggerSpecification) × K.World)
          → K.specifications.list
              (record { in_namespace = some o.namespace; matching_labels = none })
              w
            ≡ x
          → ◌≡◌ {A = Result (List ObjectKey) × K.World}
              (elim x.0 [
                | ok specifications ↦ (requests_for_specifications K o specifications, x.1)
                | err e ↦ (ok [], x.1)
                | panic m ↦ (panic m, x.1)
              ])
              (ok reqs, w')
          → All (IsLocal o) reqs
      go (ok l, v) p e =
          subst (λ (x : Result (List ObjectKey) × K.World). AllLocal o x.0) e
            (requests_for_specifications-IsLocal l (law w v l p))
      go (err m, v) p e = subst (All (IsLocal o)) (return-injective e) tt
      go (panic m, v) p e = cc
