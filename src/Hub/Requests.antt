-- ===== src/Hub/Requests.antt =====
-- Which hubs are asked to reconcile.
use swagger_hub_controller.Base.{
  String, Option, none, List, [], ◌∷◌, ◌++◌, Result, ok, err, panic, lift, ◌>>=◌, ◌≡◌, refl, sym,
  ap, Bool, true, false, ◌&&◌, ◌∙◌, append_assoc, append-nil, if◌then◌else◌, Error,
}
use swagger_hub_controller.Base.Runs.{IsCalm}
use swagger_hub_controller.Base.Dict.{Dict}
use swagger_hub_controller.Base.Lists.{contains, All}
use swagger_hub_controller.Kube.Meta.{
  ObjectKey, ObjectMeta, LabelSelector, Selector, key_of, entries,
}
use swagger_hub_controller.Kube.Client.{Client}
use swagger_hub_controller.Api.Hub.{SwaggerHub, hub_object}
use swagger_hub_controller.Shared.Lookup.{select_namespaces}
use swagger_hub_controller.Hub.Watch.{
  request_of, request_in, requests_for_hubs, requests_for_change,
}

-- A selector that is valid matches the labels.
abbrev pub matches : Result Selector → Dict String → Bool
matches (ok label_sel) labels = label_sel labels
matches (err e) labels = false
matches (panic m) labels = false

module _ (K : Client) (selector_of : SwaggerHub → Option LabelSelector) (o : ObjectMeta)
    (w : K.World) where
  -- The hub's namespaces can be read, reading them leaves the cluster as it is, and making its
  -- selector does not panic.
  abbrev pub Selects : (SwaggerHub → List String) → SwaggerHub → Type 0
  Selects namespaces_of hub =
      (select_namespaces K hub.metadata.namespace hub.spec.namespace_selector w
        ≡ (ok (namespaces_of hub), w))
      × IsCalm (λ _. ⊥) (K.label_selector_as_selector (selector_of hub))

  -- The hub selects the object: one of its namespaces is the object's, and its selector is valid and matches
  -- the object's labels.
  abbrev pub is_watching : (SwaggerHub → List String) → SwaggerHub → Bool
  is_watching namespaces_of hub =
      contains o.namespace (namespaces_of hub)
      && matches (K.label_selector_as_selector (selector_of hub)) (entries o.labels)

  abbrev pub watched : (SwaggerHub → List String) → SwaggerHub → List ObjectKey
  watched namespaces_of hub = if is_watching namespaces_of hub then key_of hub ∷ [] else []

  -- The keys of the hubs that select the object, in the order of the hubs.
  abbrev pub watching : (SwaggerHub → List String) → List SwaggerHub → List ObjectKey
  watching namespaces_of [] = []
  watching namespaces_of (hub ∷ hubs) = watched namespaces_of hub ++ watching namespaces_of hubs

  requests_for_hubs-step :
      (reqs : List ObjectKey) (hub : SwaggerHub) (hubs : List SwaggerHub) {r : Result (List String)}
      → select_namespaces K hub.metadata.namespace hub.spec.namespace_selector w ≡ (r, w)
      → requests_for_hubs K selector_of o reqs (hub ∷ hubs) w ≡ (elim r [
        | ok namespaces ↦
            (lift (request_in namespaces hub o (K.label_selector_as_selector (selector_of hub)))
                >>= λ req. requests_for_hubs K selector_of o (reqs ++ req) hubs)
              w
        | err e ↦ (ok [], w)
        | panic m ↦ (panic m, w)
      ])
  unfolding requests_for_hubs
  requests_for_hubs-step reqs hub hubs f =
      ap
        (λ (x : Result (List String) × K.World). (elim x.0 [
          | ok namespaces ↦
              (lift (request_in namespaces hub o (K.label_selector_as_selector (selector_of hub)))
                  >>= λ req. requests_for_hubs K selector_of o (reqs ++ req) hubs)
                x.1
          | err e ↦ (ok [], x.1)
          | panic m ↦ (panic m, x.1)
        ]))
        f

  request_in-watched :
      (namespaces_of : SwaggerHub → List String) (hub : SwaggerHub)
      → IsCalm (λ _. ⊥) (K.label_selector_as_selector (selector_of hub))
      → request_in (namespaces_of hub) hub o (K.label_selector_as_selector (selector_of hub))
        ≡ ok (watched namespaces_of hub)
  unfolding request_in
  request_in-watched namespaces_of hub h =
      go (contains o.namespace (namespaces_of hub)) (K.label_selector_as_selector (selector_of hub))
        h
    where
      go :
          (b : Bool) (r : Result Selector)
          → IsCalm (λ _. ⊥) r
          → (if b then request_of hub o r else ok [])
            ≡ ok (if b && matches r (entries o.labels) then key_of hub ∷ [] else [])
      go true (ok label_sel) h = refl
      go true (err e) h = refl
      go true (panic m) h = elim h [ ]
      go false r h = refl

  -- Hubs that can be read are passed, and leave their requests.
  requests_for_hubs-append :
      (namespaces_of : SwaggerHub → List String) (before behind : List SwaggerHub)
      (reqs : List ObjectKey)
      → All (Selects namespaces_of) before
      → requests_for_hubs K selector_of o reqs (before ++ behind) w
        ≡ requests_for_hubs K selector_of o (reqs ++ watching namespaces_of before) behind w
  requests_for_hubs-append namespaces_of [] behind reqs h = rw (append-nil reqs) refl
  requests_for_hubs-append namespaces_of (hub ∷ before) behind reqs h =
      requests_for_hubs-step reqs hub (before ++ behind) h.0.0
      ∙ ap
          (λ r.
            (lift r >>= λ req. requests_for_hubs K selector_of o (reqs ++ req) (before ++ behind))
              w)
          (request_in-watched namespaces_of hub h.0.1)
      ∙ requests_for_hubs-append namespaces_of before behind (reqs ++ watched namespaces_of hub) h.1
      ∙ ap (λ l. requests_for_hubs K selector_of o l behind w)
          (append_assoc reqs (watched namespaces_of hub) (watching namespaces_of before))

  requests_for_change-step :
      {hubs : List SwaggerHub}
      → K.hubs.list (record { in_namespace = none; matching_labels = none }) w ≡ (ok hubs, w)
      → requests_for_change K selector_of o w ≡ requests_for_hubs K selector_of o [] hubs w
  unfolding requests_for_change
  requests_for_change-step e =
      ap
        (λ (x : Result (List SwaggerHub) × K.World). (elim x.0 [
          | ok hubs ↦ requests_for_hubs K selector_of o [] hubs x.1
          | err e ↦ (ok [], x.1)
          | panic m ↦ (panic m, x.1)
        ]))
        e

  -- Where the hubs can be listed and the namespaces of each can be selected, without a change to
  -- the cluster, and making their selectors does not panic, the requests are the keys, in the
  -- order of the hubs, of those hubs that have the namespace of the changed object among theirs
  -- and whose selector is valid and matches its labels.
  pub requests_for_change-watching :
      (namespaces_of : SwaggerHub → List String) (hubs : List SwaggerHub)
      → K.hubs.list (record { in_namespace = none; matching_labels = none }) w ≡ (ok hubs, w)
      → All (Selects namespaces_of) hubs
      → requests_for_change K selector_of o w ≡ (ok (watching namespaces_of hubs), w)
  unfolding requests_for_hubs
  requests_for_change-watching namespaces_of hubs e h =
      requests_for_change-step e
      ∙ ap (λ l. requests_for_hubs K selector_of o [] l w) (sym (append-nil hubs))
      ∙ requests_for_hubs-append namespaces_of hubs [] [] h

  -- Where the hubs can be listed and the namespaces of a hub can not be selected, there is no
  -- request for any hub, also for those before it in the list, whose namespaces can be selected
  -- and whose selectors can be made without a panic.
  pub requests_for_change-lost :
      (namespaces_of : SwaggerHub → List String) (before behind : List SwaggerHub)
      (hub : SwaggerHub) (e : Error)
      → K.hubs.list (record { in_namespace = none; matching_labels = none }) w
        ≡ (ok (before ++ hub ∷ behind), w)
      → All (Selects namespaces_of) before
      → select_namespaces K hub.metadata.namespace hub.spec.namespace_selector w ≡ (err e, w)
      → requests_for_change K selector_of o w ≡ (ok [], w)
  requests_for_change-lost namespaces_of before behind hub e listed h f =
      requests_for_change-step listed
      ∙ requests_for_hubs-append namespaces_of before (hub ∷ behind) [] h
      ∙ requests_for_hubs-step (watching namespaces_of before) hub behind f
