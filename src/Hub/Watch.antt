-- ===== src/Hub/Watch.antt =====
-- `requestsForChangeByDefinitionSelector` and `requestsForChangeBySpecificationSelector`: which hubs are
-- reconciled when a definition or a specification has changed.
use swagger_hub_controller.Base.{
  Option, none, List, [], ◌∷◌, ◌++◌, Result, ok, err, panic, Action, lift, ◌>>=◌, String,
  if◌then◌else◌,
}
use swagger_hub_controller.Base.Lists.{contains}
use swagger_hub_controller.Kube.Meta.{
  ObjectKey, ObjectMeta, LabelSelector, Selector, key_of, entries,
}
use swagger_hub_controller.Kube.Client.{Client}
use swagger_hub_controller.Api.Hub.{SwaggerHub, hub_object}
use swagger_hub_controller.Shared.Lookup.{select_namespaces}

-- The request for a hub whose selector, if it is valid, matches the labels of the changed object.
unfoldable pub request_of : SwaggerHub → ObjectMeta → Result Selector → Result (List ObjectKey)
request_of hub o (ok label_sel) = ok (if label_sel (entries o.labels) then key_of hub ∷ [] else [])
request_of hub o (err e) = ok []
request_of hub o (panic m) = panic m

-- The body of the loop over the hubs, on the namespaces of the hub.
unfoldable pub request_in :
    List String → SwaggerHub → ObjectMeta → Result Selector → Result (List ObjectKey)
unfolding request_of
request_in namespaces hub o selector =
    if contains o.namespace namespaces then request_of hub o selector else ok []

module _ (K : Client) where
  -- The loop over the hubs. An invalid namespace selector, or a failed list, ends it with no request.
  unfoldable pub requests_for_hubs :
      (SwaggerHub → Option LabelSelector)
      → ObjectMeta
      → List ObjectKey
      → List SwaggerHub
      → Action K.World (List ObjectKey)
  unfolding select_namespaces request_in
  requests_for_hubs selector_of o reqs [] w = (ok reqs, w)
  requests_for_hubs selector_of o reqs (hub ∷ hubs) w =
      let (r, w') = select_namespaces K hub.metadata.namespace hub.spec.namespace_selector w in
      elim r [
        | ok namespaces ↦
            (lift (request_in namespaces hub o (K.label_selector_as_selector (selector_of hub)))
                >>= λ req. requests_for_hubs selector_of o (reqs ++ req) hubs)
              w'
        | err e ↦ (ok [], w')
        | panic m ↦ (panic m, w')
      ]

  unfoldable pub requests_for_change :
      (SwaggerHub → Option LabelSelector) → ObjectMeta → Action K.World (List ObjectKey)
  unfolding requests_for_hubs
  requests_for_change selector_of o w =
      let (r, w') = K.hubs.list (record { in_namespace = none; matching_labels = none }) w in
      elim r [
        | ok hubs ↦ requests_for_hubs selector_of o [] hubs w'
        | err e ↦ (ok [], w')
        | panic m ↦ (panic m, w')
      ]

  unfoldable pub requests_for_change_by_definition_selector :
      ObjectMeta → Action K.World (List ObjectKey)
  unfolding requests_for_change
  requests_for_change_by_definition_selector = requests_for_change (λ h. h.spec.definition_selector)

  unfoldable pub requests_for_change_by_specification_selector :
      ObjectMeta → Action K.World (List ObjectKey)
  unfolding requests_for_change
  requests_for_change_by_specification_selector =
      requests_for_change (λ h. h.spec.specification_selector)
