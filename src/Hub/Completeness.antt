-- ===== src/Hub/Completeness.antt =====
-- The selection of a hub and its watches agree.
use swagger_hub_controller.Base.{
  String, Option, none, List, [], ◌∷◌, ◌++◌, ok, true, if◌then◌else◌, ◌≡◌, refl, sym, ◌∙◌, subst,
  inl, inr, return-injective,
}
use swagger_hub_controller.Base.Lists.{All, Has, All-Has, Has-append_left}
use swagger_hub_controller.Kube.Meta.{LabelSelector, Selector, Object, ObjectKey, key_of}
use swagger_hub_controller.Kube.Client.{Client, Resource}
use swagger_hub_controller.Kube.Laws.{ListLawful}
use swagger_hub_controller.Api.Hub.{SwaggerHub, hub_object}
use swagger_hub_controller.Shared.Lookup.{select_resources}
use swagger_hub_controller.Shared.Selected.{Selected, select_resources-Selected}
use swagger_hub_controller.Hub.Watch.{requests_for_change}
use swagger_hub_controller.Hub.Requests.{
  Selects, is_watching, watching, requests_for_change-watching,
}

module _ (K : Client) {A : Type 0} (R : Resource K.World K.Content A) ⦃o : Object A⦄
    (law : ListLawful R) (selector_of : SwaggerHub → Option LabelSelector) (hub : SwaggerHub)
    (w : K.World) where
  -- A change of the resource is answered with requests, of which one is for the hub.
  abbrev pub IsWatched : A → Type 0
  IsWatched a =
      (reqs : List ObjectKey) × (requests_for_change K selector_of (o.meta_of a) w ≡ (ok reqs, w))
      × Has (key_of hub) reqs

  Has-watching :
      (namespaces_of : SwaggerHub → List String) (a : A) (hubs : List SwaggerHub)
      → Has hub hubs
      → is_watching K selector_of (o.meta_of a) w namespaces_of hub ≡ true
      → Has (key_of hub) (watching K selector_of (o.meta_of a) w namespaces_of hubs)
  Has-watching namespaces_of a [] m e = elim m [ ]
  Has-watching namespaces_of a (h ∷ hubs) (inl p) e =
      subst
        (λ h'. Has (key_of hub) (
          (if is_watching K selector_of (o.meta_of a) w namespaces_of h'
            then key_of h' ∷ []
            else [])
          ++ watching K selector_of (o.meta_of a) w namespaces_of hubs))
        p (rw e (inl refl))
  Has-watching namespaces_of a (h ∷ hubs) (inr m) e =
      Has-append_left (key_of hub)
        (if is_watching K selector_of (o.meta_of a) w namespaces_of h then key_of h ∷ [] else [])
        (watching K selector_of (o.meta_of a) w namespaces_of hubs)
        (Has-watching namespaces_of a hubs m e)

  Selected-IsWatched :
      (namespaces_of : SwaggerHub → List String) (hubs : List SwaggerHub) (selector : Selector)
      (l : List A)
      → K.hubs.list (record { in_namespace = none; matching_labels = none }) w ≡ (ok hubs, w)
      → All (Selects K selector_of hub.metadata w namespaces_of) hubs
      → Has hub hubs
      → K.label_selector_as_selector (selector_of hub) ≡ ok selector
      → All (Selected selector (namespaces_of hub)) l
      → All IsWatched l
  Selected-IsWatched namespaces_of hubs selector [] listed steady m e h = tt
  Selected-IsWatched namespaces_of hubs selector (a ∷ l) listed steady m e h = (
    (
      watching K selector_of (o.meta_of a) w namespaces_of hubs,
      requests_for_change-watching K selector_of (o.meta_of a) w namespaces_of hubs listed steady,
      Has-watching namespaces_of a hubs m (rw (h.0.1, e, h.0.0) refl),
    ),
    Selected-IsWatched namespaces_of hubs selector l listed steady m e h.1,
  )

  -- Where lists give what their options ask for, the hubs can be listed and their namespaces be
  -- selected without a change to the cluster, making their selectors does not panic, and the hub
  -- is one of them: a change of each resource that its selection has found is answered by the
  -- watch with requests, of which one is for the hub.
  pub select_resources-IsWatched :
      (namespaces_of : SwaggerHub → List String) (hubs : List SwaggerHub) {l : List A}
      {w' : K.World}
      → K.hubs.list (record { in_namespace = none; matching_labels = none }) w ≡ (ok hubs, w)
      → All (Selects K selector_of hub.metadata w namespaces_of) hubs
      → Has hub hubs
      → select_resources K R (selector_of hub) hub.spec.namespace_selector hub.metadata.namespace w
        ≡ (ok l, w')
      → All IsWatched l
  select_resources-IsWatched namespaces_of hubs {l} {w'} listed steady m e =
      let (selector, namespaces, v, valid, found, h) =
        select_resources-Selected K R law (selector_of hub) hub.spec.namespace_selector
          hub.metadata.namespace w e in
      let same : namespaces ≡ namespaces_of hub = return-injective (
        sym found
        ∙ (All-Has (Selects K selector_of hub.metadata w namespaces_of) hub hubs steady m).0) in
      Selected-IsWatched namespaces_of hubs selector l listed steady m valid
        (subst (λ n. All (Selected selector n) l) same h)
