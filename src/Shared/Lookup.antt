-- ===== src/Shared/Lookup.antt =====
-- A `Get` whose error `IsNotFound` is no failure, and the selection of resources by namespaces and
-- labels, which the controllers spell out at each use.
use swagger_hub_controller.Base.{
  String, Option, none, some, List, [], ◌∷◌, ◌++◌, map, ok, err, panic, Action, pure, lift, ◌>>=◌,
  if◌then◌else◌,
}
use swagger_hub_controller.Base.Sort.{sort_func}
use swagger_hub_controller.Kube.Meta.{ObjectKey, LabelSelector, Selector, Object, object_named}
use swagger_hub_controller.Kube.Client.{Client, Resource}

-- `r.Get(…)`, then `err != nil && !apierrors.IsNotFound(err)`
unfoldable pub find : {W C A : Type 0} → Resource W C A → ObjectKey → Action W (Option A)
find R key w =
    let (r, w') = R.get key w in
    elim r [
      | ok a ↦ (ok (some a), w')
      | err e ↦ if e.is_not_found then (ok none, w') else (err e, w')
      | panic m ↦ (panic m, w')
    ]

module _ (K : Client) where
  -- The names in `namespaces.Items`: those that the selector finds, or the resource's own.
  unfoldable pub select_namespaces : String → Option LabelSelector → Action K.World (List String)
  select_namespaces own none = pure (own ∷ [])
  select_namespaces own (some s) = do
    selector ← lift (K.label_selector_as_selector (some s))
    namespaces ← K.namespaces.list (record { in_namespace = none; matching_labels = some selector })
    pure (map (λ n. n.metadata.name) namespaces)

  module _ {A : Type 0} (R : Resource K.World K.Content A) where
    -- The loop over the namespaces.
    unfoldable pub list_namespaces : Selector → List A → List String → Action K.World (List A)
    list_namespaces selector items [] = pure items
    list_namespaces selector items (n ∷ namespaces) = do
      namespaced ← R.list (record { in_namespace = some n; matching_labels = some selector })
      list_namespaces selector (items ++ namespaced) namespaces

    -- The resources that a label selector finds in the selected namespaces, in the order of their names.
    unfoldable pub select_resources :
        ⦃o : Object A⦄
        → Option LabelSelector
        → Option LabelSelector
        → String
        → Action K.World (List A)
    unfolding select_namespaces list_namespaces sort_func
    select_resources label_selector namespace_selector own = do
      selector ← lift (K.label_selector_as_selector label_selector)
      namespaces ← select_namespaces own namespace_selector
      items ← list_namespaces selector [] namespaces
      pure (sort_func items)
