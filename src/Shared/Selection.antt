-- ===== src/Shared/Selection.antt =====
-- What the selection of resources promises of its list.
use swagger_hub_controller.Base.{
  String, Option, List, [], Result, ok, err, panic, lift, pure, ◌≡◌, >>=-eq-ok, ◌>>=◌, subst,
}
use swagger_hub_controller.Base.Sort.{sort_func, sort_func-IsSorted, IsSorted}
use swagger_hub_controller.Kube.Meta.{LabelSelector, Object, object_named}
use swagger_hub_controller.Kube.Client.{Client, Resource}
use swagger_hub_controller.Shared.Lookup.{select_namespaces, list_namespaces, select_resources}

module _ (K : Client) {A : Type 0} (R : Resource K.World K.Content A) ⦃o : Object A⦄ where
  -- Whenever the selection of resources returns, any item of its list has a smaller name than each
  -- later item, or the same name and a namespace that is smaller or the same.
  pub select_resources-IsSorted :
      (label_selector namespace_selector : Option LabelSelector) (own : String) (w : K.World)
      {l : List A} {w' : K.World}
      → select_resources K R label_selector namespace_selector own w ≡ (ok l, w')
      → IsSorted l
  unfolding select_resources
  select_resources-IsSorted label_selector namespace_selector own w {l} {w'} e =
      let (selector, w₁, e₁, f₁) =
        >>=-eq-ok (lift (K.label_selector_as_selector label_selector))
          (λ selector. select_namespaces K own namespace_selector >>= λ namespaces.
            list_namespaces K R selector [] namespaces >>= λ items. pure (sort_func items))
          w e in
      let (namespaces, w₂, e₂, f₂) =
        >>=-eq-ok (select_namespaces K own namespace_selector)
          (λ namespaces.
            list_namespaces K R selector [] namespaces >>= λ items. pure (sort_func items))
          w₁ f₁ in
      let (items, w₃, e₃, f₃) =
        >>=-eq-ok (list_namespaces K R selector [] namespaces) (λ items. pure (sort_func items)) w₂
          f₂ in
      subst
        (λ (x : Result (List A) × K.World). (elim x.0 [
          | ok a ↦ IsSorted a
          | err x ↦ Unit
          | panic m ↦ Unit
        ]))
        f₃ (sort_func-IsSorted items)
