-- ===== src/Shared/Selected.antt =====
-- Which resources the selection finds.
use swagger_hub_controller.Base.{
  String, Option, some, true, List, [], ◌∷◌, ◌++◌, Result, ok, lift, pure, ◌≡◌, subst, ap, sym,
  >>=-eq-ok, return-injective, ◌>>=◌, arith, eq_iff,
}
use swagger_hub_controller.Base.Lists.{All, All-append, contains}
use swagger_hub_controller.Base.Sort.{sort_func, All-sort_func}
use swagger_hub_controller.Kube.Meta.{LabelSelector, Selector, Object, object_named, entries}
use swagger_hub_controller.Kube.Client.{Client, Resource}
use swagger_hub_controller.Kube.Laws.{ListLawful, Passes}
use swagger_hub_controller.Shared.Lookup.{select_namespaces, list_namespaces, select_resources}

-- A resource with matching labels in one of the namespaces.
abbrev pub Selected : {A : Type 0} ⦃o : Object A⦄ → Selector → List String → A → Type 0
Selected ⦃o⦄ selector namespaces a =
    (selector (entries (o.meta_of a).labels) ≡ true)
    × (contains (o.meta_of a).namespace namespaces ≡ true)

-- The namespaces are among the others.
Among : List String → List String → Type 0
Among l m = (n : String) → contains n l ≡ true → contains n m ≡ true

module _ (K : Client) {A : Type 0} (R : Resource K.World K.Content A) ⦃o : Object A⦄
    (law : ListLawful R) where
  listed-Selected :
      (selector : Selector) (n : String) (all : List String) (l : List A)
      → contains n all ≡ true
      → All (Passes (record { in_namespace = some n; matching_labels = some selector })) l
      → All (Selected selector all) l
  listed-Selected selector n all [] m h = tt
  listed-Selected selector n all (a ∷ l) m h = (
    (h.0.1, subst (λ k. contains k all ≡ true) (sym h.0.0) m),
    listed-Selected selector n all l m h.1,
  )

  list_namespaces-Selected :
      (selector : Selector) (all namespaces : List String) (items : List A) (w : K.World)
      {l : List A} {w' : K.World}
      → Among namespaces all
      → All (Selected selector all) items
      → list_namespaces K R selector items namespaces w ≡ (ok l, w')
      → All (Selected selector all) l
  unfolding list_namespaces Among
  list_namespaces-Selected selector all [] items w m h e =
      subst (All (Selected selector all)) (return-injective e) h
  list_namespaces-Selected selector all (n ∷ namespaces) items w m h e =
      let (namespaced, v, e₁, e₂) =
        >>=-eq-ok (R.list (record { in_namespace = some n; matching_labels = some selector }))
          (λ namespaced. list_namespaces K R selector (items ++ namespaced) namespaces) w e in
      list_namespaces-Selected selector all namespaces (items ++ namespaced) v
        (λ k c. m k (ground arith))
        (All-append (Selected selector all) items namespaced h (
          listed-Selected selector n all namespaced (m n (ground (arith, eq_iff n n)))
            (law.lists _ namespaced w v e₁)))
        e₂

  -- Where lists give what their options ask for, and whenever the selection returns: its label
  -- selector is valid, its namespaces were selected in the world before it, and each item has
  -- matching labels and is in one of the namespaces.
  pub select_resources-Selected :
      (label_selector namespace_selector : Option LabelSelector) (own : String) (w : K.World)
      {l : List A} {w' : K.World}
      → select_resources K R label_selector namespace_selector own w ≡ (ok l, w')
      → (selector : Selector) × (namespaces : List String) × (v : K.World)
        × (K.label_selector_as_selector label_selector ≡ ok selector)
        × (select_namespaces K own namespace_selector w ≡ (ok namespaces, v))
        × All (Selected selector namespaces) l
  unfolding select_resources Among
  select_resources-Selected label_selector namespace_selector own w {l} {w'} e =
      let (selector, w₁, e₁, f₁) =
        >>=-eq-ok (lift (K.label_selector_as_selector label_selector))
          (λ selector. select_namespaces K own namespace_selector >>= λ namespaces.
            list_namespaces K R selector [] namespaces >>= λ items. pure (sort_func items))
          w e in
      let (namespaces, w₂, e₂, f₂) =
        >>=-eq-ok (select_namespaces K own namespace_selector)
          (λ namespaces.
            list_namespaces K R selector [] namespaces >>= λ items. pure (sort_func items))
          w₁ f₁ in
      let (items, w₃, e₃, f₃) =
        >>=-eq-ok (list_namespaces K R selector [] namespaces) (λ items. pure (sort_func items)) w₂
          f₂ in
      (
        selector,
        namespaces,
        w₂,
        ap (λ x. x.0) e₁,
        subst (λ v. select_namespaces K own namespace_selector v ≡ (ok namespaces, w₂))
            (sym (ap (λ (x : Result Selector × K.World). x.1) e₁)) e₂,
        subst (All (Selected selector namespaces)) (return-injective f₃) (
            All-sort_func (Selected selector namespaces) items
              (list_namespaces-Selected selector namespaces namespaces [] w₂ (λ n c. c) tt e₃)),
      )
