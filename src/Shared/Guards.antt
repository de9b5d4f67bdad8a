-- ===== src/Shared/Guards.antt =====
-- The shared calls keep what the client's calls keep.
use swagger_hub_controller.Base.{
  String, Option, none, some, List, [], ◌∷◌, ◌++◌, Result, ok, err, panic, Action, pure, lift, fail,
  if◌then◌else◌,
}
use swagger_hub_controller.Base.Runs.{
  Ends, Guards, Runs-handle, Runs-if_at, Runs-pure, Runs-fail, Runs-lift, Runs-bind,
}
use swagger_hub_controller.Kube.Meta.{
  ℤ, ObjectKey, LabelSelector, Selector, Object, object_named, key_of,
}
use swagger_hub_controller.Kube.Workload.{ConfigMap, config_map_object}
use swagger_hub_controller.Kube.Client.{Client, Resource}
use swagger_hub_controller.Kube.Guards.{Reads, CallsGuard}
use swagger_hub_controller.Shared.Outcome.{within}
use swagger_hub_controller.Shared.ConfigMaps.{store_config_map}
use swagger_hub_controller.Shared.Lookup.{
  find, select_namespaces, list_namespaces, select_resources,
}

-- A `Get` that may find nothing, where the name is found as such.
pub find-Guards :
    {W D A : Type 0} {I : W → Type 0} {C : String → Type 0} (R : Resource W D A) (key : ObjectKey)
    → Guards I C (R.get key)
    → Guards I C (find R key)
unfolding find
find-Guards R key h =
    Runs-handle (R.get key) (λ a. pure (some a))
      (λ e w. if e.is_not_found then (ok none, w) else (err e, w)) h
      (λ a. Runs-pure (some a) (λ w p. p))
      (λ e.
        Runs-if_at e.is_not_found (pure none) (fail e) (λ _. Runs-pure none (λ w p. p))
          (λ _. Runs-fail e (λ w p. p)))

module _ {K : Client} {I : K.World → Type 0} {C : String → Type 0} (G : CallsGuard K I C) where
  pub store_config_map-Guards : (cm : ConfigMap) → Guards I C (store_config_map K cm)
  unfolding store_config_map
  store_config_map-Guards cm =
      Runs-handle (K.config_maps.get (key_of cm)) (λ _. K.config_maps.update cm)
        (λ e w. if e.is_not_found then K.config_maps.create cm w else (err e, w))
        (G.config_maps.get (key_of cm)) (λ _. G.config_map_writes.update cm tt)
        (λ e.
          Runs-if_at e.is_not_found (K.config_maps.create cm) (fail e)
            (λ _. G.config_map_writes.create cm tt) (λ _. Runs-fail e (λ w p. p)))

  pub select_namespaces-Guards :
      (own : String) (s : Option LabelSelector) → Guards I C (select_namespaces K own s)
  unfolding select_namespaces
  select_namespaces-Guards own none = Runs-pure (own ∷ []) (λ w p. p)
  select_namespaces-Guards own (some s) =
      Runs-bind {Q = λ _. I} (lift (K.label_selector_as_selector (some s))) _
        (Runs-lift _ (G.label_selector (some s)) (λ w p. p) (λ a w _ p. p))
        (λ selector.
          Runs-bind {Q = λ _. I} (K.namespaces.list _) _ (G.namespaces.list _)
            (λ namespaces. Runs-pure _ (λ w p. p)))

  module _ {A : Type 0} (R : Resource K.World K.Content A) (reads : Reads I C R) where
    list_namespaces-Guards :
        (selector : Selector) (items : List A) (namespaces : List String)
        → Guards I C (list_namespaces K R selector items namespaces)
    unfolding list_namespaces
    list_namespaces-Guards selector items [] = Runs-pure items (λ w p. p)
    list_namespaces-Guards selector items (n ∷ namespaces) =
        Runs-bind {Q = λ _. I} (R.list _) _ (reads.list _)
          (λ namespaced. list_namespaces-Guards selector (items ++ namespaced) namespaces)

    pub select_resources-Guards :
        ⦃o : Object A⦄ (label_selector namespace_selector : Option LabelSelector) (own : String)
        → Guards I C (select_resources K R label_selector namespace_selector own)
    unfolding select_resources
    select_resources-Guards label_selector namespace_selector own =
        Runs-bind {Q = λ _. I} (lift (K.label_selector_as_selector label_selector)) _
          (Runs-lift _ (G.label_selector label_selector) (λ w p. p) (λ a w _ p. p))
          (λ selector.
            Runs-bind {Q = λ _. I} (select_namespaces K own namespace_selector) _
              (select_namespaces-Guards own namespace_selector)
              (λ namespaces.
                Runs-bind {Q = λ _. I} (list_namespaces K R selector [] namespaces) _
                  (list_namespaces-Guards selector [] namespaces)
                  (λ items. Runs-pure _ (λ w p. p))))

  -- A function under a deadline.
  pub within-Guards :
      {A : Type 0} (d : ℤ) (rest : Action K.World A)
      → Guards I C rest
      → Guards I C (within K d rest)
  unfolding within
  within-Guards {A} d rest h = record {
    at = λ w p. go (rest (K.with_timeout d w)) (h.at _ (G.with_timeout d w p));
  }
    where
      go : (x : Result A × K.World) → Ends I C (λ _. I) x → Ends I C (λ _. I) (x.0, K.cancel x.1)
      go (ok a, v) p = G.cancel v p
      go (err e, v) p = G.cancel v p
      go (panic m, v) p = (p.0, G.cancel v p.1)
