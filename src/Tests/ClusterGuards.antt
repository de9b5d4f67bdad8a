-- ===== src/Tests/ClusterGuards.antt =====
-- The calls on the cluster in memory neither panic nor change what they are not about.
use swagger_hub_controller.Base.{
  String, Bool, true, false, not, Option, none, some, List, [], ◌∷◌, Result, ok, err, panic, errorf,
  ◌≡◌, refl, subst, sym, eq_iff, arith, if◌then◌else◌, ◌∙◌, ap₂,
}
use swagger_hub_controller.Base.Lists.{filter_by}
use swagger_hub_controller.Base.Runs.{Ends, Guards, IsCalm}
use swagger_hub_controller.Kube.Meta.{
  ObjectKey, Object, key_of, LabelSelector, LabelSelectorRequirement, Selector, entries,
}
use swagger_hub_controller.Kube.Workload.{
  ConfigMap, config_map_object, secret_object, namespace_object, deployment_object, service_object,
}
use swagger_hub_controller.Kube.Guards.{Reads, Writes, CallsGuard}
use swagger_hub_controller.Api.Definition.{SwaggerDefinition, definition_object}
use swagger_hub_controller.Api.Hub.{SwaggerHub, hub_object}
use swagger_hub_controller.Api.Specification.{SwaggerSpecification, specification_object}
use swagger_hub_controller.Tests.Cluster.{
  Cluster, cluster, same_key, at_key, put, resource, label_selector, matches,
}

same_key-eq : (a b : ObjectKey) → same_key a b ≡ true → a ≡ b
same_key-eq a b e =
    ap₂ (λ m n. record { namespace = m; name = n }) (ground (arith, eq_iff a.namespace b.namespace))
      (ground (arith, eq_iff a.name b.name))

module _ {A : Type 0} ⦃o : Object A⦄ where
  at_key-IsCalm : (C : String → Type 0) (key : ObjectKey) (l : List A) → IsCalm C (at_key key l)
  at_key-IsCalm C key [] = tt
  at_key-IsCalm C key (a ∷ l) = go (same_key (key_of a) key) (at_key-IsCalm C key l)
    where
      go : (b : Bool) → IsCalm C (at_key key l) → IsCalm C (if b then ok a else at_key key l)
      go true h = tt
      go false h = h

  module _ (of : Cluster → List A) (set : List A → Cluster → Cluster) (with_status : A → A → A)
      (I : Cluster → Type 0) (C : String → Type 0) where
    pub resource-Reads : Reads I C (resource of set with_status)
    resource-Reads = record {
      get =
          λ key. record { at = λ w p. ended (at_key key (of w)) w (at_key-IsCalm C key (of w)) p };
      list = λ options. record { at = λ w p. p };
    }
      where
        ended : (r : Result A) (w : Cluster) → IsCalm C r → I w → Ends I C (λ _. I) (r, w)
        ended (ok a) w h p = p
        ended (err e) w h p = p
        ended (panic m) w h p = (h, p)

    pub resource-Writes :
        (Allowed : A → Type 0)
        → ((w : Cluster) (a : A) → Allowed a → I w → I (set (put a (of w)) w))
        → Writes I C Allowed (resource of set with_status)
    resource-Writes Allowed kept = record {
      create = λ a h. record {
        at = λ w p.
            created a w (at_key (key_of a) (of w)) (at_key-IsCalm C (key_of a) (of w)) p
              (kept w a h p);
      };
      update = λ a h. record { at = λ w p. kept w a h p };
      to_unstructured = λ a. tt;
      apply = λ a d owner force h e. record {
        at = λ w p. subst (λ (x : Result (Cluster → Cluster)). applied w x) e (kept w a h p);
      };
    }
      where
        applied : Cluster → Result (Cluster → Cluster) → Type 0
        applied w (ok d) = I (d w)
        applied w (err e) = Unit
        applied w (panic m) = Unit

        created :
            (a : A) (w : Cluster) (r : Result A)
            → IsCalm C r
            → I w
            → I (set (put a (of w)) w)
            → Ends {W = Cluster} {A = Unit {0}} I C
                (λ _. I)
                (elim r [
                  | ok b ↦ (err (errorf "already exists"), w)
                  | err e ↦ (ok tt, set (put a (of w)) w)
                  | panic m ↦ (panic m, w)
                ])
        created a w (ok b) h p q = p
        created a w (err e) h p q = q
        created a w (panic m) h p q = (h, p)

    pub patch_status-Guards :
        ((w : Cluster) (a b : A)
          → at_key (key_of a) (of w) ≡ ok b
          → I w
          → I (set (put (with_status a b) (of w)) w))
        → (a base : A) → Guards I C ((resource of set with_status).patch_status a base)
    patch_status-Guards kept a base = record {
      at = λ w p.
          patched w (at_key (key_of a) (of w)) (at_key-IsCalm C (key_of a) (of w)) p
            (λ b e. kept w a b e p);
    }
      where
        patched :
            (w : Cluster) (r : Result A)
            → IsCalm C r
            → I w
            → ((b : A) → r ≡ ok b → I (set (put (with_status a b) (of w)) w))
            → Ends {W = Cluster} {A = A} I C
                (λ _. I)
                (elim r [
                  | ok b ↦ (ok (with_status a b), set (put (with_status a b) (of w)) w)
                  | err e ↦ (err e, w)
                  | panic m ↦ (panic m, w)
                ])
        patched w (ok b) h p q = q b refl
        patched w (err e) h p q = p
        patched w (panic m) h p q = (h, p)

  -- A write at another key changes nothing at the key.
  pub at_key-put_other :
      (key : ObjectKey) (a : A) (l : List A)
      → (key_of a ≡ key → ⊥)
      → at_key key (put a l) ≡ at_key key l
  at_key-put_other key a l h =
      first (same_key (key_of a) key) (same_key-eq (key_of a) key) ∙ others l
    where
      kept : List A → List A
      kept l = filter_by (λ b. not (same_key (key_of b) (key_of a))) l

      first :
          (b : Bool)
          → (b ≡ true → key_of a ≡ key)
          → (if b then ok a else at_key key (kept l)) ≡ at_key key (kept l)
      first true e = elim (h (e refl)) [ ]
      first false e = refl

      step :
          (c : A) (l : List A) (x y : Bool)
          → same_key (key_of c) (key_of a) ≡ x
          → same_key (key_of c) key ≡ y
          → at_key key (kept l) ≡ at_key key l
          → at_key key (if not x then c ∷ kept l else kept l) ≡ (if y then ok c else at_key key l)
      step c l true true p q e =
          elim (h (sym (same_key-eq (key_of c) (key_of a) p) ∙ same_key-eq (key_of c) key q)) [ ]
      step c l true false p q e = e
      step c l false true p q e = rw q refl
      step c l false false p q e = rw q e

      others : (l : List A) → at_key key (kept l) ≡ at_key key l
      others [] = refl
      others (c ∷ l) =
          step c l (same_key (key_of c) (key_of a)) (same_key (key_of c) key) refl refl (others l)

-- What depends on the services and the deployments only.
module _ (I : Cluster → Type 0) (C : String → Type 0)
    (hubs : (w : Cluster) (a b : SwaggerHub)
      → at_key (key_of a) w.hubs ≡ ok b
      → I w
      → I (record w { hubs = put (record b { status = a.status }) w.hubs }))
    (definitions : (l : List SwaggerDefinition) (w : Cluster)
      → I w
      → I (record w { definitions = l }))
    (specifications : (w : Cluster) (a b : SwaggerSpecification)
      → at_key (key_of a) w.specifications ≡ ok b
      → I w
      → I (record w { specifications = put (record b { status = a.status }) w.specifications }))
    (config_maps : (l : List ConfigMap) (w : Cluster)
      → I w
      → I (record w { config_maps = l })) where
  label_selector-IsCalm : (s : Option LabelSelector) → IsCalm C (label_selector s)
  label_selector-IsCalm none = tt
  label_selector-IsCalm (some s) = go s.match_expressions
    where
      go :
          (es : List LabelSelectorRequirement)
          → IsCalm C {A = Selector} (elim es [
            | [] ↦ ok (matches (entries s.match_labels))
            | e ∷ es ↦ err (errorf "not a valid label selector operator")
          ])
      go [] = tt
      go (e ∷ es) = tt

  pub cluster-CallsGuard : CallsGuard cluster I C
  cluster-CallsGuard = record {
    hubs =
        resource-Reads (λ w. w.hubs) (λ l w. record w { hubs = l })
          (λ a b. record b { status = a.status }) I C;
    definitions =
        resource-Reads (λ w. w.definitions) (λ l w. record w { definitions = l })
          (λ a b. record b { status = a.status }) I C;
    specifications =
        resource-Reads (λ w. w.specifications) (λ l w. record w { specifications = l })
          (λ a b. record b { status = a.status }) I C;
    config_maps =
        resource-Reads (λ w. w.config_maps) (λ l w. record w { config_maps = l }) (λ a b. b) I C;
    secrets = resource-Reads (λ w. w.secrets) (λ l w. record w { secrets = l }) (λ a b. b) I C;
    namespaces =
        resource-Reads (λ w. w.namespaces) (λ l w. record w { namespaces = l }) (λ a b. b) I C;
    deployments =
        resource-Reads (λ w. w.deployments) (λ l w. record w { deployments = l }) (λ a b. b) I C;
    services = resource-Reads (λ w. w.services) (λ l w. record w { services = l }) (λ a b. b) I C;
    config_map_writes =
        resource-Writes (λ w. w.config_maps) (λ l w. record w { config_maps = l }) (λ a b. b) I C
          (λ _. Unit) (λ w a h. config_maps (put a w.config_maps) w);
    hub_status =
        patch_status-Guards (λ w. w.hubs) (λ l w. record w { hubs = l })
          (λ a b. record b { status = a.status }) I C hubs;
    definition_status =
        patch_status-Guards (λ w. w.definitions) (λ l w. record w { definitions = l })
          (λ a b. record b { status = a.status }) I C
          (λ w a b _. definitions (put (record b { status = a.status }) w.definitions) w);
    specification_status =
        patch_status-Guards (λ w. w.specifications) (λ l w. record w { specifications = l })
          (λ a b. record b { status = a.status }) I C specifications;
    label_selector = label_selector-IsCalm;
    eventf = λ e w p. p;
    with_timeout = λ d w p. p;
    cancel = λ w p. p;
  }
