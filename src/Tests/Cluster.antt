-- ===== src/Tests/Cluster.antt =====
-- A cluster in memory: an instance of the client for tests, which has the laws of `Kube/Laws`.
use swagger_hub_controller.Base.{
  Bool-cases, inl, inr, return-injective, String, Bool, true, false, ◌&&◌, not, Option, none, some,
  List, [], ◌∷◌, Result, ok, err, panic, Error, errorf, if◌then◌else◌, ◌==◌, eq_iff, ◌≡◌, refl,
  arith, ap, subst,
}
use text.Mathlib.TextPositions.{eq_refl}
use swagger_hub_controller.Base.Dict.{Dict, lookup}
use swagger_hub_controller.Base.Lists.{All, filter_by}
use swagger_hub_controller.Kube.Meta.{
  ObjectKey, LabelSelector, Selector, Condition, Object, key_of, entries,
}
use swagger_hub_controller.Kube.Workload.{
  ConfigMap, Secret, Namespace, Deployment, Service, config_map_object, secret_object,
  namespace_object, deployment_object, service_object,
}
use swagger_hub_controller.Kube.Client.{Client, Resource, ListOptions}
use swagger_hub_controller.Kube.Laws.{
  Passes, ListLawful, ConditionsLawful, ConfigMapsLawful, Holds, find_verdict,
}
use swagger_hub_controller.Api.Definition.{SwaggerDefinition, definition_object}
use swagger_hub_controller.Api.Hub.{SwaggerHub, hub_object}
use swagger_hub_controller.Api.Specification.{SwaggerSpecification, specification_object}

pub record Cluster : Type 0 where
  pub hubs : List SwaggerHub
  pub definitions : List SwaggerDefinition
  pub specifications : List SwaggerSpecification
  pub config_maps : List ConfigMap
  pub secrets : List Secret
  pub namespaces : List Namespace
  pub deployments : List Deployment
  pub services : List Service

abbrev pub empty_cluster : Cluster
empty_cluster = record {
  hubs = [];
  definitions = [];
  specifications = [];
  config_maps = [];
  secrets = [];
  namespaces = [];
  deployments = [];
  services = [];
}

abbrev pub same_key : ObjectKey → ObjectKey → Bool
same_key a b = a.namespace == b.namespace && a.name == b.name

abbrev pub not_found : Error
not_found = record { is_not_found = true; message = "not found" }

module _ {A : Type 0} ⦃o : Object A⦄ where
  abbrev pub at_key : ObjectKey → List A → Result A
  at_key key [] = err not_found
  at_key key (a ∷ l) = if same_key (key_of a) key then ok a else at_key key l

  abbrev pub put : A → List A → List A
  put a l = a ∷ filter_by (λ b. not (same_key (key_of b) (key_of a))) l

  abbrev pub passes : ListOptions → A → Bool
  passes options a =
      (elim options.in_namespace [ none ↦ true | some n ↦ (o.meta_of a).namespace == n ])
      && (elim options.matching_labels [ none ↦ true | some s ↦ s (entries (o.meta_of a).labels) ])

  -- The resources of one type, of which the cluster has a list; a patch of the status changes only that.
  abbrev pub resource :
      (Cluster → List A)
      → (List A → Cluster → Cluster)
      → (A → A → A)
      → Resource Cluster (Cluster → Cluster) A
  resource of set with_status = record {
    get = λ key w. (at_key key (of w), w);
    list = λ options w. (ok (filter_by (passes options) (of w)), w);
    create = λ a w. (elim (at_key (key_of a) (of w)) [
      | ok b ↦ (err (errorf "already exists"), w)
      | err e ↦ (ok tt, set (put a (of w)) w)
      | panic m ↦ (panic m, w)
    ]);
    update = λ a w. (ok tt, set (put a (of w)) w);
    to_unstructured = λ a. ok (λ w. set (put a (of w)) w);
    apply = λ content owner force w. (ok tt, content w);
    patch_status = λ a base w. (elim (at_key (key_of a) (of w)) [
      | ok b ↦ (ok (with_status a b), set (put (with_status a b) (of w)) w)
      | err e ↦ (err e, w)
      | panic m ↦ (panic m, w)
    ]);
  }

abbrev InWanted : Option String → String → Type 0
InWanted wanted n = elim wanted [ none ↦ Unit | some m ↦ n ≡ m ]

abbrev MatchesWanted : Option Selector → Dict String → Type 0
MatchesWanted wanted labels = elim wanted [ none ↦ Unit | some s ↦ s labels ≡ true ]

namespace_passes :
    (wanted : Option String) (n : String)
    → ◌≡◌ {A = Bool} (elim wanted [ none ↦ true | some m ↦ n == m ]) true
    → InWanted wanted n
namespace_passes none n e = tt
namespace_passes (some m) n e = (eq_iff n m).0 e

labels_pass :
    (wanted : Option Selector) (labels : Dict String)
    → ◌≡◌ {A = Bool} (elim wanted [ none ↦ true | some s ↦ s labels ]) true
    → MatchesWanted wanted labels
labels_pass none labels e = tt
labels_pass (some s) labels e = e

module _ {A : Type 0} ⦃o : Object A⦄ where
  Passes-passes : (options : ListOptions) (a : A) → passes options a ≡ true → Passes options a
  Passes-passes options a e = (
    namespace_passes options.in_namespace (o.meta_of a).namespace (ground arith),
    labels_pass options.matching_labels (entries (o.meta_of a).labels) (ground arith),
  )

  All-passes :
      (options : ListOptions) (l : List A) → All (Passes options) (filter_by (passes options) l)
  All-passes options [] = tt
  All-passes options (a ∷ l) = elim (Bool-cases (passes options a)) [
    | inl e ↦ rw e (Passes-passes options a e, All-passes options l)
    | inr e ↦ rw e (All-passes options l)
  ]

  pub resource-ListLawful :
      (of : Cluster → List A) (set : List A → Cluster → Cluster) (with_status : A → A → A)
      → ListLawful (resource of set with_status)
  resource-ListLawful of set with_status = record {
    lists = λ options l w w' e.
        subst (All (Passes options)) (return-injective e) (All-passes options (of w));
  }

-- Selectors of labels only: an expression is invalid.
abbrev pub matches : Dict String → Selector
matches [] labels = true
matches ((k, v) ∷ rest) labels =
    (elim (lookup k labels) [ none ↦ false | some u ↦ u == v ]) && matches rest labels

abbrev pub label_selector : Option LabelSelector → Result Selector
label_selector none = ok (λ _. false)
label_selector (some s) = elim s.match_expressions [
  | [] ↦ ok (matches (entries s.match_labels))
  | e ∷ es ↦ err (errorf "not a valid label selector operator")
]

abbrev drop_condition : List Condition → String → List Condition
drop_condition cs t = filter_by (λ c. not (c.condition_type == t)) cs

abbrev pub cluster : Client
cluster = record {
  World = Cluster;
  Content = Cluster → Cluster;
  hubs =
      resource (λ w. w.hubs) (λ l w. record w { hubs = l }) (λ a b. record b { status = a.status });
  definitions =
      resource (λ w. w.definitions) (λ l w. record w { definitions = l })
        (λ a b. record b { status = a.status });
  specifications =
      resource (λ w. w.specifications) (λ l w. record w { specifications = l })
        (λ a b. record b { status = a.status });
  config_maps = resource (λ w. w.config_maps) (λ l w. record w { config_maps = l }) (λ a b. b);
  secrets = resource (λ w. w.secrets) (λ l w. record w { secrets = l }) (λ a b. b);
  namespaces = resource (λ w. w.namespaces) (λ l w. record w { namespaces = l }) (λ a b. b);
  deployments = resource (λ w. w.deployments) (λ l w. record w { deployments = l }) (λ a b. b);
  services = resource (λ w. w.services) (λ l w. record w { services = l }) (λ a b. b);
  label_selector_as_selector = label_selector;
  set_status_condition = λ w cs c. c ∷ drop_condition cs c.condition_type;
  delete_condition = drop_condition;
  eventf = λ event w. w;
  with_timeout = λ timeout w. w;
  cancel = λ w. w;
}

find_verdict-drop :
    (cs : List Condition) (k t : String)
    → find_verdict t (drop_condition cs k) ≡ (if k == t then none else find_verdict t cs)
find_verdict-drop [] k t = ground arith
find_verdict-drop (c ∷ cs) k t = ground (
  arith,
  find_verdict-drop cs k t,
  eq_iff c.condition_type k,
  eq_iff k t,
  eq_iff c.condition_type t,
)

pub cluster-ConditionsLawful : ConditionsLawful cluster
cluster-ConditionsLawful = record {
  find-set = λ w cs c t. ground (arith, find_verdict-drop cs c.condition_type t);
  find-delete = find_verdict-drop;
}

at_key-put : (cm : ConfigMap) (l : List ConfigMap) → at_key (key_of cm) (put cm l) ≡ ok cm
at_key-put cm l = rw (eq_refl cm.metadata.namespace, eq_refl cm.metadata.name) refl

stored-Holds :
    (cm : ConfigMap) (w w' : Cluster)
    → ◌≡◌ {A = Result (Unit {0}) × Cluster}
        (ok tt, record w { config_maps = put cm w.config_maps })
        (ok tt, w')
    → Holds cluster w' (key_of cm) cm.binary_data
stored-Holds cm w w' e =
    subst (λ (v : Cluster). Holds cluster v (key_of cm) cm.binary_data)
      (ap (λ (x : Result (Unit {0}) × Cluster). x.1) e) (cm, at_key-put cm w.config_maps, refl)

created-Holds :
    (cm : ConfigMap) (w w' : Cluster) (found : Result ConfigMap)
    → ◌≡◌ {A = Result (Unit {0}) × Cluster}
        (elim found [
          | ok b ↦ (err (errorf "already exists"), w)
          | err e ↦ (ok tt, record w { config_maps = put cm w.config_maps })
          | panic m ↦ (panic m, w)
        ])
        (ok tt, w')
    → Holds cluster w' (key_of cm) cm.binary_data
created-Holds cm w w' (ok b) e = cc
created-Holds cm w w' (err x) e = stored-Holds cm w w' e
created-Holds cm w w' (panic m) e = cc

pub cluster-ConfigMapsLawful : ConfigMapsLawful cluster
cluster-ConfigMapsLawful = record {
  get-create = λ cm {w} {w'} e. created-Holds cm w w' (at_key (key_of cm) w.config_maps) e;
  get-update = λ cm {w} {w'} e. stored-Holds cm w w' e;
}
