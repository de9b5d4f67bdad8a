-- ===== src/Kube/Meta.antt =====
-- Metadata of resources.
use swagger_hub_controller.Base.{ℕ, String, Bool, List, [], Option, none, some}
use swagger_hub_controller.Base.Dict.{Dict}
use swagger_hub_controller.Base.Sort.{Named}

-- A Go integer that may be negative. `negsuc n` is -(n + 1).
pub data ℤ : Type 0 where
  pos : ℕ → ℤ
  negsuc : ℕ → ℤ

-- `metav1.TypeMeta`
pub record TypeMeta : Type 0 where
  pub kind : String
  pub api_version : String

-- `metav1.OwnerReference`
pub record OwnerReference : Type 0 where
  pub name : String
  pub api_version : String
  pub kind : String
  pub uid : String
  pub controller : Option Bool

-- `metav1.ObjectMeta`; a nil map is `none`
pub record ObjectMeta : Type 0 where
  pub name : String
  pub namespace : String
  pub uid : String
  pub resource_version : String
  pub creation_timestamp : String
  pub generation : ℕ
  pub labels : Option (Dict String)
  pub annotations : Option (Dict String)
  pub owner_references : List OwnerReference

-- `metav1.ObjectMeta{Name: …, Namespace: …, OwnerReferences: …}`: the other fields are zero.
abbrev pub object_meta : String → String → List OwnerReference → ObjectMeta
object_meta name namespace owners = record {
  name = name;
  namespace = namespace;
  uid = "";
  resource_version = "";
  creation_timestamp = "";
  generation = 0;
  labels = none;
  annotations = none;
  owner_references = owners;
}

-- `metav1.Condition`
pub record Condition : Type 0 where
  pub condition_type : String
  pub status : String
  pub reason : String
  pub message : String
  pub observed_generation : ℕ
  pub last_transition_time : String

-- `metav1.LabelSelectorRequirement`
pub record LabelSelectorRequirement : Type 0 where
  pub key : String
  pub operator : String
  pub values : List String

-- `metav1.LabelSelector`
pub record LabelSelector : Type 0 where
  pub match_labels : Option (Dict String)
  pub match_expressions : List LabelSelectorRequirement

-- `labels.Selector`, by its method `Matches`
abbrev pub Selector : Type 0
Selector = Dict String → Bool

-- `client.ObjectKey`
pub record ObjectKey : Type 0 where
  pub namespace : String
  pub name : String

-- `client.Object`
pub record Object (A : Type 0) : Type 0 where
  pub type_of : A → TypeMeta
  pub meta_of : A → ObjectMeta
  pub with_type : TypeMeta → A → A

-- A list of labels, where a nil map is empty.
abbrev pub entries : Option (Dict String) → Dict String
entries none = []
entries (some m) = m

module _ {A : Type 0} ⦃o : Object A⦄ where
  -- `client.ObjectKeyFromObject`
  abbrev pub key_of : A → ObjectKey
  key_of a = record { namespace = (o.meta_of a).namespace; name = (o.meta_of a).name }

instance abbrev pub object_named : {A : Type 0} ⦃o : Object A⦄ → Named A
object_named ⦃o⦄ = record {
  name_of = λ a. (o.meta_of a).name;
  namespace_of = λ a. (o.meta_of a).namespace;
}
