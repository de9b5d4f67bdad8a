-- ===== src/Kube/Laws.antt =====
-- What the controllers rely on of the libraries: documented behaviour, as hypotheses.
use swagger_hub_controller.Base.{
  true, ℕ, String, List, [], ◌∷◌, Option, none, some, ok, ◌≡◌, if◌then◌else◌, ◌==◌,
}
use swagger_hub_controller.Base.Dict.{Dict}
use swagger_hub_controller.Base.Lists.{All}
use swagger_hub_controller.Kube.Meta.{entries, Object, Condition, ObjectKey, key_of}
use swagger_hub_controller.Kube.Workload.{Bytes, ConfigMap, config_map_object}
use swagger_hub_controller.Kube.Client.{Client, Resource, ListOptions}

-- A condition without its time.
pub record Verdict : Type 0 where
  pub status : String
  pub reason : String
  pub message : String
  pub observed_generation : ℕ

abbrev pub verdict : Condition → Verdict
verdict c = record {
  status = c.status;
  reason = c.reason;
  message = c.message;
  observed_generation = c.observed_generation;
}

-- The verdict of a type of condition.
abbrev pub find_verdict : String → List Condition → Option Verdict
find_verdict t [] = none
find_verdict t (c ∷ cs) = if c.condition_type == t then some (verdict c) else find_verdict t cs

-- `SetStatusCondition` sets the condition of the new one's type to it, `Delete` removes those of a
-- type, and both leave the other types alone.
pub record ConditionsLawful (K : Client) : Type 0 where
  pub find-set :
      (w : K.World) (cs : List Condition) (c : Condition) (t : String)
      → find_verdict t (K.set_status_condition w cs c)
        ≡ (if c.condition_type == t then some (verdict c) else find_verdict t cs)
  pub find-delete :
      (cs : List Condition) (k t : String)
      → find_verdict t (K.delete_condition cs k) ≡ (if k == t then none else find_verdict t cs)

-- A config map at the key holds the data.
abbrev pub Holds : (K : Client) → K.World → ObjectKey → Dict Bytes → Type 0
Holds K w k d = (cm : ConfigMap) × ((K.config_maps.get k w).0 ≡ ok cm) × (cm.binary_data ≡ d)

-- A config map that was created or updated can be read, with its data.
pub record ConfigMapsLawful (K : Client) : Type 0 where
  pub get-create :
      (cm : ConfigMap) {w w' : K.World}
      → K.config_maps.create cm w ≡ (ok tt, w')
      → Holds K w' (key_of cm) cm.binary_data
  pub get-update :
      (cm : ConfigMap) {w w' : K.World}
      → K.config_maps.update cm w ≡ (ok tt, w')
      → Holds K w' (key_of cm) cm.binary_data

-- A resource that a list with the options gives.
abbrev pub Passes : {A : Type 0} ⦃o : Object A⦄ → ListOptions → A → Type 0
Passes ⦃o⦄ options a =
    (elim options.in_namespace [ none ↦ Unit | some n ↦ (o.meta_of a).namespace ≡ n ])
    × (elim options.matching_labels [
      | none ↦ Unit
      | some s ↦ s (entries (o.meta_of a).labels) ≡ true
    ])

-- A list in a namespace gives resources of that namespace, and one by labels those that match.
pub record ListLawful {W C A : Type 0} ⦃o : Object A⦄ (R : Resource W C A) : Type 0 where
  pub lists :
      (options : ListOptions) (l : List A) (w w' : W)
      → R.list options w ≡ (ok l, w')
      → All (Passes options) l
