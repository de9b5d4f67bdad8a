-- ===== src/Merge/Calm.antt =====
-- The merge panics only as the functions do that it calls.
use swagger_hub_controller.Base.{
  String, List, [], ◌∷◌, ◌++◌, Option, none, some, ok, and_then, map_err,
}
use swagger_hub_controller.Base.Runs.{IsCalm, IsCalm-and_then, IsCalm-map_err}
use swagger_hub_controller.Base.Dict.{Dict, lookup, erase}
use swagger_hub_controller.Kube.Workload.{Bytes, Container}
use swagger_hub_controller.Merge.{
  StrategicPatch, index_by_name, append_left, patch_container, patch_base, merge_patch_containers,
}

-- Encoding, patching and decoding panic only as allowed.
pub record PatchCalm {A : Type 0} (C : String → Type 0) (P : StrategicPatch A) : Type 0 where
  pub marshal : (a : A) → IsCalm C (P.marshal a)
  pub strategic_merge_patch : (base patch : Bytes) → IsCalm C (P.strategic_merge_patch base patch)
  pub unmarshal : (b : Bytes) → IsCalm C (P.unmarshal b)

module _ {C : String → Type 0} {P : StrategicPatch Container} (calm : PatchCalm C P) where
  patch_container-IsCalm : (c p : Container) → IsCalm C (patch_container P c p)
  unfolding patch_container
  patch_container-IsCalm c p =
      IsCalm-and_then C (map_err _ (P.marshal c)) _
        (IsCalm-map_err C _ (P.marshal c) (calm.marshal c))
        λ b.
          IsCalm-and_then C (map_err _ (P.marshal p)) _
            (IsCalm-map_err C _ (P.marshal p) (calm.marshal p))
            λ b'.
              IsCalm-and_then C (map_err _ (P.strategic_merge_patch b b')) _
                (IsCalm-map_err C _ (P.strategic_merge_patch b b')
                  (calm.strategic_merge_patch b b'))
                λ j. IsCalm-map_err C _ (P.unmarshal j) (calm.unmarshal j)

  patch_base-IsCalm :
      (out : List Container) (d : Dict Container) (base : List Container)
      → IsCalm C (patch_base P out d base)
  unfolding patch_base
  patch_base-IsCalm out d [] = tt
  patch_base-IsCalm out d (c ∷ base) =
      found (lookup c.name d) (patch_base-IsCalm (out ++ c ∷ []) d base)
        (λ r. patch_base-IsCalm (out ++ r ∷ []) (erase c.name d) base)
    where
      found :
          (o : Option Container)
          → IsCalm C (patch_base P (out ++ c ∷ []) d base)
          → ((r : Container) → IsCalm C (patch_base P (out ++ r ∷ []) (erase c.name d) base))
          → IsCalm C (elim o [
            | none ↦ patch_base P (out ++ c ∷ []) d base
            | some p ↦
                and_then
                  (patch_container P c p)
                  λ r. patch_base P (out ++ r ∷ []) (erase c.name d) base
          ])
      found none h k = h
      found (some p) h k =
          IsCalm-and_then C (patch_container P c p) _ (patch_container-IsCalm c p) k

  pub merge_patch_containers-IsCalm :
      (base patches : List Container) → IsCalm C (merge_patch_containers P base patches)
  unfolding merge_patch_containers
  merge_patch_containers-IsCalm base patches =
      IsCalm-and_then C (patch_base P [] (index_by_name patches []) base)
        (λ x. ok (append_left x.0 x.1 patches))
        (patch_base-IsCalm [] (index_by_name patches []) base) (λ x. tt)
