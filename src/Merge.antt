-- ===== src/Merge.antt =====
-- internal/merge: the user's containers as patches on the containers that the controller makes.
-- JSON and the strategic merge patch of apimachinery are parameters.
pub mod Laws
pub mod Names
pub mod Calm
use swagger_hub_controller.Base.{
  String, ◌<>◌, Option, none, some, List, [], ◌∷◌, ◌++◌, Result, ok, err, panic, map_err, wrap,
  and_then,
}
use swagger_hub_controller.Base.Dict.{Dict, lookup, insert, erase}
use swagger_hub_controller.Kube.Workload.{Bytes, Container, Deployment}

-- `json.Marshal`, `strategicpatch.StrategicMergePatch` and `json.Unmarshal` at a type.
pub record StrategicPatch (A : Type 0) : Type 0 where
  pub marshal : A → Result Bytes
  pub strategic_merge_patch : Bytes → Bytes → Result Bytes
  pub unmarshal : Bytes → Result A

-- The first loop: `containersByName[c.Name] = c`, so a later patch of one name wins.
unfoldable pub index_by_name : List Container → Dict Container → Dict Container
index_by_name [] by_name = by_name
index_by_name (c ∷ patches) by_name = index_by_name patches (insert c.name c by_name)

-- The third loop, over `patches`: what is left in the map, in the order of the patches.
unfoldable pub append_left : List Container → Dict Container → List Container → List Container
append_left out by_name [] = out
append_left out by_name (c ∷ patches) = elim (lookup c.name by_name) [
  | none ↦ append_left out by_name patches
  | some container ↦ append_left (out ++ container ∷ []) by_name patches
]

module _ (P : StrategicPatch Container) where
  -- The body of the second loop, where a patch of the container's name was found.
  unfoldable pub patch_container : Container → Container → Result Container
  patch_container container patch =
      and_then
        (map_err (wrap ("failed to marshal JSON for container " <> container.name <> ": "))
          (P.marshal container))
        λ container_bytes.
          and_then
            (map_err
              (wrap ("failed to marshal JSON for patch container " <> container.name <> ": "))
              (P.marshal patch))
            λ patch_bytes.
              and_then
                (map_err
                  (wrap ("failed to generate merge patch for container " <> container.name <> ": "))
                  (P.strategic_merge_patch container_bytes patch_bytes))
                λ json_result.
                  map_err (wrap ("failed to unmarshal merged container " <> container.name <> ": "))
                    (P.unmarshal json_result)

  -- The second loop, over `base`. A patch that was used leaves the map.
  unfoldable pub patch_base :
      List Container → Dict Container → List Container → Result (List Container × Dict Container)
  patch_base out by_name [] = ok (out, by_name)
  patch_base out by_name (container ∷ base) = elim (lookup container.name by_name) [
    | none ↦ patch_base (out ++ container ∷ []) by_name base
    | some patch ↦
        and_then (patch_container container patch)
          λ result. patch_base (out ++ result ∷ []) (erase container.name by_name) base
  ]

  unfoldable pub merge_patch_containers : List Container → List Container → Result (List Container)
  unfolding index_by_name patch_container patch_base append_left lookup insert erase
  merge_patch_containers base patches =
      and_then (patch_base [] (index_by_name patches []) base)
        λ (out, by_name). ok (append_left out by_name patches)

-- `MergePatchDeployment`, which nothing calls.
unfoldable pub merge_patch_deployment :
    StrategicPatch Deployment → Deployment → Deployment → Result Deployment
merge_patch_deployment P base patch =
    and_then (map_err (wrap "failed to marshal JSON for base: ") (P.marshal base)) λ base_bytes.
      and_then (map_err (wrap "failed to marshal JSON for patch: ") (P.marshal patch))
        λ patch_bytes.
          and_then
            (map_err (wrap "failed to generate merge patch: ")
              (P.strategic_merge_patch base_bytes patch_bytes))
            λ json_result.
              map_err (wrap "failed to unmarshal merged deployment: ") (P.unmarshal json_result)
