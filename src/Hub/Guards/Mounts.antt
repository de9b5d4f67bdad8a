-- ===== src/Hub/Guards/Mounts.antt =====
-- Copying config maps keeps what the calls keep.
use swagger_hub_controller.Base.{
  String, Option, none, some, List, [], ◌∷◌, ◌++◌, pure, ◌>>=◌, ◌>>◌, ◌==◌,
}
use swagger_hub_controller.Base.Runs.{Guards, Runs-bind, Runs-pure, Runs-if}
use swagger_hub_controller.Kube.Meta.{key_of}
use swagger_hub_controller.Kube.Workload.{ConfigMap, config_map_object}
use swagger_hub_controller.Kube.Client.{Client}
use swagger_hub_controller.Kube.Guards.{CallsGuard}
use swagger_hub_controller.Shared.Lookup.{find}
use swagger_hub_controller.Shared.Guards.{find-Guards}
use swagger_hub_controller.Hub.Mounts.{
  ApiUrl, MountRef, api_url, copy_name, local_copy, replacing, write_copy, refine_ref, refine_refs,
}

module _ {K : Client} {I : K.World → Type 0} {C : String → Type 0} (G : CallsGuard K I C) where
  write_copy-Guards : (cm : ConfigMap) → Guards I C (write_copy K cm)
  unfolding write_copy
  write_copy-Guards cm =
      Runs-bind {Q = λ _. I} (find K.config_maps (key_of cm)) _
        (find-Guards K.config_maps (key_of cm) (G.config_maps.get (key_of cm))) found
    where
      found :
          (o : Option ConfigMap)
          → Guards I C (elim o [
            | none ↦ K.config_maps.create cm
            | some local_existing ↦ K.config_maps.update (replacing local_existing cm)
          ])
      found none = G.config_map_writes.create cm tt
      found (some e) = G.config_map_writes.update (replacing e cm) tt

  refine_ref-Guards :
      (ns : String) (ref : MountRef) (existing : ConfigMap)
      → Guards I C (refine_ref K ns ref existing)
  unfolding refine_ref
  refine_ref-Guards ns ref existing =
      Runs-if (ref.namespace == ns) (pure ref)
        (write_copy K (local_copy ns existing) >> pure renamed) (λ _. Runs-pure ref (λ w p. p))
        (λ _.
          Runs-bind {Q = λ _. I} (write_copy K (local_copy ns existing)) (λ _. pure renamed)
            (write_copy-Guards (local_copy ns existing)) (λ _. Runs-pure renamed (λ w p. p)))
    where
      renamed : MountRef
      renamed = record ref {
        config_map = copy_name existing.metadata.name existing.metadata.namespace;
      }

  pub refine_refs-Guards :
      (ns url : String) (urls : List ApiUrl) (refined refs : List MountRef)
      → Guards I C (refine_refs K ns url urls refined refs)
  unfolding refine_refs
  refine_refs-Guards ns url urls refined [] = Runs-pure _ (λ w p. p)
  refine_refs-Guards ns url urls refined (ref ∷ refs) =
      Runs-bind {Q = λ _. I}
        (find K.config_maps (record { namespace = ref.namespace; name = ref.config_map })) _
        (find-Guards K.config_maps _ (G.config_maps.get _))
        (found (λ urls refined. refine_refs-Guards ns url urls refined refs))
    where
      found :
          ((urls : List ApiUrl) (refined : List MountRef)
            → Guards I C (refine_refs K ns url urls refined refs))
          → (o : Option ConfigMap)
          → Guards I C (elim o [
            | none ↦ refine_refs K ns url urls refined refs
            | some existing ↦ refine_ref K ns ref existing >>= λ ref'.
                refine_refs K ns url (urls ++ api_url url ref ∷ []) (refined ++ ref' ∷ []) refs
          ])
      found rest none = rest urls refined
      found rest (some existing) =
          Runs-bind {Q = λ _. I} (refine_ref K ns ref existing) _
            (refine_ref-Guards ns ref existing)
            (λ ref'. rest (urls ++ api_url url ref ∷ []) (refined ++ ref' ∷ []))
