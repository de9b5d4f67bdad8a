-- ===== src/Hub/Mounts.antt =====
-- The middle of `reconcile`: which config maps are mounted, and at which urls they are served.
use swagger_hub_controller.Base.{
  String, ◌<>◌, none, some, List, [], ◌∷◌, ◌++◌, map, Action, pure, ◌>>=◌, ◌>>◌, if◌then◌else◌,
  ◌==◌,
}
use swagger_hub_controller.Kube.Meta.{ObjectMeta, key_of}
use swagger_hub_controller.Kube.Workload.{ConfigMap, config_map_object, VolumeProjection}
use swagger_hub_controller.Kube.Client.{Client}
use swagger_hub_controller.Api.Definition.{SwaggerDefinition}
use swagger_hub_controller.Api.Specification.{SwaggerSpecification}
use swagger_hub_controller.Shared.Lookup.{find}

-- `apiURL`
pub record ApiUrl : Type 0 where
  pub name : String
  pub url : String

-- `mountRef`
pub record MountRef : Type 0 where
  pub namespace : String
  pub name : String
  pub config_map : String

unfoldable pub definition_ref : ObjectMeta → MountRef
definition_ref m = record {
  namespace = m.namespace;
  name = m.name;
  config_map = "swagger-definition-" <> m.name;
}

unfoldable pub specification_ref : ObjectMeta → MountRef
specification_ref m = record {
  namespace = m.namespace;
  name = m.name;
  config_map = "swagger-specification-" <> m.name;
}

-- The two loops that fill `refs`.
unfoldable pub mount_refs : List SwaggerDefinition → List SwaggerSpecification → List MountRef
unfolding definition_ref specification_ref
mount_refs definitions specifications =
    map (λ d. definition_ref d.metadata) definitions
    ++ map (λ s. specification_ref s.metadata) specifications

unfoldable pub api_url : String → MountRef → ApiUrl
api_url frontend_url ref = record {
  name = ref.name <> (":" <> ref.namespace);
  url =
      frontend_url
      <> ("/definitions/" <> (ref.namespace <> ("/" <> (ref.name <> "/definition.json"))));
}

-- `fmt.Sprintf("%s-%s", existingSpec.Name, existingSpec.Namespace)`
unfoldable pub copy_name : String → String → String
copy_name name namespace = name <> ("-" <> namespace)

-- The copy of a config map into the namespace of the hub; its owner references are kept.
unfoldable pub local_copy : String → ConfigMap → ConfigMap
unfolding copy_name
local_copy hub_namespace existing = record existing {
  metadata = record (existing.metadata) {
    uid = "";
    resource_version = "";
    name = copy_name existing.metadata.name existing.metadata.namespace;
    namespace = hub_namespace;
  };
}

-- The copy, with the identity of the config map that it replaces.
unfoldable pub replacing : ConfigMap → ConfigMap → ConfigMap
replacing local_existing copy = record copy {
  metadata = record (copy.metadata) {
    uid = local_existing.metadata.uid;
    resource_version = local_existing.metadata.resource_version;
    creation_timestamp = local_existing.metadata.creation_timestamp;
  };
}

-- An entry of `projection.Sources`.
unfoldable pub volume_projection : MountRef → VolumeProjection
volume_projection ref = record {
  config_map = ref.config_map;
  items =
      record {
        key = "definition.json";
        path = ref.namespace <> ("/" <> (ref.name <> "/definition.json"));
      }
      ∷ [];
}

module _ (K : Client) where
  unfoldable pub write_copy : ConfigMap → Action K.World (Unit {0})
  unfolding find replacing
  write_copy copy = do
    found ← find K.config_maps (key_of copy)
    elim found [
      | none ↦ K.config_maps.create copy
      | some local_existing ↦ K.config_maps.update (replacing local_existing copy)
    ]

  -- The body of the loop over `refs`, for a config map that exists.
  unfoldable pub refine_ref : String → MountRef → ConfigMap → Action K.World MountRef
  unfolding local_copy write_copy
  refine_ref hub_namespace ref existing =
      if ref.namespace == hub_namespace
      then pure ref
      else write_copy (local_copy hub_namespace existing)
        >> pure (record ref {
          config_map = copy_name existing.metadata.name existing.metadata.namespace;
        })

  -- The loop over `refs`: the urls and the refined references so far. One without config map is skipped.
  unfoldable pub refine_refs :
      String
      → String
      → List ApiUrl
      → List MountRef
      → List MountRef
      → Action K.World (List ApiUrl × List MountRef)
  unfolding find refine_ref api_url
  refine_refs hub_namespace frontend_url urls refined [] = pure (urls, refined)
  refine_refs hub_namespace frontend_url urls refined (ref ∷ refs) = do
    found ← find K.config_maps (record { namespace = ref.namespace; name = ref.config_map })
    elim found [
      | none ↦ refine_refs hub_namespace frontend_url urls refined refs
      | some existing ↦ do
        ref' ← refine_ref hub_namespace ref existing
        refine_refs hub_namespace frontend_url (urls ++ api_url frontend_url ref ∷ [])
            (refined ++ ref' ∷ []) refs
    ]
