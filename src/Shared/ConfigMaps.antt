-- ===== src/Shared/ConfigMaps.antt =====
-- The last step of the definition and of the specification controller: the config map that holds
-- `definition.json` is created, or updated without regard to who owns it.
use swagger_hub_controller.Base.{
  String, some, List, [], ◌∷◌, true, ok, err, panic, Action, if◌then◌else◌,
}
use swagger_hub_controller.Kube.Meta.{TypeMeta, ObjectMeta, OwnerReference, object_meta, key_of}
use swagger_hub_controller.Kube.Workload.{ConfigMap, config_map_object}
use swagger_hub_controller.Kube.Client.{Client}

-- The owner references that a controller writes: the resource that it reconciles, as controller.
abbrev pub controlled_by : TypeMeta → ObjectMeta → List OwnerReference
controlled_by t m =
    record {
      name = m.name;
      api_version = t.api_version;
      kind = t.kind;
      uid = m.uid;
      controller = some true;
    }
    ∷ []

-- `&corev1.ConfigMap{ObjectMeta: …}`
abbrev pub owned_config_map : String → TypeMeta → ObjectMeta → ConfigMap
owned_config_map name t m = record {
  type_meta = record { kind = ""; api_version = "" };
  metadata = object_meta name m.namespace (controlled_by t m);
  binary_data = [];
  string_data = [];
}

module _ (K : Client) where
  unfoldable pub store_config_map : ConfigMap → Action K.World (Unit {0})
  store_config_map cm w =
      let (r, w') = K.config_maps.get (key_of cm) w in
      elim r [
        | ok existing_spec ↦ K.config_maps.update cm w'
        | err e ↦ if e.is_not_found then K.config_maps.create cm w' else (err e, w')
        | panic m ↦ (panic m, w')
      ]
