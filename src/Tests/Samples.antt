-- ===== src/Tests/Samples.antt =====
-- Resources for the tests.
use swagger_hub_controller.Base.{String, true, false, Option, none, some, [], ◌∷◌}
use swagger_hub_controller.Kube.Meta.{pos, TypeMeta, OwnerReference, LabelSelector, object_meta}
use swagger_hub_controller.Kube.Workload.{Bytes, ConfigMap, Secret, Container, Deployment, Service}
use swagger_hub_controller.Api.Definition.{SwaggerDefinition, BasicAuth, DefinitionAuth}
use swagger_hub_controller.Api.Hub.{SwaggerHub}
use swagger_hub_controller.Hub.Deployment.{default_pod_template}
use swagger_hub_controller.Tests.Cluster.{Cluster, empty_cluster}

abbrev pub type_of : String → TypeMeta
type_of kind = record { kind = kind; api_version = "swagger.infra.doodle.com/v1beta1" }

abbrev pub credentials : Secret
credentials = record {
  type_meta = record { kind = "Secret"; api_version = "v1" };
  metadata = object_meta "login" "apps" [];
  secret_data = ("username", "me") ∷ ("password", "secret") ∷ [];
}

abbrev pub login : BasicAuth
login = record {
  username = "";
  secret_ref = record { name = "login"; username_field = ""; password_field = "" };
  allow_insecure = false;
}

abbrev pub definition_at : String → Option DefinitionAuth → SwaggerDefinition
definition_at url auth = record {
  type_meta = type_of "SwaggerDefinition";
  metadata = record (object_meta "pets" "apps" []) { generation = 3 };
  spec = record { url = some url; suspend = false; interval = pos 0; timeout = pos 0; auth = auth };
  status = record { conditions = []; observed_generation = 2 };
}

abbrev pub private_pets : SwaggerDefinition
private_pets = definition_at "https://pets/openapi.json" (some (record { basic = some login }))

abbrev pub insecure_pets : SwaggerDefinition
insecure_pets = definition_at "http://pets/openapi.json" (some (record { basic = some login }))

abbrev pub hub_in : String → String → Option LabelSelector → SwaggerHub
hub_in namespace name selector = record {
  type_meta = type_of "SwaggerHub";
  metadata = record (object_meta name namespace []) { uid = "u1"; generation = 1 };
  spec = record {
    deployment_template = none;
    frontend_url = "";
    suspend = false;
    wait = true;
    definition_selector = some (record { match_labels = none; match_expressions = [] });
    specification_selector = none;
    namespace_selector = selector;
  };
  status = record { conditions = []; observed_generation = 0; sub_resource_catalog = [] };
}

abbrev pub own_hub : SwaggerHub
own_hub = hub_in "apps" "own" none

abbrev pub broken_hub : SwaggerHub
broken_hub = hub_in "apps" "broken" (
    some (record {
      match_labels = none;
      match_expressions = record { key = "team"; operator = "Near"; values = [] } ∷ [];
    }))

-- Another hub of the same name, with another uid.
abbrev pub foreign_owner : OwnerReference
foreign_owner = record {
  name = "own";
  api_version = "swagger.infra.doodle.com/v1beta1";
  kind = "SwaggerHub";
  uid = "u0";
  controller = some true;
}

-- A service that another hub of the same name, with another uid, owns.
abbrev pub foreign_service : Service
foreign_service = record {
  type_meta = record { kind = "Service"; api_version = "v1" };
  metadata = object_meta "swagger-ui-own" "apps" (foreign_owner ∷ []);
  ports = [];
  selector = [];
}

abbrev pub ready_deployment : Deployment
ready_deployment = record {
  type_meta = record { kind = "Deployment"; api_version = "apps/v1" };
  metadata = object_meta "swagger-ui-own" "apps" [];
  spec = record {
    replicas = none;
    selector = none;
    template = default_pod_template;
    strategy = record { strategy_type = ""; max_unavailable = none; max_surge = none };
    min_ready_seconds = pos 0;
    revision_history_limit = none;
    paused = false;
    progress_deadline_seconds = none;
  };
  ready_replicas = 2;
}

abbrev pub config_map : String → String → Bytes → ConfigMap
config_map namespace name b = record {
  type_meta = record { kind = "ConfigMap"; api_version = "v1" };
  metadata = object_meta name namespace [];
  binary_data = ("definition.json", b) ∷ [];
  string_data = [];
}

abbrev pub apps : Cluster
apps = record empty_cluster {
  hubs = own_hub ∷ [];
  definitions = private_pets ∷ [];
  secrets = credentials ∷ [];
  services = foreign_service ∷ [];
  deployments = ready_deployment ∷ [];
  config_maps =
      config_map "apps" "swagger-definition-pets" "{}"
      ∷ config_map "other" "swagger-definition-birds" "{}"
      ∷ [];
}

abbrev pub container : String → String → Container
container name image = record {
  name = name;
  image = image;
  liveness_probe = none;
  readiness_probe = none;
  ports = [];
  env = [];
  volume_mounts = [];
  others = [];
}
