-- ===== src/Hub/Deployment.antt =====
-- The deployment and the service that `reconcile` makes for a hub.
use swagger_hub_controller.Base.{
  String, ◌<>◌, true, false, Option, none, some, List, [], ◌∷◌, ◌++◌, map, Result, ok, err, panic,
  and_then, if◌then◌else◌, ◌==◌,
}
use swagger_hub_controller.Base.Dict.{Dict, insert}
use swagger_hub_controller.Kube.Meta.{pos, TypeMeta, object_meta}
use swagger_hub_controller.Kube.Workload.{
  Container, Probe, VolumeMount, EnvVar, Volume, projected, PodTemplateSpec, Deployment, Service,
  str_val,
}
use swagger_hub_controller.Api.Hub.{SwaggerHub, DeploymentTemplate}
use swagger_hub_controller.Shared.ConfigMaps.{controlled_by}
use swagger_hub_controller.Hub.Mounts.{ApiUrl, MountRef, volume_projection}
use swagger_hub_controller.Hub.ApiUrls.{marshal_api_urls}

-- `fmt.Sprintf("swagger-ui-%s", hub.Name)`
abbrev pub ui_name : SwaggerHub → String
ui_name hub = "swagger-ui-" <> hub.metadata.name

abbrev no_type : TypeMeta
no_type = record { kind = ""; api_version = "" }

-- The pod template, unless the user gives one.
abbrev pub default_pod_template : PodTemplateSpec
default_pod_template = record {
  labels = none;
  annotations = none;
  spec = record {
    security_context = some (record {
      run_as_user = some (pos 10000);
      run_as_group = some (pos 10000);
      run_as_non_root = some true;
      others = [];
    });
    containers = [];
    volumes = [];
    others = [];
  };
}

-- `deploymentTemplate := &appsv1.Deployment{…}`
unfoldable pub initial_deployment : SwaggerHub → Deployment
initial_deployment hub = record {
  type_meta = no_type;
  metadata =
      object_meta (ui_name hub) hub.metadata.namespace (controlled_by hub.type_meta hub.metadata);
  spec = record {
    replicas = none;
    selector = none;
    template = default_pod_template;
    strategy = record { strategy_type = ""; max_unavailable = none; max_surge = none };
    min_ready_seconds = pos 0;
    revision_history_limit = none;
    paused = false;
    progress_deadline_seconds = none;
  };
  ready_replicas = 0;
}

-- The block on `hub.Spec.DeploymentTemplate`.
unfoldable pub use_template : Option DeploymentTemplate → Deployment → Deployment
use_template none d = d
use_template (some t) d = record d {
  metadata = record (d.metadata) { labels = t.labels; annotations = t.annotations };
  spec = record (d.spec) {
    template = t.spec.template;
    min_ready_seconds = t.spec.min_ready_seconds;
    paused = t.spec.paused;
    progress_deadline_seconds = t.spec.progress_deadline_seconds;
    replicas = t.spec.replicas;
    revision_history_limit = t.spec.revision_history_limit;
    strategy = t.spec.strategy;
  };
}

-- `if m == nil { m = make(map[string]string) }`
abbrev pub or_make : Option (Dict String) → Option (Dict String)
or_make none = some []
or_make (some m) = some m

-- `m[k] = v`
abbrev pub assign_entry : String → String → Option (Dict String) → Result (Option (Dict String))
assign_entry k v none = panic "assignment to entry in nil map"
assign_entry k v (some m) = ok (some (insert k v m))

unfoldable pub make_maps : Deployment → Deployment
make_maps d = record d {
  metadata = record (d.metadata) {
    labels = or_make d.metadata.labels;
    annotations = or_make d.metadata.annotations;
  };
  spec = record (d.spec) {
    template = record (d.spec.template) { labels = or_make d.spec.template.labels };
  };
}

-- The labels by which the deployment finds the pods of a hub.
unfoldable pub selector_labels : SwaggerHub → Dict String
selector_labels hub =
    ("app.kubernetes.io/instance", "swagger-ui")
    ∷ ("app.kubernetes.io/name", "swagger-ui")
    ∷ ("swagger-hub-controller/hub", hub.metadata.name)
    ∷ []

-- The three assignments to one map.
unfoldable pub assign_labels : SwaggerHub → Option (Dict String) → Result (Option (Dict String))
unfolding insert
assign_labels hub labels =
    and_then (assign_entry "app.kubernetes.io/instance" "swagger-ui" labels) λ labels₁.
      and_then (assign_entry "app.kubernetes.io/name" "swagger-ui" labels₁)
        λ labels₂. assign_entry "swagger-hub-controller/hub" hub.metadata.name labels₂

-- The labels of the template and of the deployment are one map: where the template has a map, the
-- assignments to the labels of the deployment are seen in the hub.
unfoldable pub share_labels : SwaggerHub → SwaggerHub
unfolding assign_labels
share_labels hub = elim hub.spec.deployment_template [
  | none ↦ hub
  | some t ↦ elim (assign_labels hub t.labels) [
    | ok labels ↦ record hub {
      spec = record (hub.spec) { deployment_template = some (record t { labels = labels }) };
    }
    | err e ↦ hub
    | panic m ↦ hub
  ]
]

-- The selector, and the labels of the pods and of the deployment.
unfoldable pub label_deployment : SwaggerHub → Deployment → Result Deployment
unfolding selector_labels assign_labels
label_deployment hub d = and_then (assign_labels hub d.spec.template.labels) λ pod_labels.
    and_then (assign_labels hub d.metadata.labels) λ labels. ok (record d {
      metadata = record (d.metadata) { labels = labels };
      spec = record (d.spec) {
        selector =
            some (record { match_labels = some (selector_labels hub); match_expressions = [] });
        template = record (d.spec.template) { labels = pod_labels };
      };
    })

-- `reconcile` up to the labels.
unfoldable pub deployment_template : SwaggerHub → Result Deployment
unfolding initial_deployment use_template make_maps label_deployment
deployment_template hub =
    label_deployment hub
      (make_maps (use_template hub.spec.deployment_template (initial_deployment hub)))

abbrev http_probe : Probe
http_probe = record { port = str_val "http"; path = "/" }

-- `r.DefaultSwaggerUIImage`, or the built-in default.
unfoldable pub swagger_ui_image : String → String
swagger_ui_image configured =
    if configured == "" then "swaggerapi/swagger-ui:latest" else configured

-- The mount of the definitions, if there are any.
unfoldable pub definition_mounts : List MountRef → List VolumeMount
definition_mounts [] = []
definition_mounts (r ∷ refs) =
    record {
      name = "definitions";
      read_only = true;
      mount_path = "/usr/share/nginx/html/definitions";
    }
    ∷ []

-- `API_URLS`, if there are any urls.
unfoldable pub api_urls_env : List ApiUrl → List EnvVar
unfolding marshal_api_urls
api_urls_env [] = []
api_urls_env (u ∷ urls) = record { name = "API_URLS"; value = marshal_api_urls (u ∷ urls) } ∷ []

-- `containers[0]`, as it is merged with the containers of the template.
unfoldable pub swagger_ui_container : String → List ApiUrl → List MountRef → Container
unfolding swagger_ui_image definition_mounts api_urls_env
swagger_ui_container configured_image urls refs = record {
  name = "swagger-ui";
  image = swagger_ui_image configured_image;
  liveness_probe = some http_probe;
  readiness_probe = some http_probe;
  ports = record { name = "http"; container_port = pos 8080 } ∷ [];
  env = api_urls_env urls;
  volume_mounts = definition_mounts refs;
  others = [];
}

-- The volume of the definitions, behind the volumes of the template.
unfoldable pub definition_volumes : List MountRef → List Volume
unfolding volume_projection
definition_volumes [] = []
definition_volumes (r ∷ refs) =
    record { name = "definitions"; volume_source = projected (map volume_projection (r ∷ refs)) }
    ∷ []

-- The deployment with its containers and volumes.
unfoldable pub with_pod : List MountRef → List Container → Deployment → Deployment
unfolding definition_volumes
with_pod refs containers d = record d {
  spec = record (d.spec) {
    template = record (d.spec.template) {
      spec = record (d.spec.template.spec) {
        volumes = d.spec.template.spec.volumes ++ definition_volumes refs;
        containers = containers;
      };
    };
  };
}

-- The labels by which the service finds the pods of a hub.
unfoldable pub service_selector : SwaggerHub → Dict String
service_selector hub =
    ("app.kubernetes.io/instance", "swagger-ui")
    ∷ ("app.kubernetes.io/name", "swagger-ui")
    ∷ ("swagger-hub-controller/hub", hub.metadata.name)
    ∷ []

-- `svcTemplate`
unfoldable pub service_template : SwaggerHub → Service
unfolding service_selector
service_template hub = record {
  type_meta = no_type;
  metadata =
      object_meta (ui_name hub) hub.metadata.namespace (controlled_by hub.type_meta hub.metadata);
  ports = record { name = "http"; port = pos 80; target_port = str_val "http" } ∷ [];
  selector = service_selector hub;
}
