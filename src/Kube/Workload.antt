-- ===== src/Kube/Workload.antt =====
-- The built-in resources.
use swagger_hub_controller.Base.{ℕ, String, Bool, List, Option}
use swagger_hub_controller.Base.Dict.{Dict}
use swagger_hub_controller.Kube.Meta.{ℤ, TypeMeta, ObjectMeta, LabelSelector, Object}

-- A byte slice; its content is read by decoders only.
abbrev pub Bytes : Type 0
Bytes = String

-- `corev1.ConfigMap`
pub record ConfigMap : Type 0 where
  pub type_meta : TypeMeta
  pub metadata : ObjectMeta
  pub binary_data : Dict Bytes
  pub string_data : Dict String

-- `corev1.Secret`
pub record Secret : Type 0 where
  pub type_meta : TypeMeta
  pub metadata : ObjectMeta
  pub secret_data : Dict Bytes

-- `corev1.Namespace`
pub record Namespace : Type 0 where
  pub type_meta : TypeMeta
  pub metadata : ObjectMeta

-- `intstr.IntOrString`
pub data IntOrString : Type 0 where
  int_val : ℤ → IntOrString
  str_val : String → IntOrString

-- `corev1.Probe` with an `HTTPGet` handler
pub record Probe : Type 0 where
  pub port : IntOrString
  pub path : String

-- `corev1.ContainerPort`
pub record ContainerPort : Type 0 where
  pub name : String
  pub container_port : ℤ

-- `corev1.VolumeMount`
pub record VolumeMount : Type 0 where
  pub name : String
  pub read_only : Bool
  pub mount_path : String

-- `corev1.EnvVar`
pub record EnvVar : Type 0 where
  pub name : String
  pub value : String

-- `corev1.Container`; `others` holds the fields that only the user's patch sets, in JSON.
pub record Container : Type 0 where
  pub name : String
  pub image : String
  pub liveness_probe : Option Probe
  pub readiness_probe : Option Probe
  pub ports : List ContainerPort
  pub env : List EnvVar
  pub volume_mounts : List VolumeMount
  pub others : Dict String

-- `corev1.KeyToPath`
pub record KeyToPath : Type 0 where
  pub key : String
  pub path : String

-- `corev1.VolumeProjection` of a config map
pub record VolumeProjection : Type 0 where
  pub config_map : String
  pub items : List KeyToPath

-- `corev1.Volume`
pub data VolumeSource : Type 0 where
  projected : List VolumeProjection → VolumeSource
  -- any other source, in JSON
  other_source : String → VolumeSource

pub record Volume : Type 0 where
  pub name : String
  pub volume_source : VolumeSource

-- `corev1.PodSecurityContext`
pub record PodSecurityContext : Type 0 where
  pub run_as_user : Option ℤ
  pub run_as_group : Option ℤ
  pub run_as_non_root : Option Bool
  pub others : Dict String

-- `corev1.PodSpec`
pub record PodSpec : Type 0 where
  pub security_context : Option PodSecurityContext
  pub containers : List Container
  pub volumes : List Volume
  pub others : Dict String

-- `corev1.PodTemplateSpec`
pub record PodTemplateSpec : Type 0 where
  pub labels : Option (Dict String)
  pub annotations : Option (Dict String)
  pub spec : PodSpec

-- `appsv1.DeploymentStrategy`
pub record DeploymentStrategy : Type 0 where
  pub strategy_type : String
  pub max_unavailable : Option IntOrString
  pub max_surge : Option IntOrString

-- `appsv1.DeploymentSpec`
pub record DeploymentSpec : Type 0 where
  pub replicas : Option ℤ
  pub selector : Option LabelSelector
  pub template : PodTemplateSpec
  pub strategy : DeploymentStrategy
  pub min_ready_seconds : ℤ
  pub revision_history_limit : Option ℤ
  pub paused : Bool
  pub progress_deadline_seconds : Option ℤ

-- `appsv1.Deployment`
pub record Deployment : Type 0 where
  pub type_meta : TypeMeta
  pub metadata : ObjectMeta
  pub spec : DeploymentSpec
  pub ready_replicas : ℕ

-- `corev1.ServicePort`
pub record ServicePort : Type 0 where
  pub name : String
  pub port : ℤ
  pub target_port : IntOrString

-- `corev1.Service`
pub record Service : Type 0 where
  pub type_meta : TypeMeta
  pub metadata : ObjectMeta
  pub ports : List ServicePort
  pub selector : Dict String

instance abbrev pub config_map_object : Object ConfigMap
config_map_object = record {
  type_of = λ c. c.type_meta;
  meta_of = λ c. c.metadata;
  with_type = λ t c. record c { type_meta = t };
}

instance abbrev pub secret_object : Object Secret
secret_object = record {
  type_of = λ c. c.type_meta;
  meta_of = λ c. c.metadata;
  with_type = λ t c. record c { type_meta = t };
}

instance abbrev pub namespace_object : Object Namespace
namespace_object = record {
  type_of = λ c. c.type_meta;
  meta_of = λ c. c.metadata;
  with_type = λ t c. record c { type_meta = t };
}

instance abbrev pub deployment_object : Object Deployment
deployment_object = record {
  type_of = λ c. c.type_meta;
  meta_of = λ c. c.metadata;
  with_type = λ t c. record c { type_meta = t };
}

instance abbrev pub service_object : Object Service
service_object = record {
  type_of = λ c. c.type_meta;
  meta_of = λ c. c.metadata;
  with_type = λ t c. record c { type_meta = t };
}
