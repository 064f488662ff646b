-- ===== src/Api/Workloads.antt =====
-- The ConfigMaps and StatefulSets of Kubernetes, as far as the operator's code reads or writes them.
use k8s_glb_operator.Base.{Bool, String, Option, List}
use k8s_glb_operator.Base.GoMap.{GoMap}
use k8s_glb_operator.Api.Kube.{Int32, ObjectMeta, Labels, LabelSelector}

-- `entries` is the field `Data`, a map that may be nil: none.
pub record ConfigMap : Type 0 where
  pub metadata : ObjectMeta
  pub open metadata use {namespace, name}
  pub entries : Option (GoMap String String)

-- The value of a variable is a field of the pod itself.
pub record EnvVar : Type 0 where
  pub name : String
  pub field_path : String

pub record ContainerPort : Type 0 where
  pub name : String
  pub protocol : String
  pub container_port : Int32

pub record VolumeMount : Type 0 where
  pub name : String
  pub mount_path : String
  pub read_only : Bool

pub record SecurityContext : Type 0 where
  pub allow_privilege_escalation : Option Bool
  pub run_as_non_root : Option Bool
  pub drop : List String
  pub seccomp_profile : String

pub record Container : Type 0 where
  pub name : String
  pub image : String
  pub args : List String
  pub env : List EnvVar
  pub ports : List ContainerPort
  pub volume_mounts : List VolumeMount
  pub security_context : SecurityContext

-- A size limit is kept as the text that `resource.MustParse` reads.
pub data VolumeSource : Type 0 where
  empty_dir : String → VolumeSource
  config_map : String → VolumeSource

pub record Volume : Type 0 where
  pub name : String
  pub source : VolumeSource

pub record PodSpec : Type 0 where
  pub run_as_non_root : Option Bool
  pub containers : List Container
  pub volumes : List Volume

pub record PodTemplateSpec : Type 0 where
  pub labels : Labels
  pub spec : PodSpec

pub record StatefulSetSpec : Type 0 where
  pub replicas : Option Int32
  pub template : PodTemplateSpec
  pub selector : Option LabelSelector

pub record StatefulSet : Type 0 where
  pub metadata : ObjectMeta
  pub open metadata use {namespace, name, labels}
  pub spec : StatefulSetSpec
