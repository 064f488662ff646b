-- ===== src/Controller/StatefulSets/Template.antt =====
-- How the pods of the set find their configuration (internal/controller/statefulset.go).
use mathlib.Core.List.{Mem, mem-cons_self, mem-cons_of_mem}
use text.Mathlib.TextLemmas.{append_assoc}
use k8s_glb_operator.Base.{
  ◌≡◌, refl, ◌∙◌, true, String, ◌<>◌, Option, none, some, List, [], ◌∷◌, if◌then◌else◌, ◌==◌,
  string_eq,
}
use k8s_glb_operator.Api.{
  GlobalLoadBalancer, PodTemplateSpec, Container, EnvVar, VolumeMount, Volume, config_map,
}
use k8s_glb_operator.Haproxy.HealthCache.Health.{or_else}
use k8s_glb_operator.Controller.Config.{config_key, config_map_name}
use k8s_glb_operator.Controller.StatefulSets.{haproxy_container, set_volumes, pod_template}

-- The field of the pod that a variable has as its value: the last variable of a name counts.
abbrev pub field_of : String → List EnvVar → Option String
field_of x [] = none
field_of x (v ∷ env) = or_else (field_of x env) (if x == v.name then some v.field_path else none)

-- What the kubelet makes of an argument of a container with the variables `env` in a pod: where the
-- variable POD_NAME is the field `metadata.name`, the pod's name stands in its place.
abbrev pub Expands : (List EnvVar → String → String → String) → Type 0
Expands expand =
    (env : List EnvVar) (pod : String)
    → field_of "POD_NAME" env ≡ some "metadata.name"
    → expand env pod "/etc/haproxy/static/$(POD_NAME).cfg" ≡ "/etc/haproxy/static/" <> pod <> ".cfg"

-- A pod of the template is started with a file under the mount of a volume: the entry `key` of the
-- ConfigMap `cfg_map`.
pub record ReadsConfig (expand : List EnvVar → String → String → String)
    (template : PodTemplateSpec) (cfg_map pod key : String) : Type 0 where
  pub container : Container
  pub has_container : Mem container template.spec.containers
  pub file : String
  pub rest : List String
  pub starts_with_file : container.args ≡ "-W" ∷ "-f" ∷ file ∷ rest
  pub mount : VolumeMount
  pub has_mount : Mem mount container.volume_mounts
  pub volume : Volume
  pub has_volume : Mem volume template.spec.volumes
  pub same_name : volume.name ≡ mount.name
  pub of_config_map : volume.source ≡ config_map cfg_map
  pub file_in_mount : expand container.env pod file ≡ mount.mount_path <> "/" <> key

pub pod_template-ReadsConfig :
    (expand : List EnvVar → String → String → String) (cluster : GlobalLoadBalancer) (pod : String)
    → Expands expand
    → ReadsConfig expand (pod_template cluster) (config_map_name cluster) pod (config_key pod)
unfolding pod_template haproxy_container set_volumes string_eq
pod_template-ReadsConfig expand cluster pod expands = record {
  container = haproxy_container cluster;
  has_container = mem-cons_self;
  file = "/etc/haproxy/static/$(POD_NAME).cfg";
  rest = "-p" ∷ "/var/run/haproxy/haproxy.pid" ∷ [];
  starts_with_file = refl;
  mount = record {
    name = "haproxy-static-config";
    mount_path = "/etc/haproxy/static";
    read_only = true;
  };
  has_mount = mem-cons_of_mem _ mem-cons_self;
  volume = record { name = "haproxy-static-config"; source = config_map (config_map_name cluster) };
  has_volume = mem-cons_of_mem _ mem-cons_self;
  same_name = refl;
  of_config_map = refl;
  file_in_mount =
      expands (haproxy_container cluster).env pod refl
      ∙ append_assoc "/etc/haproxy/static" "/" (config_key pod);
}
