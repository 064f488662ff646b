-- ===== src/Controller/StatefulSets.antt =====
-- internal/controller/statefulset.go: `EnsureHAProxyStatefulSet`.
pub mod Server
pub mod Template
pub mod Fresh
pub mod Watched
use k8s_glb_operator.Base.{
  Bool, true, false, String, ◌<>◌, Option, none, some, List, [], ◌∷◌, if◌then◌else◌, string_eq,
}
use k8s_glb_operator.Base.GoMap.{lookup}
use k8s_glb_operator.Api.{
  Labels, LabelSelector, ObjectMeta, Error, Result, ok, err, ◌>>=◌, error_of, GlobalLoadBalancer,
  StatefulSet, StatefulSetSpec, PodTemplateSpec, PodSpec, Container, EnvVar, ContainerPort,
  VolumeMount, SecurityContext, VolumeSource, empty_dir, config_map, Volume, bare_meta,
}
use k8s_glb_operator.Version.{version}
use k8s_glb_operator.Controller.Client.{LoadBalancerClient}
use k8s_glb_operator.Controller.Config.{haproxy_config_map_name}
use k8s_glb_operator.Controller.Frontends.{is_none}

abbrev pub component_label : String
component_label = "app.kubernetes.io/component"

abbrev pub name_label : String
name_label = "app.kubernetes.io/name"

abbrev pub version_label : String
version_label = "app.kubernetes.io/version"

abbrev pub haproxy_run_path : String
haproxy_run_path = "/var/run/haproxy"

abbrev pub haproxy_run_volume_name : String
haproxy_run_volume_name = "haproxy-run"

abbrev pub haproxy_config_path : String
haproxy_config_path = "/etc/haproxy"

abbrev pub haproxy_config_volume_name : String
haproxy_config_volume_name = "haproxy-config"

abbrev pub haproxy_config_map_volume_name : String
haproxy_config_map_volume_name = "haproxy-static-config"

abbrev pub haproxy_config_map_path : String
haproxy_config_map_path = "/etc/haproxy/static"

abbrev pub haproxy_labels : Labels
haproxy_labels = (component_label, "haproxy") ∷ (name_label, "global-load-balancer") ∷ []

-- A missing key of a `map[string]string` reads as the empty text.
abbrev pub or_blank : Option String → String
or_blank none = ""
or_blank (some s) = s

-- The labels of the set, and of its pods.
unfoldable pub set_labels : Labels
set_labels =
    (component_label, or_blank (lookup component_label haproxy_labels))
    ∷ (name_label, or_blank (lookup name_label haproxy_labels))
    ∷ (version_label, version)
    ∷ []

abbrev pub deployment_name : GlobalLoadBalancer → String
deployment_name cluster = cluster.name <> "-haproxy"

unfoldable pub new_set : GlobalLoadBalancer → StatefulSet
new_set cluster = record {
  metadata = bare_meta cluster.namespace (deployment_name cluster);
  spec = record {
    replicas = none;
    template = record {
      labels = [];
      spec = record { run_as_non_root = none; containers = []; volumes = [] };
    };
    selector = none;
  };
}

abbrev pub haproxy_args : List String
haproxy_args =
    "-W" ∷ "-f" ∷ "/etc/haproxy/static/$(POD_NAME).cfg" ∷ "-p" ∷ "/var/run/haproxy/haproxy.pid" ∷ []

unfoldable pub haproxy_container : GlobalLoadBalancer → Container
haproxy_container cluster = record {
  name = "haproxy";
  image = cluster.spec.image;
  args = haproxy_args;
  env = record { name = "POD_NAME"; field_path = "metadata.name" } ∷ [];
  ports =
      record { name = "stats"; protocol = "TCP"; container_port = 8404 }
      ∷ record { name = "metrics"; protocol = "TCP"; container_port = 8405 }
      ∷ [];
  volume_mounts =
      record {
        name = haproxy_config_volume_name;
        mount_path = haproxy_config_path;
        read_only = false;
      }
      ∷ record {
        name = haproxy_config_map_volume_name;
        mount_path = haproxy_config_map_path;
        read_only = true;
      }
      ∷ record { name = haproxy_run_volume_name; mount_path = haproxy_run_path; read_only = false }
      ∷ [];
  security_context = record {
    allow_privilege_escalation = some false;
    run_as_non_root = some true;
    drop = "ALL" ∷ [];
    seccomp_profile = "RuntimeDefault";
  };
}

unfoldable pub set_volumes : GlobalLoadBalancer → List Volume
set_volumes cluster =
    record { name = haproxy_config_volume_name; source = empty_dir "100Mi" }
    ∷ record {
      name = haproxy_config_map_volume_name;
      source = config_map (cluster.name <> "-" <> haproxy_config_map_name);
    }
    ∷ record { name = haproxy_run_volume_name; source = empty_dir "50Mi" }
    ∷ []

unfoldable pub pod_template : GlobalLoadBalancer → PodTemplateSpec
unfolding set_labels haproxy_container set_volumes
pod_template cluster = record {
  labels = set_labels;
  spec = record {
    run_as_non_root = some true;
    containers = haproxy_container cluster ∷ [];
    volumes = set_volumes cluster;
  };
}

-- What the changing function assigns before its guard. The metadata is replaced as a whole.
unfoldable pub assign_set : GlobalLoadBalancer → StatefulSet → StatefulSet
unfolding set_labels pod_template
assign_set cluster deployment = record {
  metadata = record (bare_meta cluster.namespace (deployment_name cluster)) { labels = set_labels };
  spec = record (deployment.spec) {
    replicas = some cluster.spec.replicas;
    template = pod_template cluster;
  };
}

-- The properties that must not change later are set where the creation timestamp is the zero time.
unfoldable pub set_immutable :
    (ObjectMeta → ObjectMeta → Result ObjectMeta)
    → GlobalLoadBalancer
    → StatefulSet
    → Result StatefulSet
set_immutable set_controller_reference cluster deployment =
    if is_none deployment.metadata.creation_timestamp
    then (do
      owned ← set_controller_reference cluster.metadata deployment.metadata
      ok (record deployment {
        metadata = owned;
        spec = record (deployment.spec) {
          selector = some (record { match_labels = haproxy_labels; match_expressions = [] });
        };
      }))
    else ok deployment

unfoldable pub mutate_set :
    (ObjectMeta → ObjectMeta → Result ObjectMeta)
    → GlobalLoadBalancer
    → StatefulSet
    → Result StatefulSet
unfolding assign_set set_immutable
mutate_set set_controller_reference cluster deployment =
    set_immutable set_controller_reference cluster (assign_set cluster deployment)

unfoldable pub ensure_haproxy_stateful_set :
    {S : Type 0} → LoadBalancerClient S → S → GlobalLoadBalancer → S × Option Error
unfolding mutate_set new_set
ensure_haproxy_stateful_set client s cluster =
    let (s', r) =
      client.apply_stateful_set s (new_set cluster)
        (mutate_set client.set_controller_reference cluster) in
    (s', error_of r)
