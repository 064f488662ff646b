-- ===== src/Api/Cluster.antt =====
-- The Services and EndpointSlices of Kubernetes, as far as the operator's code reads or writes them.
use k8s_glb_operator.Base.{Bool, String, Option, none, List, []}
use k8s_glb_operator.Api.Kube.{Int32, NamespacedName, ObjectMeta}

-- `TargetPort` is always made from an `int32`.
pub record ServicePort : Type 0 where
  pub name : String
  pub protocol : String
  pub port : Int32
  pub target_port : Int32

pub record ServiceSpec : Type 0 where
  pub ports : List ServicePort
  pub cluster_ip : String

pub record LoadBalancerIngress : Type 0 where
  pub ip : String

pub record ServiceStatus : Type 0 where
  pub ingress : List LoadBalancerIngress

pub record Service : Type 0 where
  pub metadata : ObjectMeta
  pub open metadata use {namespace, name, labels}
  pub spec : ServiceSpec
  pub status : ServiceStatus

pub record SliceEndpoint : Type 0 where
  pub addresses : List String
  pub ready : Option Bool
  pub node_name : Option String

pub record EndpointPort : Type 0 where
  pub name : Option String
  pub port : Option Int32
  pub protocol : Option String

pub record EndpointSlice : Type 0 where
  pub metadata : ObjectMeta
  pub open metadata use {namespace, name, labels}
  pub address_type : String
  pub endpoints : List SliceEndpoint
  pub ports : List EndpointPort

abbrev pub meta_key : ObjectMeta → NamespacedName
meta_key m = record { namespace = m.namespace; name = m.name }

-- The metadata of an object that is made with a name alone.
abbrev pub bare_meta : String → String → ObjectMeta
bare_meta namespace name = record {
  namespace = namespace;
  name = name;
  uid = "";
  labels = [];
  annotations = [];
  owner_references = [];
  creation_timestamp = none;
}
