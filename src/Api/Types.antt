-- ===== src/Api/Types.antt =====
-- api/v1alpha1/frontend_types.go, backend_types.go, globalloadbalancer_types.go, peer_types.go.
-- A Go pointer is an `Option`.
use k8s_glb_operator.Base.{ℕ, Bool, String, Option, List}
use k8s_glb_operator.Api.Kube.{Int32, Labels, NamespacedName, ObjectMeta, LabelSelector, Condition}

pub record LoadBalancerReference : Type 0 where
  pub name : String
  pub namespace : String

pub record FrontendServiceSpec : Type 0 where
  pub ip_address : Option String
  pub port : Int32
  pub annotations : Labels

pub record FrontendSpec : Type 0 where
  pub service : Option FrontendServiceSpec
  pub backend_selector : LabelSelector

pub record FrontendStatus : Type 0 where
  pub conditions : List Condition
  pub port : Option Int32
  pub load_balancer : Option LoadBalancerReference

pub record Frontend : Type 0 where
  pub metadata : ObjectMeta
  pub open metadata use {namespace, name, labels}
  pub spec : FrontendSpec
  pub status : FrontendStatus

-- The name under which the API server and the operator's maps know a frontend.
abbrev pub frontend_key : Frontend → NamespacedName
frontend_key fe = record { namespace = fe.namespace; name = fe.name }

-- `Port` is an `int`: the bit pattern of 64 bits.
pub record BackendServerSpec : Type 0 where
  pub name : String
  pub address : String
  pub port : ℕ

pub record BackendSpec : Type 0 where
  pub host : String
  pub strategy : Option String
  pub sticky_sessions : Option Bool
  pub servers : List (Option BackendServerSpec)

pub record BackendStatus : Type 0 where
  pub conditions : List Condition

pub record Backend : Type 0 where
  pub metadata : ObjectMeta
  pub open metadata use {namespace, name, labels}
  pub spec : BackendSpec
  pub status : BackendStatus

pub record PeersSpec : Type 0 where
  pub auto_discover : Bool

pub record GlobalLoadBalancerSpec : Type 0 where
  pub replicas : Int32
  pub image : String
  pub peers : Option PeersSpec
  pub frontend_selector : LabelSelector

pub record GlobalLoadBalancerStatus : Type 0 where
  pub conditions : List Condition

pub record GlobalLoadBalancer : Type 0 where
  pub metadata : ObjectMeta
  pub open metadata use {namespace, name, labels}
  pub spec : GlobalLoadBalancerSpec
  pub status : GlobalLoadBalancerStatus

pub record PeerStatus : Type 0 where
  pub peer_name : String
  pub local_ip : String
  pub remote_ip : String
  pub conditions : List Condition

pub record Peer : Type 0 where
  pub metadata : ObjectMeta
  pub open metadata use {namespace, name, labels}
  pub status : PeerStatus
