-- ===== src/DeepCopy/Structs.antt =====
-- The structs of api/v1alpha1/*_types.go as they lie in memory. The address of a nil pointer, slice or map is none.
use k8s_glb_operator.Base.{String, Option}
use k8s_glb_operator.Api.{Int32}
use k8s_glb_operator.Memory.{Ptr}
use k8s_glb_operator.DeepCopy.{Library}

-- `metav1.TypeMeta`, two texts.
pub record TypeMeta : Type 0 where
  pub kind : String
  pub api_version : String

-- `GlobalLoadBalancerFrontendStatus`
pub record FrontendEntry : Type 0 where
  pub name : String
  pub internal_port : Int32

-- `FrontendServiceSpec`
pub record StoredServiceSpec : Type 0 where
  pub ip_address : Option Ptr
  pub port : Int32
  pub annotations : Option Ptr

pub record StoredFrontendStatus : Type 0 where
  pub conditions : Option Ptr
  pub port : Option Ptr
  pub load_balancer : Option Ptr

pub record StoredBackendSpec : Type 0 where
  pub host : String
  pub strategy : Option Ptr
  pub sticky_sessions : Option Ptr
  pub servers : Option Ptr

-- `BackendStatus` and `GlobalLoadBalancerStatus`, of one field each.
pub record StoredConditions : Type 0 where
  pub conditions : Option Ptr

pub record StoredPeerStatus : Type 0 where
  pub peer_name : String
  pub local_ip : String
  pub remote_ip : String
  pub conditions : Option Ptr

module _ (L : Library) where
  pub record StoredFrontendSpec : Type 0 where
    pub service : Option Ptr
    pub backend_selector : L.label_selector

  pub record StoredLoadBalancerSpec : Type 0 where
    pub replicas : Int32
    pub image : String
    pub peers : Option Ptr
    pub frontend_selector : L.label_selector

  pub record StoredFrontend : Type 0 where
    pub type_meta : TypeMeta
    pub metadata : L.object_meta
    pub spec : StoredFrontendSpec
    pub status : StoredFrontendStatus

  pub record StoredBackend : Type 0 where
    pub type_meta : TypeMeta
    pub metadata : L.object_meta
    pub spec : StoredBackendSpec
    pub status : StoredConditions

  pub record StoredLoadBalancer : Type 0 where
    pub type_meta : TypeMeta
    pub metadata : L.object_meta
    pub spec : StoredLoadBalancerSpec
    pub status : StoredConditions

  pub record StoredPeer : Type 0 where
    pub type_meta : TypeMeta
    pub metadata : L.object_meta
    pub status : StoredPeerStatus

  -- The list of each of the four kinds.
  pub record StoredList : Type 0 where
    pub type_meta : TypeMeta
    pub metadata : L.list_meta
    pub items : Option Ptr
