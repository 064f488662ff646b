-- ===== src/Controller/Wiring.antt =====
-- `SetupWithManager` of internal/controller/globalloadbalancer_controller.go and frontend_controller.go:
-- what each controller watches, and the requests that its watches ask for. What
-- `EnqueueRequestForOwner` queues for an object, by its owner references, is a parameter.
use k8s_glb_operator.Base.{String, List, [], ◌∷◌, ◌++◌, if◌then◌else◌, ◌==◌, string_eq}
use k8s_glb_operator.Api.{NamespacedName, ObjectMeta, meta_key}

-- `For`, `Owns` and `WatchesRawSource` of the builder.
pub data Watch : Type 0 where
  for_objects : String → Watch
  owns : String → Watch
  raw_source : Watch

pub record Registration : Type 0 where
  pub name : String
  pub watches : List Watch

unfoldable pub load_balancer_controller : Registration
load_balancer_controller = record {
  name = "globalloadbalancer";
  watches =
      for_objects "GlobalLoadBalancer" ∷ owns "StatefulSet" ∷ owns "Frontend" ∷ owns "Backend" ∷ [];
}

unfoldable pub frontend_controller : Registration
frontend_controller = record {
  name = "frontend";
  watches = for_objects "Frontend" ∷ raw_source ∷ [];
}

module _ (enqueue_owner : ObjectMeta → List NamespacedName) where
  -- What a created or changed object of a kind asks for.
  unfoldable pub requests_of : List Watch → String → ObjectMeta → List NamespacedName
  requests_of [] kind m = []
  requests_of (for_objects k ∷ watches) kind m =
      (if k == kind then meta_key m ∷ [] else []) ++ requests_of watches kind m
  requests_of (owns k ∷ watches) kind m =
      (if k == kind then enqueue_owner m else []) ++ requests_of watches kind m
  requests_of (raw_source ∷ watches) kind m = requests_of watches kind m
