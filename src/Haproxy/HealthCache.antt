-- ===== src/Haproxy/HealthCache.antt =====
-- internal/haproxy/healthcache.go. The lock makes each method one step, so a method is a function
-- on the cache.
pub mod Health
pub mod Changes
use k8s_glb_operator.Base.{
  Bool, true, false, not, String, Option, none, some, List, [], ◌∷◌, length, eqb, if◌then◌else◌,
  ◌==◌, string_eq, bool_eq,
}
use k8s_glb_operator.Base.GoMap.{GoMap, lookup, insert}
use k8s_glb_operator.Api.{NamespacedName, namespaced_name_eq}

pub record Endpoint : Type 0 where
  pub node_name : String
  pub ip_address : String
  pub healthy : Bool

pub record HealthCache : Type 0 where
  pub endpoints : GoMap NamespacedName (List Endpoint)

unfoldable pub new_health_cache : HealthCache
new_health_cache = record { endpoints = [] }

-- A missing key reads as the empty slice.
abbrev pub or_empty {ℓ} : {A : Type ℓ} → Option (List A) → List A
or_empty none = []
or_empty (some xs) = xs

unfoldable pub get : HealthCache → NamespacedName → List Endpoint
get c frontend = or_empty (lookup frontend c.endpoints)

-- The loop of `GetHealthy`.
unfoldable pub keep_healthy : List Endpoint → List Endpoint
keep_healthy [] = []
keep_healthy (ep ∷ eps) = let rest = keep_healthy eps in if ep.healthy then ep ∷ rest else rest

unfoldable pub get_healthy : HealthCache → NamespacedName → List Endpoint
unfolding keep_healthy
get_healthy c frontend = keep_healthy (or_empty (lookup frontend c.endpoints))

-- The first loop of `Update`: `existingMap[ep.IPAddress] = ep.Healthy`.
unfoldable pub existing_map : List Endpoint → GoMap String Bool → GoMap String Bool
existing_map [] m = m
existing_map (ep ∷ eps) m = existing_map eps (insert ep.ip_address ep.healthy m)

-- `!exists || healthy != ep.Healthy`
abbrev pub differs : Option Bool → Bool → Bool
differs none healthy = true
differs (some was) healthy = not (was == healthy)

-- The second loop of `Update`: whether it returns from inside.
unfoldable pub any_differs : GoMap String Bool → List Endpoint → Bool
any_differs m [] = false
any_differs m (ep ∷ eps) =
    let rest = any_differs m eps in
    if differs (lookup ep.ip_address m) ep.healthy then true else rest

unfoldable pub store : HealthCache → NamespacedName → List Endpoint → HealthCache
store c frontend eps = record c { endpoints = insert frontend eps c.endpoints }

-- What `Update` does once the frontend was found.
unfoldable pub compare_update :
    HealthCache → NamespacedName → List Endpoint → List Endpoint → HealthCache × Bool
unfolding store existing_map any_differs
compare_update c frontend existing updated =
    if not (eqb (length existing) (length updated))
    then (store c frontend updated, true)
    else if any_differs (existing_map existing []) updated
    then (store c frontend updated, true)
    else (c, false)

unfoldable pub update : HealthCache → NamespacedName → List Endpoint → HealthCache × Bool
unfolding compare_update store
update c frontend updated = elim (lookup frontend c.endpoints) [
  | none ↦ (store c frontend updated, true)
  | some existing ↦ compare_update c frontend existing updated
]
