-- ===== src/Delivery/Tests/Runs.antt =====
-- Runs over that server: requests and publications in several orders.
use mathlib.Core.List.{mem-cons_self}
use k8s_glb_operator.Base.{refl, inl, [], ◌∷◌, arith, string_eq, bool_eq}
use k8s_glb_operator.Base.GoMap.{lookup, insert}
use k8s_glb_operator.Api.{namespaced_name_eq}
use k8s_glb_operator.Haproxy.HealthCache.{Endpoint}
use k8s_glb_operator.Haproxy.HealthManager.{HealthManager}
use k8s_glb_operator.Haproxy.Monitor.Publish.{collect, consolidate_backend, merge_state}
use k8s_glb_operator.Haproxy.HealthManager
use k8s_glb_operator.Haproxy.HealthCache
use k8s_glb_operator.Delivery.{
  System, Run, here, next, published, handled, wait, request, publish_one, publish_all, handle,
}
use k8s_glb_operator.Delivery.Synced.{IsAgreed, event_of, settled}
use k8s_glb_operator.Delivery.Delivered.{StatesHealth, entries, delivered_health}
use k8s_glb_operator.Delivery.Tests.{
  spec, web, api, Stored, owners, client, find_service, find_slice, own_name, keeps, serves,
  one_Nodup, match_all, in_order, in_order_once, lists, manager, watched, up, computing,
  watched-IsValid, key,
}

-- A request for the frontend waits at first; a publication comes before it is handled, and makes another.
abbrev asked : System Stored
asked = wait (request key (record { manager = manager; store = ((key, web) ∷ [], ([], [])) }))

abbrev told : System Stored
told = publish_one key (up ∷ []) asked

abbrev once_handled : System Stored
once_handled = handle client (event_of key) (event_of key ∷ []) told

abbrev settled_state : System Stored
settled_state = handle client (event_of key) [] once_handled

publishing : Unit {0}
unfolding HealthManager.update HealthCache.update lookup publish_all collect consolidate_backend
    merge_state insert
publishing = tt

a_run : Run client asked settled_state
unfolding publishing
a_run =
    next
      (next (next here (published key (up ∷ []) (ground arith)))
        (handled (event_of key) (event_of key ∷ []) refl))
      (handled (event_of key) [] refl)

settled_example :
    IsAgreed (find_slice settled_state.store key) 10001 settled_state.manager.cache key
unfolding computing
settled_example =
    settled client find_service find_slice owners serves own_name key web spec 10001 refl refl keeps
      a_run refl (inl mem-cons_self) refl

-- The frontend is new, and the monitor publishes before its request is handled.
abbrev created : System Stored
created = request key (record { manager = manager; store = ((key, web) ∷ [], ([], [])) })

abbrev sent : System Stored
sent =
    publish_all (entries match_all in_order lists watched (api ∷ []) (web ∷ []) refl refl) created

abbrev delivered_state : System Stored
delivered_state =
    handle client (event_of key) [] (handle client (event_of key) (event_of key ∷ []) sent)

delivered_health_example : StatesHealth (find_slice delivered_state.store key) 10001 (up ∷ [])
unfolding computing publishing
delivered_health_example =
    delivered_health match_all in_order lists watched (api ∷ []) (web ∷ []) refl refl in_order_once
      watched-IsValid (one_Nodup key) web mem-cons_self (up ∷ []) refl (one_Nodup "10.0.0.1") client
      find_service find_slice owners serves own_name spec 10001 refl refl keeps created
      delivered_state refl (inl mem-cons_self) refl
      (next (next here (handled (event_of key) (event_of key ∷ []) refl))
        (handled (event_of key) [] refl))
      refl refl
