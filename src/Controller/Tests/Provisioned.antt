-- ===== src/Controller/Tests/Provisioned.antt =====
-- Both reconcilers of internal/controller over one server with four maps, and the health manager beside
-- them.
use mathlib.Core.List.{Nodup, Nodup-nil, mem-cons_self, mem-cons_of_mem}
use k8s_glb_operator.Base.{
  ◌≡◌, refl, sym, ap, ◌∙◌, true, false, Option, none, some, List, [], ◌∷◌, map, string_eq, bool_eq,
  ne_of_test, arith,
}
use k8s_glb_operator.Base.GoMap.{GoMap, lookup, insert, lookup-insert}
use k8s_glb_operator.Base.Members.{Nodup-cons_of_All}
use k8s_glb_operator.Api.{
  NamespacedName, namespaced_name_eq, ObjectMeta, OwnerReference, Result, not_found, ok, err, Error,
  Frontend, FrontendSpec, FrontendStatus, FrontendServiceSpec, frontend_key, Service, EndpointSlice,
  meta_key,
}
use k8s_glb_operator.Api.Named.{find, find-named}
use k8s_glb_operator.Api.Objects.{
  map_apply, map_apply-Applies, on_first, on_second, on_first-Applies, on_second-Applies,
}
use k8s_glb_operator.Haproxy.HealthCache
use k8s_glb_operator.Haproxy.HealthCache.{HealthCache, Endpoint, get}
use k8s_glb_operator.Haproxy.HealthManager
use k8s_glb_operator.Haproxy.HealthManager.{GenericEvent}
use k8s_glb_operator.Controller.Ports.{get_next_port}
use k8s_glb_operator.Controller.Frontends.{
  FrontendClient, keep_frontends, get_frontends, assign, round, after_update, reconcile_frontends,
}
use k8s_glb_operator.Controller.Frontends.Assigned.{Accepts}
use k8s_glb_operator.Controller.Services.{ServiceClient}
use k8s_glb_operator.Controller.Services.Applied.{Serves, IsServed}
use k8s_glb_operator.Controller.Services.Kept.{Keeps}
use k8s_glb_operator.Controller.Wiring.{requests_of, frontend_controller}
use k8s_glb_operator.Controller.Provisioned.{Shares, both, provisioned}
use k8s_glb_operator.Controller.Tests.{frontend, lb, api, match_all, other_key}
use k8s_glb_operator.Delivery.{
  System, Run, here, next, waits, published, handled, wait, publish_one, handle,
}
use k8s_glb_operator.Delivery.Synced.{IsAgreed, event_of}
use k8s_glb_operator.Delivery.Allotted.{assigned, written, allotted_health}

abbrev Held : Type 0
Held = GoMap NamespacedName (ObjectMeta × FrontendSpec)

abbrev Written : Type 0
Written = GoMap NamespacedName FrontendStatus

abbrev Served : Type 0
Served = GoMap NamespacedName Service × GoMap NamespacedName EndpointSlice

abbrev Server : Type 0
Server = (Held × Written) × Served

abbrev spec : FrontendServiceSpec
spec = record { ip_address = none; port = 443; annotations = [] }

abbrev web : Frontend
web =
    let fe = frontend "web" none none in
    record fe { spec = record (fe.spec) { service = some spec } }

abbrev all : List Frontend
all = api ∷ web ∷ []

abbrev held : Server → NamespacedName → Option (ObjectMeta × FrontendSpec)
held s k = find (λ (x : ObjectMeta × FrontendSpec). x.0) s.0.0 k

abbrev status_of : Server → NamespacedName → Option FrontendStatus
status_of s k = lookup k s.0.1

abbrev frontends : FrontendClient Server
frontends = record {
  list_frontends = λ s matches. ok all;
  update_status = λ s fe. (((s.0.0, insert (frontend_key fe) fe.status s.0.1), s.1), none);
}

abbrev found : Option (ObjectMeta × FrontendSpec) → Option FrontendStatus → Result Frontend
found (some (metadata, spec)) (some status) =
    ok (record { metadata = metadata; spec = spec; status = status })
found _ _ = err not_found

abbrev owners : ObjectMeta → ObjectMeta → List OwnerReference
owners owner m = record { kind = ""; name = owner.name; uid = owner.uid } ∷ []

abbrev services : ServiceClient Server
services = record {
  get_frontend = λ s k. found (held s k) (status_of s k);
  apply_service = on_second (on_first (map_apply (λ (svc : Service). svc.metadata)));
  apply_slice = on_second (on_second (map_apply (λ (es : EndpointSlice). es.metadata)));
  set_controller_reference = λ owner m. ok (record m { owner_references = owners owner m });
}

abbrev find_service : Server → NamespacedName → Option Service
find_service s = find (λ (svc : Service). svc.metadata) s.1.0

abbrev find_slice : Server → NamespacedName → Option EndpointSlice
find_slice s = find (λ (es : EndpointSlice). es.metadata) s.1.1

shares : Shares frontends services status_of held
shares = record {
  read = λ s k metadata spec status there written. rw (there, written) refl;
  kept = λ s fe k. refl;
}

accepts : Accepts frontends status_of
accepts = record {
  accepted = λ s fe. refl;
  written = λ s fe k. lookup-insert k (frontend_key fe) fe.status s.0.1;
}

serves : Serves services find_service find_slice owners
serves = record {
  services =
      on_second-Applies _ _ _
        (on_first-Applies _ _ _ (map_apply-Applies (λ (svc : Service). svc.metadata)));
  slices =
      on_second-Applies _ _ _
        (on_second-Applies _ _ _ (map_apply-Applies (λ (es : EndpointSlice). es.metadata)));
  owned = λ owner m. refl;
  slice_kept = λ s made mutate k. refl;
  service_kept = λ s made mutate k. refl;
}

abbrev at_first : Server
at_first = (
  (
    (frontend_key api, (api.metadata, api.spec))
        ∷ (frontend_key web, (web.metadata, web.spec))
        ∷ [],
    (frontend_key api, api.status) ∷ (frontend_key web, web.status) ∷ [],
  ),
  ([], []),
)

abbrev health : HealthCache
health = record {
  endpoints =
      (
        frontend_key web,
        record { node_name = "node-1"; ip_address = "10.0.0.1"; healthy = true } ∷ [],
      )
      ∷ [];
}

listed : get_frontends frontends match_all at_first lb false ≡ ok all
unfolding get_frontends keep_frontends string_eq
listed = refl

distinct : Nodup (map frontend_key all)
distinct =
    Nodup-cons_of_All _ _ (other_key _ _ (ne_of_test _ _ refl), tt)
      (Nodup-cons_of_All _ _ tt Nodup-nil)

-- `web` has no port, and gets the one after that of `api`.
abbrev passed : Server × Option Error
passed =
    both frontends services status_of held shares accepts find_service find_slice owners serves
      match_all 10000 at_first lb all listed distinct health web

provisioned_example :
    (passed.1 ≡ none)
    × IsServed
        (find_service passed.0 (frontend_key web))
        (find_slice passed.0 (frontend_key web))
        web
        spec
        (get_next_port all 10000)
        (get health (frontend_key web))
unfolding lookup namespaced_name_eq string_eq
provisioned_example =
    provisioned frontends services status_of held shares accepts find_service find_slice owners
      serves match_all 10000 at_first lb all listed distinct health web spec
      (mem-cons_of_mem api mem-cons_self) refl refl refl

-- What is found has the name that is asked for.
found_named :
    (k : NamespacedName) (o : Option (ObjectMeta × FrontendSpec)) (status : Option FrontendStatus)
    (fe : Frontend)
    → ((m : ObjectMeta × FrontendSpec) → o ≡ some m → meta_key m.0 ≡ k)
    → found o status ≡ ok fe
    → frontend_key fe ≡ k
found_named k none status fe own got = absurd cc
found_named k (some m) none fe own got = absurd cc
found_named k (some m) (some status) fe own got =
    let same : record { metadata = m.0; spec = m.1; status = status } ≡ fe = cc got in
    ap frontend_key (sym same) ∙ own m refl

own_name :
    (s : Server) (k : NamespacedName) (fe : Frontend)
    → services.get_frontend s k ≡ ok fe
    → frontend_key fe ≡ k
own_name s k fe =
    found_named k (held s k) (status_of s k) fe
      (find-named (λ (x : ObjectMeta × FrontendSpec). x.0) k (lookup k s.0.0))

keeps : Keeps services (λ s. services.get_frontend s (frontend_key web))
keeps = record { by_service = λ s made mutate. refl; by_slice = λ s made mutate. refl }

-- The request that the pass makes is handled after the health manager has published.
abbrev at_start : System Server
at_start = record {
  manager = record {
    cache = record { endpoints = [] };
    events = record { waiting = 0; delivered = [] };
  };
  store = at_first;
}

abbrev given : System Server
given =
    assigned frontends services status_of held shares accepts find_service find_slice owners serves
      (λ m. []) match_all 10000 lb all at_start

abbrev up : Endpoint
up = record { node_name = "node-1"; ip_address = "10.0.0.1"; healthy = true }

abbrev told : System Server
told = publish_one (frontend_key web) (up ∷ []) (wait given)

abbrev own_event : GenericEvent
own_event = event_of (frontend_key web)

abbrev at_end : System Server
at_end = handle services own_event [] (handle services own_event (own_event ∷ []) told)

computing : Unit {0}
unfolding get_frontends keep_frontends string_eq bool_eq lookup insert namespaced_name_eq
    reconcile_frontends assign round after_update written requests_of frontend_controller
    HealthManager.update HealthCache.update
computing = tt

a_run : Run services given at_end
unfolding computing
a_run =
    next
      (next (next (next here waits) (published (frontend_key web) (up ∷ []) (ground arith)))
        (handled own_event (own_event ∷ []) refl))
      (handled own_event [] refl)

allotted_health_example :
    IsAgreed
      (find_slice at_end.store (frontend_key web))
      (get_next_port all 10000)
      at_end.manager.cache
      (frontend_key web)
unfolding computing
allotted_health_example =
    allotted_health frontends services status_of held shares accepts find_service find_slice owners
      serves (λ m. []) match_all 10000 lb all own_name at_start at_end listed distinct web spec
      (mem-cons_of_mem api mem-cons_self) keeps refl refl refl refl a_run refl
