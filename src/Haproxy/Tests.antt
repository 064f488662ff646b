-- ===== src/Haproxy/Tests.antt =====
-- Concrete runs of internal/haproxy, and the theorems at inputs where their hypotheses hold.
mod Monitors
mod Configs
use mathlib.Core.List.{
  Nodup, Perm, Nodup-cons, Nodup-nil, not-mem-nil, mem-cons_self, mem-cons_of_mem, mem-cons,
}
use mathlib.Core.List.Perm
use mathlib.Core.HLevel.{⊥_prop}
use mathlib.Core.Logic.Or
use k8s_glb_operator.Base.{
  ℕ, ◌≡◌, sym, ◌≢◌, ◌↔◌, refl, ◌&&◌, ltb, true, false, String, some, none, [], ◌∷◌, ◌++◌, List,
  string_eq, bool_eq, ne_of_test, if◌then◌else◌, ◌==◌,
}
use k8s_glb_operator.Base.GoMap.{lookup, insert}
use k8s_glb_operator.Api.{NamespacedName, namespaced_name_eq}
use k8s_glb_operator.Haproxy.HealthCache.{
  Endpoint, HealthCache, get, update, existing_map, any_differs,
}
use k8s_glb_operator.Haproxy.HealthCache.Health.{addresses, health_of}
use k8s_glb_operator.Haproxy.HealthCache.Changes.{
  IsSettled, update-quiet_iff, lookup-update, update_conflict,
}
use k8s_glb_operator.Haproxy.HealthManager
use k8s_glb_operator.Haproxy.HealthManager.{HealthManager, GenericEvent}
use k8s_glb_operator.Haproxy.HealthManager.Events.{publish_rounds, lost_event}

ne_ab : ◌≢◌ {A = String} "10.0.0.1" "10.0.0.2"
ne_ab = ne_of_test _ _ refl

two_Nodup {ℓ} : {A : Type ℓ} (a b : A) → a ≢ b → Nodup (a ∷ b ∷ [])
two_Nodup a b differ =
    Nodup-cons.1
      (λ m. Or.elim ⊥_prop (mem-cons.0 m) differ not-mem-nil, Nodup-cons.1 (not-mem-nil, Nodup-nil))

one_Nodup {ℓ} : {A : Type ℓ} (a : A) → Nodup (a ∷ [])
one_Nodup a = Nodup-cons.1 (not-mem-nil, Nodup-nil)

abbrev web : NamespacedName
web = record { namespace = "glb"; name = "web" }

abbrev mail : NamespacedName
mail = record { namespace = "glb"; name = "mail" }

abbrev first : Endpoint
first = record { node_name = "node-1"; ip_address = "10.0.0.1"; healthy = true }

abbrev second : Endpoint
second = record { node_name = "node-2"; ip_address = "10.0.0.2"; healthy = false }

abbrev cached : HealthCache
cached = record { endpoints = (web, first ∷ second ∷ []) ∷ [] }

cached_distinct : Nodup (addresses (first ∷ second ∷ []))
cached_distinct = two_Nodup "10.0.0.1" "10.0.0.2" ne_ab

computing : Unit {0}
unfolding update existing_map any_differs lookup insert namespaced_name_eq string_eq bool_eq
    health_of
computing = tt

update_same : update cached web (second ∷ first ∷ []) ≡ (cached, false)
unfolding computing
update_same = refl

update-quiet_iff_example : ((update cached web (second ∷ first ∷ [])).1 ≡ false) ↔ (
    (existing : List Endpoint) × (lookup web cached.endpoints ≡ some existing)
    × IsSettled existing (second ∷ first ∷ []))
update-quiet_iff_example = update-quiet_iff cached web (second ∷ first ∷ [])

abbrev failing : Endpoint
failing = record first { healthy = false }

update_conflict_example : (update cached web (first ∷ failing ∷ [])).1 ≡ true
update_conflict_example =
    update_conflict cached web (first ∷ failing ∷ []) first failing mem-cons_self
      (mem-cons_of_mem first mem-cons_self) refl (λ e. cc)

-- No receiver waits on the channel.
abbrev idle : HealthManager
idle = record { cache = cached; events = record { waiting = 0; delivered = [] } }

lost_event_example :
    (publish_rounds
      (HealthManager.update idle mail (first ∷ second ∷ []))
      mail
      ((3, second ∷ first ∷ []) ∷ (1, first ∷ second ∷ []) ∷ [])).events.delivered
    ≡ []
unfolding computing
lost_event_example =
    lost_event idle mail (first ∷ second ∷ [])
      ((3, second ∷ first ∷ []) ∷ (1, first ∷ second ∷ []) ∷ []) refl refl cached_distinct
      (Perm.swap second first [], (Perm.refl (first ∷ second ∷ []), tt))
