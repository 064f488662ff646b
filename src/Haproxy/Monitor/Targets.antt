-- ===== src/Haproxy/Monitor/Targets.antt =====
-- The scrape targets of a tick (internal/haproxy/haproxymonitor.go).
use k8s_glb_operator.Base.{
  ◌≡◌, refl, sym, subst, ◌∙◌, Option, none, some, [], ◌∷◌, arith, if◌then◌else◌, ◌==◌, string_eq,
  All, not,
}
use k8s_glb_operator.Base.GoMap.{GoMap, lookup, lookup-insert, NodupKeys}
use k8s_glb_operator.Api.{Uid, Pod}
use k8s_glb_operator.Haproxy.HealthCache.Health.{or_else}
use k8s_glb_operator.Haproxy.Monitor.{Monitor, ScrapeTarget}
use k8s_glb_operator.Haproxy.Monitor.Scrape.{
  collect_targets, add_target, target_of, snapshot_targets,
}
use k8s_glb_operator.Haproxy.Monitor.Invariant.{IsValid, IsKeyed}

-- The target of a pod: none without a pod or without an address.
abbrev pub target_for : Uid → Option Pod → Option ScrapeTarget
target_for uid none = none
target_for uid (some p) = if not (p.pod_ip == "") then some (target_of uid p) else none

or_else-none {ℓ} : {A : Type ℓ} (o : Option A) → or_else o none ≡ o
or_else-none none = refl
or_else-none (some a) = refl

lookup-add_target :
    (k uid : Uid) (p : Pod) (targets : GoMap Uid ScrapeTarget)
    → p.uid ≡ uid
    → lookup k (add_target uid p targets) ≡ (
        if k == uid then or_else (target_for uid (some p)) (lookup k targets) else lookup k targets)
unfolding add_target
lookup-add_target k uid p targets keyed =
    ground (arith, lookup-insert k p.uid (target_of uid p) targets)

lookup-collect_targets :
    (k : Uid) (pods : GoMap Uid Pod) (targets : GoMap Uid ScrapeTarget)
    → NodupKeys pods
    → All IsKeyed pods
    → lookup k (collect_targets pods targets)
      ≡ or_else (target_for k (lookup k pods)) (lookup k targets)
unfolding collect_targets lookup
lookup-collect_targets k [] targets d keyed = refl
lookup-collect_targets k ((uid, p) ∷ pods) targets (fresh, d) (own, keyed) =
    let rest = lookup-collect_targets k pods (add_target uid p targets) d keyed in
    elim (string_eq.dec k uid) [
      | yes same ↦
          let gone = subst (λ u. lookup u pods ≡ none) (sym same) fresh in
          rest ∙ ground (arith, lookup-add_target k uid p targets own, gone)
      | no differ ↦ rest ∙ ground (arith, lookup-add_target k uid p targets own)
    ]

-- On a valid monitor the snapshot has a target exactly for each pod with an address, and it is made
-- of that pod's fields.
pub snapshot-target :
    (w : Monitor) (uid : Uid)
    → IsValid w
    → lookup uid (snapshot_targets w).scrape_targets ≡ target_for uid (lookup uid w.pods)
unfolding snapshot_targets lookup
snapshot-target w uid v =
    lookup-collect_targets uid w.pods [] v.pods_distinct v.pods_keyed
    ∙ or_else-none (target_for uid (lookup uid w.pods))
