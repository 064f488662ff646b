-- ===== src/Haproxy/Monitor/Invariant.antt =====
-- The invariant of the monitor, kept by each of its critical sections: the informer's handlers, a
-- tick's snapshot, the recording of one metric by a scrape's goroutine, and the publication
-- (internal/haproxy/haproxymonitor.go).
use k8s_glb_operator.Base.{
  ◌≡◌, refl, sym, subst, ◌≢◌, Bool, String, Option, [], ◌∷◌, arith, string_eq, All, inl, inr,
}
use k8s_glb_operator.Base.GoMap.{
  GoMap, NodupKeys, insert-NodupKeys, erase-NodupKeys, All-insert, All-erase,
}
use k8s_glb_operator.Api.{Uid, Labels, LabelSelector, Pod}
use k8s_glb_operator.Haproxy.Monitor.{
  Monitor, ScrapeTarget, InformerObject, pod, other, on_add, on_update, on_delete, filter,
  filter_update,
}
use k8s_glb_operator.Haproxy.Monitor.Scrape.{
  Metric, target_of, add_target, collect_targets, snapshot_targets, record_metric, record_state,
  record_metric_cases,
}
use k8s_glb_operator.Haproxy.Monitor.Publish.{Ranges, Lister, update_health_manager}
use k8s_glb_operator.Haproxy.Monitor.States.{
  IsWellFormed, set_state-IsWellFormed, drop_pod-IsWellFormed,
}

abbrev pub IsKeyed : Uid × Pod → Type 0
IsKeyed e = e.1.uid ≡ e.0

abbrev pub IsTarget : Uid × ScrapeTarget → Type 0
IsTarget e = (e.1.uid ≡ e.0) × (e.1.ip ≢ "")

pub record IsValid (w : Monitor) : Type 0 where
  pub pods_distinct : NodupKeys w.pods
  pub pods_keyed : All IsKeyed w.pods
  pub targeted : All IsTarget w.scrape_targets
  pub recorded : IsWellFormed w.endpoint_states

add_target-IsTarget :
    (uid : Uid) (p : Pod) (targets : GoMap Uid ScrapeTarget)
    → p.uid ≡ uid
    → All IsTarget targets
    → All IsTarget (add_target uid p targets)
unfolding add_target
add_target-IsTarget uid p targets keyed h =
    ground (arith, All-insert IsTarget p.uid (target_of uid p) targets)

collect_targets-IsTarget :
    (pods : GoMap Uid Pod) (targets : GoMap Uid ScrapeTarget)
    → All IsKeyed pods
    → All IsTarget targets
    → All IsTarget (collect_targets pods targets)
unfolding collect_targets
collect_targets-IsTarget [] targets keyed h = h
collect_targets-IsTarget ((uid, p) ∷ pods) targets keyed h =
    collect_targets-IsTarget pods (add_target uid p targets) keyed.1
      (add_target-IsTarget uid p targets keyed.0 h)

pub on_add-IsValid : (w : Monitor) (p : Pod) → IsValid w → IsValid (on_add w p)
unfolding on_add
on_add-IsValid w p v = record {
  pods_distinct = insert-NodupKeys p.uid p w.pods v.pods_distinct;
  pods_keyed = All-insert IsKeyed p.uid p w.pods refl v.pods_keyed;
  targeted = v.targeted;
  recorded = v.recorded;
}

pub on_update-IsValid : (w : Monitor) (old new : Pod) → IsValid w → IsValid (on_update w old new)
unfolding on_update
on_update-IsValid w old new v = record {
  pods_distinct = insert-NodupKeys new.uid new _ (erase-NodupKeys old.uid w.pods v.pods_distinct);
  pods_keyed =
      All-insert IsKeyed new.uid new _ refl (All-erase IsKeyed old.uid w.pods v.pods_keyed);
  targeted = v.targeted;
  recorded = v.recorded;
}

pub on_delete-IsValid : (w : Monitor) (p : Pod) → IsValid w → IsValid (on_delete w p)
unfolding on_delete
on_delete-IsValid w p v = record {
  pods_distinct = erase-NodupKeys p.uid w.pods v.pods_distinct;
  pods_keyed = All-erase IsKeyed p.uid w.pods v.pods_keyed;
  targeted = v.targeted;
  recorded = drop_pod-IsWellFormed p.uid w.endpoint_states v.recorded;
}

pub snapshot_targets-IsValid : (w : Monitor) → IsValid w → IsValid (snapshot_targets w)
unfolding snapshot_targets
snapshot_targets-IsValid w v = record {
  pods_distinct = v.pods_distinct;
  pods_keyed = v.pods_keyed;
  targeted = collect_targets-IsTarget w.pods [] v.pods_keyed tt;
  recorded = v.recorded;
}

module _ (selected : Labels → Bool) where
  pub filter-IsValid :
      (handler : Monitor → Pod → Monitor)
      → ((w : Monitor) (p : Pod) → IsValid w → IsValid (handler w p))
      → (w : Monitor) (obj : InformerObject) → IsValid w
      → IsValid (filter selected handler w obj)
  unfolding filter
  filter-IsValid handler keep w (pod p) v = ground (arith, keep w p v)
  filter-IsValid handler keep w other v = v

  pub filter_update-IsValid :
      (w : Monitor) (old new : InformerObject)
      → IsValid w
      → IsValid (filter_update selected on_update w old new)
  unfolding filter_update
  filter_update-IsValid w (pod p) (pod q) v = ground (arith, on_update-IsValid w p q v)
  filter_update-IsValid w _ _ v = v

pub record_state-IsValid :
    (backend : String) (uid : Uid) (up : Bool) (w : Monitor)
    → IsValid w
    → IsValid (record_state backend uid up w)
unfolding record_state
record_state-IsValid backend uid up w v = record {
  pods_distinct = v.pods_distinct;
  pods_keyed = v.pods_keyed;
  targeted = v.targeted;
  recorded = set_state-IsWellFormed backend uid up w.endpoint_states v.recorded;
}

module _ {Number : Type 0} (above_zero : Number → Bool) where
  pub record_metric-IsValid :
      (uid : Uid) (metric : Metric Number) (w : Monitor)
      → IsValid w
      → IsValid (record_metric above_zero uid metric w)
  record_metric-IsValid uid metric w v = elim (record_metric_cases above_zero uid metric w) [
    | inl same ↦ subst IsValid (sym same) v
    | inr (g, _, _, e) ↦ subst IsValid (sym e) (record_state-IsValid _ uid (above_zero g) w v)
  ]

module _ (as_selector : LabelSelector → Option (Labels → Bool)) (ranges : Ranges)
    (client : Lister) where
  pub update_health_manager-IsValid :
      (w : Monitor) → IsValid w → IsValid (update_health_manager as_selector ranges client w).0
  unfolding update_health_manager
  update_health_manager-IsValid w v = ground arith
