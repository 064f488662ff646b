-- ===== src/Controller/StatefulSets/Watched.antt =====
-- The pods of the set (internal/controller/statefulset.go) and the selector of the monitor
-- (internal/haproxy/haproxymonitor.go).
use k8s_glb_operator.Base.{
  ◌≡◌, refl, ◌∙◌, Bool, true, false, not, ◌||◌, ◌==◌, String, Option, none, some, List, [], ◌∷◌,
  arith, string_eq,
}
use k8s_glb_operator.Base.GoMap.{lookup}
use k8s_glb_operator.Api.{Labels, LabelSelectorRequirement, GlobalLoadBalancer, Pod}
use k8s_glb_operator.Haproxy.Monitor.{Monitor, pod_requirement, on_add, on_delete, pod, filter}
use k8s_glb_operator.Controller.StatefulSets.{name_label, set_labels, pod_template}

-- Whether the label is there with one of the values.
abbrev pub one_of : List String → Option String → Bool
one_of values none = false
one_of [] (some v) = false
one_of (w ∷ values) (some v) = v == w || one_of values (some v)

-- What a selector that is made of a requirement matches, by the requirement's operator.
pub record Selects (r : LabelSelectorRequirement) (selected : Labels → Bool) : Type 0 where
  pub matches_in :
      r.operator ≡ "in"
      → (labels : Labels) → selected labels ≡ one_of r.values (lookup r.key labels)
  pub matches_not_in :
      r.operator ≡ "notin"
      → (labels : Labels) → selected labels ≡ not (one_of r.values (lookup r.key labels))

-- The labels of a pod that was made from the template: others may be added.
abbrev pub HasLabels : Labels → Labels → Type 0
HasLabels wanted labels = (k v : String) → lookup k wanted ≡ some v → lookup k labels ≡ some v

name_of_template : lookup name_label set_labels ≡ some "global-load-balancer"
unfolding set_labels lookup string_eq
name_of_template = refl

-- A selector that is made of the monitor's requirement keeps every pod that has the labels of the set's
-- template: the handlers of its addition and of its deletion run.
pub pods_watched :
    (selected : Labels → Bool) (cluster : GlobalLoadBalancer) (w : Monitor) (p : Pod)
    → Selects pod_requirement selected
    → HasLabels (pod_template cluster).labels p.labels
    → (filter selected on_add w (pod p) ≡ on_add w p)
      × (filter selected on_delete w (pod p) ≡ on_delete w p)
unfolding filter pod_template
pods_watched selected cluster w p selects labelled =
    let named = labelled name_label "global-load-balancer" name_of_template in
    let kept : selected p.labels ≡ true =
      selects.matches_in refl p.labels ∙ rw named (ground arith) in
    (ground (arith, kept), ground (arith, kept))
