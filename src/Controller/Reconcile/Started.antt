-- ===== src/Controller/Reconcile/Started.antt =====
-- The pods of a StatefulSet and the entries of a ConfigMap with which they are started
-- (internal/controller/statefulset.go, internal/haproxy/configbuilder.go).
use text.Mathlib.TextLemmas.{append_assoc}
use k8s_glb_operator.Base.{
  ℕ, zero, suc, ◌<◌, ◌≡◌, refl, sym, ap, subst, ◌∙◌, String, ◌<>◌, string_eq, Option, some, List,
  [], ◌∷◌, All, arith,
}
use k8s_glb_operator.Base.GoMap.{GoMap, lookup}
use k8s_glb_operator.Api.{Int32, EnvVar, GlobalLoadBalancer, ConfigMap, StatefulSet}
use k8s_glb_operator.Haproxy.ConfigBuilder.{passes}
use k8s_glb_operator.Haproxy.ConfigBuilder.Replicas.{is_pod-replica}
use k8s_glb_operator.Controller.Config.{config_key, config_map_name}
use k8s_glb_operator.Controller.Config.Written.{HoldsConfigs}
use k8s_glb_operator.Controller.StatefulSets.{pod_template}
use k8s_glb_operator.Controller.StatefulSets.Template.{
  Expands, ReadsConfig, pod_template-ReadsConfig,
}

-- The pods of a StatefulSet have its name, a dash and their number.
abbrev pub NumbersPods : (Int32 → String) → (StatefulSet → ℕ → String) → Type 0
NumbersPods show32 name_pod =
    (set : StatefulSet) (i : ℕ) → name_pod set i ≡ set.name <> "-" <> show32 i

-- The pod is started with a file that is an entry of the ConfigMap, and this entry is the text.
pub record IsStarted (expand : List EnvVar → String → String → String) (set : StatefulSet)
    (cfg_map : ConfigMap) (text pod : String) : Type 0 where
  pub key : String
  pub reads : ReadsConfig expand set.spec.template cfg_map.name pod key
  pub entries : GoMap String String
  pub has_entries : cfg_map.entries ≡ some entries
  pub entry : lookup key entries ≡ some text

abbrev pub numbers : ℕ → List ℕ
numbers zero = []
numbers (suc n) = n ∷ numbers n

numbers-All : {P : ℕ → Type 0} (n : ℕ) → ((i : ℕ) → i < n → P i) → All P (numbers n)
numbers-All zero h = tt
numbers-All (suc n) h = (h n (omega arith), numbers-All n (λ i below. h i (omega (arith, below))))

module _ (show32 : Int32 → String) (show64 : ℕ → String) (name_pod : StatefulSet → ℕ → String)
    (named : NumbersPods show32 name_pod) (expand : List EnvVar → String → String → String)
    (expands : Expands expand) (lb : GlobalLoadBalancer) (set : StatefulSet)
    (same_name : set.name ≡ lb.name <> "-haproxy")
    (same_template : set.spec.template ≡ pod_template lb) where
  pod_name-eq : (i : ℕ) → name_pod set i ≡ lb.name <> "-haproxy-" <> show32 i
  pod_name-eq i =
      named set i
      ∙ ap (λ name. name <> "-" <> show32 i) same_name
      ∙ append_assoc lb.name "-haproxy" ("-" <> show32 i)
      ∙ ap (λ rest. lb.name <> rest) (sym (append_assoc "-haproxy" "-" (show32 i)))

  -- The pod of each replica, where the ConfigMap holds a text for it.
  pub replicas-IsStarted :
      {stored : Option ConfigMap} {text : String} {old : GoMap String String}
      (holds : HoldsConfigs show32 show64 stored lb text old)
      → holds.cfg_map.name ≡ config_map_name lb
      → All
          (λ i. IsStarted expand set holds.cfg_map text (name_pod set i))
          (numbers (passes lb.spec.replicas))
  replicas-IsStarted holds same_map = numbers-All (passes lb.spec.replicas) (λ i below. record {
    key = config_key (name_pod set i);
    reads =
        subst
          (λ t.
            ReadsConfig expand t holds.cfg_map.name (name_pod set i) (config_key (name_pod set i)))
          (sym same_template)
          (subst
            (λ m.
              ReadsConfig expand (pod_template lb) m (name_pod set i) (config_key (name_pod set i)))
            (sym same_map) (pod_template-ReadsConfig expand lb (name_pod set i) expands));
    entries = holds.held;
    has_entries = holds.has_entries;
    entry =
        holds.lookup-held (name_pod set i)
        ∙ rw (pod_name-eq i, is_pod-replica show32 show64 lb i _ below) refl;
  })
