-- ===== src/Cmd/Namespaces/Several.antt =====
-- The text of WATCH_NAMESPACE as the name of a namespace, as cmd/main.go hands it to the monitor of
-- internal/haproxy/haproxymonitor.go.
use Prim.Native.Char.{Char, code}
use k8s_glb_operator.Base.{
  ℕ, ◌≡◌, ◌≢◌, refl, sym, subst, Bool, true, String, Option, none, some, List, [], ◌∷◌, All, map,
  arith, string_eq, string_dec, Bool-cases, inl, inr, ◌∙◌,
}
use k8s_glb_operator.Base.GoMap.{lookup}
use k8s_glb_operator.Api.{Labels, LabelSelector, Error, wrapped, err}
use k8s_glb_operator.Haproxy.Monitor.{Monitor}
use k8s_glb_operator.Haproxy.Monitor.Publish.{Ranges, Lister, update_health_manager}
use k8s_glb_operator.Cmd.Namespaces.{
  comma, onto_first, split_comma, is_space, before_rest, trim_left, trim_right, trim_space,
  setup_cache_namespaces,
}
use k8s_glb_operator.Cmd.Namespaces.Parsed.{Lacks, listed, lookup-setup}

onto_first-Lacks :
    (c : Char) (parts : List String)
    → code c ≢ comma
    → All (Lacks comma) parts
    → All (Lacks comma) (onto_first c parts)
onto_first-Lacks c [] differ h = ((differ, tt), tt)
onto_first-Lacks c (part ∷ parts) differ (h, hs) = ((differ, h), hs)

split_comma-Lacks : (s : String) → All (Lacks comma) (split_comma s)
unfolding split_comma
split_comma-Lacks String.[] = (tt, tt)
split_comma-Lacks (String.◌∷◌ c s) =
    ground (arith, split_comma-Lacks s, onto_first-Lacks c (split_comma s))

module _ (n : ℕ) where
  trim_left-Lacks : (s : String) → Lacks n s → Lacks n (trim_left s)
  unfolding trim_left
  trim_left-Lacks String.[] h = tt
  trim_left-Lacks (String.◌∷◌ c s) h = ground (arith, trim_left-Lacks s h.1)

  before_rest-Lacks : (c : Char) (s : String) → code c ≢ n → Lacks n s → Lacks n (before_rest c s)
  before_rest-Lacks c String.[] differ h = elim (Bool-cases (is_space (code c))) [
    | inl space ↦ rw space tt
    | inr visible ↦ rw visible (differ, tt)
  ]
  before_rest-Lacks c (String.◌∷◌ d s) differ h = (differ, h)

  trim_right-Lacks : (s : String) → Lacks n s → Lacks n (trim_right s)
  unfolding trim_right
  trim_right-Lacks String.[] h = tt
  trim_right-Lacks (String.◌∷◌ c s) (differ, h) =
      before_rest-Lacks c (trim_right s) differ (trim_right-Lacks s h)

  trim_space-Lacks : (s : String) → Lacks n s → Lacks n (trim_space s)
  unfolding trim_space
  trim_space-Lacks s h = trim_right-Lacks (trim_left s) (trim_left-Lacks s h)

listed-Lacks :
    (k : String) (parts : List String)
    → All (Lacks comma) parts
    → listed k (map trim_space parts) ≡ true
    → Lacks comma k
listed-Lacks k [] hs found = absurd cc
listed-Lacks k (part ∷ parts) (h, hs) found = elim (string_dec k (trim_space part)) [
  | yes same ↦ subst (Lacks comma) (sym same) (trim_space-Lacks comma part h)
  | no differ ↦ listed-Lacks k parts hs (ground (arith, found))
]

-- The text itself is none of the namespaces that the cache is set up for.
not_cached : (raw : String) → ¬ Lacks comma raw → lookup raw (setup_cache_namespaces raw) ≡ none
not_cached raw several = elim (Bool-cases (listed raw (map trim_space (split_comma raw)))) [
  | inl found ↦ absurd (several (listed-Lacks raw (split_comma raw) (split_comma-Lacks raw) found))
  | inr missing ↦ lookup-setup raw raw ∙ rw missing refl
]

module _ (as_selector : LabelSelector → Option (Labels → Bool)) (ranges : Ranges)
    (lister : Lister) where
  -- If the cache is set up from the text that is the monitor's namespace, the text lists several namespaces,
  -- and the cache refuses to list the backends of a namespace that it is not set up for, each publication of
  -- the monitor ends with that error and changes nothing.
  pub several_namespaces :
      (w : Monitor) (refusal : Error)
      → ((n : String)
          → lookup n (setup_cache_namespaces w.namespace) ≡ none
          → lister.list_backends n ≡ err refusal)
      → ¬ Lacks comma w.namespace
      → update_health_manager as_selector ranges lister w
        ≡ (w, some (wrapped "failed to list backend CRDs" refusal))
  unfolding update_health_manager
  several_namespaces w refusal refuses several =
      rw (refuses w.namespace (not_cached w.namespace several), update_health_manager) refl
