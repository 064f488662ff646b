-- ===== src/Haproxy/Monitor/Selected.antt =====
-- The endpoints that `updateHealthManager` gathers for a frontend, against a description that looks
-- at that frontend alone (internal/haproxy/haproxymonitor.go).
use mathlib.Core.List.{
  Mem, Nodup, Nodup-cons, mem-cons, mem-cons_of_mem, not-mem-nil, mem-map_of_mem,
}
use mathlib.Core.Logic.Or
use k8s_glb_operator.Base.{
  ◌≡◌, refl, subst, ap, ◌∙◌, ◌≢◌, Bool, Option, none, some, List, [], ◌∷◌, ◌++◌, map, arith,
  if◌then◌else◌, ◌==◌, string_eq, String-set, append_assoc, Option-cases, inl, inr,
}
use k8s_glb_operator.Base.GoMap.{GoMap, lookup, lookup-insert}
use k8s_glb_operator.Api.{
  Uid, Labels, LabelSelector, NamespacedName, namespaced_name_eq, Backend, Frontend, frontend_key,
}
use k8s_glb_operator.Haproxy.HealthCache.{Endpoint, or_empty}
use k8s_glb_operator.Haproxy.Monitor.{EndpointStates, ScrapeTarget}
use k8s_glb_operator.Haproxy.Monitor.Publish.{
  Ranges, FrontendEndpoints, selects, add_to_frontend, add_to_frontends, backend_endpoints,
  add_backend, frontend_endpoints,
}

-- Lists joined in turn; `none` is no list at all.
abbrev pub join {ℓ} : {A : Type ℓ} → Option (List A) → Option (List A) → Option (List A)
join none ys = ys
join (some xs) none = some xs
join (some xs) (some ys) = some (xs ++ ys)

join_assoc {ℓ} : {A : Type ℓ} (a b c : Option (List A)) → join (join a b) c ≡ join a (join b c)
join_assoc none b c = refl
join_assoc (some xs) none c = refl
join_assoc (some xs) (some ys) none = refl
join_assoc (some xs) (some ys) (some zs) = ap some (append_assoc xs ys zs)

endpoints_set : IsSet (Option (List Endpoint))
endpoints_set = hlevel String-set

abbrev pub keys_of : List Frontend → List NamespacedName
keys_of = map frontend_key

module _ (as_selector : LabelSelector → Option (Labels → Bool)) where
  abbrev chosen : Frontend → Backend → List Endpoint → Option (List Endpoint)
  chosen fe backend eps = if selects as_selector fe backend then some eps else none

  lookup-add_to_frontend :
      (k : NamespacedName) (backend : Backend) (eps : List Endpoint) (fe : Frontend)
      (acc : FrontendEndpoints)
      → lookup k (add_to_frontend as_selector backend eps fe acc) ≡ (
          if k == frontend_key fe
          then join (lookup k acc) (chosen fe backend eps)
          else lookup k acc)
  unfolding add_to_frontend
  lookup-add_to_frontend k backend eps fe acc = ground (
    arith,
    lookup-insert k (frontend_key fe) (or_empty (lookup (frontend_key fe) acc) ++ eps) acc,
  )

  absent_frontend :
      (k : NamespacedName) (backend : Backend) (eps : List Endpoint) (fes : List Frontend)
      (acc : FrontendEndpoints)
      → ¬ Mem k (keys_of fes)
      → lookup k (add_to_frontends as_selector backend eps fes acc) ≡ lookup k acc
  unfolding add_to_frontends
  absent_frontend k backend eps [] acc absent = refl
  absent_frontend k backend eps (fe ∷ fes) acc absent =
      let other : k ≢ frontend_key fe = λ e. absent (mem-cons.1 (Or.inl e)) in
      absent_frontend k backend eps fes (add_to_frontend as_selector backend eps fe acc)
        (λ m. absent (mem-cons_of_mem (frontend_key fe) m))
      ∙ ground (arith, lookup-add_to_frontend k backend eps fe acc)

  chosen_head :
      (backend : Backend) (eps : List Endpoint) (fe : Frontend) (fes : List Frontend)
      (acc : FrontendEndpoints)
      → ¬ Mem (frontend_key fe) (keys_of fes)
      → lookup (frontend_key fe) (add_to_frontends as_selector backend eps (fe ∷ fes) acc)
        ≡ join (lookup (frontend_key fe) acc) (chosen fe backend eps)
  unfolding add_to_frontends
  chosen_head backend eps fe fes acc absent =
      absent_frontend (frontend_key fe) backend eps fes
        (add_to_frontend as_selector backend eps fe acc) absent
      ∙ ground (arith, lookup-add_to_frontend (frontend_key fe) backend eps fe acc)

  lookup-add_to_frontends :
      (backend : Backend) (eps : List Endpoint) (fes : List Frontend) (acc : FrontendEndpoints)
      (fe : Frontend)
      → Nodup (keys_of fes)
      → Mem fe fes
      → lookup (frontend_key fe) (add_to_frontends as_selector backend eps fes acc)
        ≡ join (lookup (frontend_key fe) acc) (chosen fe backend eps)
  unfolding add_to_frontends
  lookup-add_to_frontends backend eps [] acc fe distinct m = absurd (not-mem-nil m)
  lookup-add_to_frontends backend eps (x ∷ fes) acc fe distinct m =
      Or.elim (endpoints_set _ _) (mem-cons.0 m) here
        (λ n. later n (lookup-add_to_frontends backend eps fes acc' fe (Nodup-cons.0 distinct).1 n))
    where
      acc' : FrontendEndpoints
      acc' = add_to_frontend as_selector backend eps x acc

      here :
          fe ≡ x
          → lookup (frontend_key fe) (add_to_frontends as_selector backend eps fes acc')
            ≡ join (lookup (frontend_key fe) acc) (chosen fe backend eps)
      here e = rw e (chosen_head backend eps x fes acc (Nodup-cons.0 distinct).0)

      later :
          Mem fe fes
          → lookup (frontend_key fe) (add_to_frontends as_selector backend eps fes acc')
            ≡ join (lookup (frontend_key fe) acc') (chosen fe backend eps)
          → lookup (frontend_key fe) (add_to_frontends as_selector backend eps fes acc')
            ≡ join (lookup (frontend_key fe) acc) (chosen fe backend eps)
      later n rest =
          let other : frontend_key fe ≢ frontend_key x = λ e.
            (Nodup-cons.0 distinct).0
              (subst (λ k. Mem k (keys_of fes)) e (mem-map_of_mem frontend_key n)) in
          rest ∙ ground (arith, lookup-add_to_frontend (frontend_key fe) backend eps x acc)

  module _ (ranges : Ranges) (targets : GoMap Uid ScrapeTarget) (states : EndpointStates) where
    -- What one backend gives a frontend.
    abbrev contribution : Frontend → Backend → Option (List Endpoint)
    contribution fe backend = elim (lookup backend.name states) [
      | none ↦ none
      | some uid_states ↦ chosen fe backend (backend_endpoints ranges targets uid_states)
    ]

    -- The endpoints of one frontend: those of each backend in turn that has a recorded state and
    -- whose labels the frontend's selector matches; `none` if there is no such backend.
    unfoldable pub endpoints_for : Frontend → List Backend → Option (List Endpoint)
    endpoints_for fe [] = none
    endpoints_for fe (backend ∷ backends) =
        join (contribution fe backend) (endpoints_for fe backends)

    lookup-add_backend :
        (backend : Backend) (fes : List Frontend) (acc : FrontendEndpoints) (fe : Frontend)
        → Nodup (keys_of fes)
        → Mem fe fes
        → lookup (frontend_key fe) (add_backend as_selector ranges targets states backend fes acc)
          ≡ join (lookup (frontend_key fe) acc) (contribution fe backend)
    unfolding add_backend
    lookup-add_backend backend fes acc fe distinct m =
        elim (Option-cases (lookup backend.name states)) [
          | inl missing ↦ ground arith
          | inr (uid_states, found) ↦ ground (
            arith,
            lookup-add_to_frontends backend (backend_endpoints ranges targets uid_states) fes acc fe
                distinct m,
          )
        ]

    gathered :
        (backends : List Backend) (fes : List Frontend) (acc : FrontendEndpoints) (fe : Frontend)
        → Nodup (keys_of fes)
        → Mem fe fes
        → lookup
            (frontend_key fe)
            (frontend_endpoints as_selector ranges targets states backends fes acc)
          ≡ join (lookup (frontend_key fe) acc) (endpoints_for fe backends)
    unfolding frontend_endpoints endpoints_for
    gathered [] fes acc fe distinct m = ground arith
    gathered (backend ∷ backends) fes acc fe distinct m =
        gathered backends fes (add_backend as_selector ranges targets states backend fes acc) fe
          distinct m
        ∙ ap (λ o. join o (endpoints_for fe backends))
            (lookup-add_backend backend fes acc fe distinct m)
        ∙ join_assoc (lookup (frontend_key fe) acc) (contribution fe backend)
            (endpoints_for fe backends)

    -- With the frontends under distinct names, the nested loops give each of them the endpoints that
    -- the description gives it, whatever the other frontends select.
    pub lookup-frontend_endpoints :
        (backends : List Backend) (fes : List Frontend) (fe : Frontend)
        → Nodup (keys_of fes)
        → Mem fe fes
        → lookup
            (frontend_key fe)
            (frontend_endpoints as_selector ranges targets states backends fes [])
          ≡ endpoints_for fe backends
    unfolding lookup
    lookup-frontend_endpoints backends fes fe distinct m = gathered backends fes [] fe distinct m
