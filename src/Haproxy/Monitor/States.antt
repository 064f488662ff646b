-- ===== src/Haproxy/Monitor/States.antt =====
-- The map of recorded states of internal/haproxy/haproxymonitor.go: what `onDelete` and the locked
-- part of `scrapeMetrics` do to it.
use k8s_glb_operator.Base.{
  ◌≡◌, refl, ◌≢◌, Bool, ◌&&◌, String, Option, none, some, [], ◌∷◌, arith, if◌then◌else◌, ◌==◌,
  string_eq, All, Option-cases, inl, inr,
}
use k8s_glb_operator.Base.GoMap.{
  GoMap, lookup, insert, erase, lookup-insert, lookup-erase, NodupKeys, insert-NodupKeys,
  erase-NodupKeys, All-insert, All-lookup,
}
use k8s_glb_operator.Api.{Uid}
use k8s_glb_operator.Haproxy.Monitor.{EndpointStates, drop_pod}
use k8s_glb_operator.Haproxy.Monitor.Scrape.{inner_map, set_state}

-- The state recorded of a pod as a server of a backend.
abbrev pub state_of : String → Uid → EndpointStates → Option Bool
state_of backend uid states = lookup uid (inner_map (lookup backend states))

abbrev pub IsInner : String × GoMap Uid Bool → Type 0
IsInner e = (e.1 ≢ []) × NodupKeys e.1

-- No backend stands twice, no pod twice under a backend, and no backend is without a pod.
pub record IsWellFormed (states : EndpointStates) : Type 0 where
  pub distinct : NodupKeys states
  pub inner : All IsInner states

insert-ne-nil : (uid : Uid) (up : Bool) (m : GoMap Uid Bool) → insert uid up m ≢ []
unfolding insert
insert-ne-nil uid up [] e = cc
insert-ne-nil uid up ((j, w) ∷ m) e = ground arith

inner_map-NodupKeys :
    (backend : String) (states : EndpointStates)
    → All IsInner states
    → NodupKeys (inner_map (lookup backend states))
inner_map-NodupKeys backend states h = elim (Option-cases (lookup backend states)) [
  | inl missing ↦ rw missing tt
  | inr (m, found) ↦ rw found (All-lookup IsInner backend m states found h).1
]

pub set_state-IsWellFormed :
    (backend : String) (uid : Uid) (up : Bool) (states : EndpointStates)
    → IsWellFormed states
    → IsWellFormed (set_state backend uid up states)
unfolding set_state
set_state-IsWellFormed backend uid up states v = record {
  distinct = insert-NodupKeys backend _ states v.distinct;
  inner =
      All-insert IsInner backend _ states
        (
          insert-ne-nil uid up _,
          insert-NodupKeys uid up _ (inner_map-NodupKeys backend states v.inner),
        )
        v.inner;
}

-- `endpointStates[backend][uid] = up` writes that one entry.
pub state_of-set_state :
    (b backend : String) (u uid : Uid) (up : Bool) (states : EndpointStates)
    → state_of b u (set_state backend uid up states)
      ≡ (if b == backend && u == uid then some up else state_of b u states)
unfolding set_state
state_of-set_state b backend u uid up states = ground (
  arith,
  lookup-insert b backend (insert uid up (inner_map (lookup backend states))) states,
  lookup-insert u uid up (inner_map (lookup backend states)),
)

lookup-drop_pod-none :
    (b : String) (uid : Uid) (states : EndpointStates)
    → lookup b states ≡ none
    → lookup b (drop_pod uid states) ≡ none
unfolding lookup drop_pod
lookup-drop_pod-none b uid [] h = refl
lookup-drop_pod-none b uid ((backend, m) ∷ states) h =
    ground (arith, lookup-drop_pod-none b uid states)

-- After a pod is dropped no backend has a state of it, and every other state is as it was.
pub state_of-drop_pod :
    (b : String) (u uid : Uid) (states : EndpointStates)
    → NodupKeys states
    → state_of b u (drop_pod uid states) ≡ (if u == uid then none else state_of b u states)
unfolding lookup drop_pod
state_of-drop_pod b u uid [] d = ground arith
state_of-drop_pod b u uid ((backend, m) ∷ states) (fresh, d) = ground (
  arith,
  state_of-drop_pod b u uid states d,
  lookup-drop_pod-none b uid states,
  lookup-erase u uid m,
)

drop_pod-NodupKeys :
    (uid : Uid) (states : EndpointStates) → NodupKeys states → NodupKeys (drop_pod uid states)
unfolding drop_pod
drop_pod-NodupKeys uid [] d = tt
drop_pod-NodupKeys uid ((backend, m) ∷ states) (fresh, d) =
    ground (arith, drop_pod-NodupKeys uid states d, lookup-drop_pod-none backend uid states fresh)

drop_pod-IsInner :
    (uid : Uid) (states : EndpointStates) → All IsInner states → All IsInner (drop_pod uid states)
unfolding drop_pod
drop_pod-IsInner uid [] h = tt
drop_pod-IsInner uid ((backend, m) ∷ states) h =
    keep (erase uid m) (erase-NodupKeys uid m h.0.1) (drop_pod-IsInner uid states h.1)
  where
    keep :
        (m' : GoMap Uid Bool)
        → NodupKeys m'
        → All IsInner (drop_pod uid states)
        → All IsInner (elim m' [
          | [] ↦ drop_pod uid states
          | e ∷ m'' ↦ (backend, e ∷ m'') ∷ drop_pod uid states
        ])
    keep [] d rest = rest
    keep (e ∷ m'') d rest = ((λ p. cc, d), rest)

pub drop_pod-IsWellFormed :
    (uid : Uid) (states : EndpointStates) → IsWellFormed states → IsWellFormed (drop_pod uid states)
drop_pod-IsWellFormed uid states v = record {
  distinct = drop_pod-NodupKeys uid states v.distinct;
  inner = drop_pod-IsInner uid states v.inner;
}
