-- ===== src/Haproxy/Monitor/Consolidate.antt =====
-- The copy of the recorded states that `updateHealthManager` consolidates
-- (internal/haproxy/haproxymonitor.go).
use k8s_glb_operator.Base.{
  ◌≡◌, refl, sym, subst, ap, ◌∙◌, Bool, String, none, some, [], ◌∷◌, ◌++◌, arith, string_eq, All,
  append_assoc, append-nil,
}
use k8s_glb_operator.Base.GoMap.{
  GoMap, lookup, insert, NodupKeys, lookup-append, insert_fresh, insert_last, fresh_of_NodupKeys,
}
use k8s_glb_operator.Api.{Uid}
use k8s_glb_operator.Haproxy.Monitor.{EndpointStates}
use k8s_glb_operator.Haproxy.Monitor.Publish.{merge_state, consolidate_backend, consolidate}
use k8s_glb_operator.Haproxy.Monitor.States.{IsInner, IsWellFormed}

-- The first pod of a backend opens its inner map.
merge_first :
    (b : String) (uid : Uid) (up : Bool) (acc : EndpointStates)
    → lookup b acc ≡ none
    → merge_state b uid up acc ≡ acc ++ (b, (uid, up) ∷ []) ∷ []
unfolding merge_state lookup insert
merge_first b uid up acc fresh = rw fresh (insert_fresh b ((uid, up) ∷ []) acc fresh)

lookup_last :
    (b : String) (done : GoMap Uid Bool) (acc : EndpointStates)
    → lookup b acc ≡ none
    → lookup b (acc ++ (b, done) ∷ []) ≡ some done
unfolding lookup
lookup_last b done acc fresh = ground (arith, lookup-append b acc ((b, done) ∷ []))

-- Each further pod goes to the end of it.
merge_next :
    (b : String) (uid : Uid) (up : Bool) (done : GoMap Uid Bool) (acc : EndpointStates)
    → lookup b acc ≡ none
    → lookup uid done ≡ none
    → merge_state b uid up (acc ++ (b, done) ∷ []) ≡ acc ++ (b, done ++ (uid, up) ∷ []) ∷ []
unfolding merge_state
merge_next b uid up done acc fresh new =
    rw (lookup_last b done acc fresh, new, insert_fresh uid up done new)
      (insert_last b (done ++ (uid, up) ∷ []) done acc fresh)

consolidate_rest :
    (b : String) (rest done : GoMap Uid Bool) (acc : EndpointStates)
    → lookup b acc ≡ none
    → NodupKeys (done ++ rest)
    → consolidate_backend b rest (acc ++ (b, done) ∷ []) ≡ acc ++ (b, done ++ rest) ∷ []
unfolding consolidate_backend
consolidate_rest b [] done acc fresh d = rw append-nil
consolidate_rest b ((uid, up) ∷ rest) done acc fresh d =
    rw
      (
        merge_next b uid up done acc fresh (fresh_of_NodupKeys done uid up rest d),
        consolidate_backend,
      )
      (consolidate_rest b rest (done ++ (uid, up) ∷ []) acc fresh
          (subst NodupKeys (sym (append_assoc done ((uid, up) ∷ []) rest)) d)
        ∙ ap (λ m. acc ++ (b, m) ∷ []) (append_assoc done ((uid, up) ∷ []) rest))

consolidate_one :
    (b : String) (m : GoMap Uid Bool) (acc : EndpointStates)
    → lookup b acc ≡ none
    → IsInner (b, m)
    → consolidate_backend b m acc ≡ acc ++ (b, m) ∷ []
unfolding consolidate_backend
consolidate_one b [] acc fresh (filled, d) = absurd (filled refl)
consolidate_one b ((uid, up) ∷ m) acc fresh (filled, d) =
    rw (merge_first b uid up acc fresh, consolidate_backend)
      (consolidate_rest b m ((uid, up) ∷ []) acc fresh d)

consolidate-All :
    (states acc : EndpointStates)
    → NodupKeys (acc ++ states)
    → All IsInner states
    → consolidate states acc ≡ acc ++ states
unfolding consolidate
consolidate-All [] acc d h = sym (append-nil acc)
consolidate-All ((b, m) ∷ states) acc d h =
    rw (consolidate_one b m acc (fresh_of_NodupKeys acc b m states d) h.0, consolidate)
      (consolidate-All states (acc ++ (b, m) ∷ [])
          (subst NodupKeys (sym (append_assoc acc ((b, m) ∷ []) states)) d) h.1
        ∙ append_assoc acc ((b, m) ∷ []) states)

-- On well-formed states the two loops that consolidate them give them back entry by entry: a pod's
-- health under a backend is the one recorded last, for there is one.
pub consolidate-eq :
    (states : EndpointStates) → IsWellFormed states → consolidate states [] ≡ states
consolidate-eq states v = consolidate-All states [] v.distinct v.inner
