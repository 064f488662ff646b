-- ===== src/Haproxy/HealthCache/Changes.antt =====
-- When `Update` reports a change, and what it leaves in the cache.
use mathlib.Core.List.{Mem, Nodup, Perm, Subset, Mem-prop, filter}
use mathlib.Core.List.Perm
use mathlib.Core.Bool.{Bool-discrete}
use mathlib.Core.Logic.{∥∥₁_elim}
use mathlib.Core.Option
use k8s_glb_operator.Base.{
  ◌≡◌, refl, sym, ap, ◌∙◌, ◌≢◌, ◌↔◌, Bool, true, false, not, ◌&&◌, String, Option, none, some, List,
  [], ◌∷◌, arith, if◌then◌else◌, ◌==◌, string_eq, subst, if_pos, if_neg, Option-cases, Bool-cases,
  inl, inr, All, length, eqb,
}
use k8s_glb_operator.Base.Members.{All-of_mem, All-mem, Perm-length, perm_of_Subset}
use k8s_glb_operator.Base.GoMap.{lookup, lookup-insert}
use k8s_glb_operator.Api.{NamespacedName, namespaced_name_eq}
use k8s_glb_operator.Haproxy.HealthCache.{
  Endpoint, HealthCache, existing_map, any_differs, differs, get, get_healthy, keep_healthy, store,
  compare_update, update, or_empty,
}
use k8s_glb_operator.Haproxy.HealthCache.Health.{
  addresses, health_of, IsAgreed, IsAgreed-prop, lookup-existing_map, mem_of_health_of,
  health_of-mem, endpoint_of_mem, health_of-none_iff,
}

-- The new list is as long as the stored one, which states the same of each of its endpoints.
pub record IsSettled (existing updated : List Endpoint) : Type 0 where
  pub same_length : length existing ≡ length updated
  pub agreed : All (IsAgreed existing) updated

any_differs-false :
    (existing eps : List Endpoint)
    → any_differs (existing_map existing []) eps ≡ false
    → All (IsAgreed existing) eps
unfolding any_differs lookup
any_differs-false existing [] h = tt
any_differs-false existing (ep ∷ eps) h = (
  ground (arith, lookup-existing_map ep.ip_address existing []),
  any_differs-false existing eps (ground (arith)),
)

any_differs-agreed :
    (existing eps : List Endpoint)
    → All (IsAgreed existing) eps
    → any_differs (existing_map existing []) eps ≡ false
unfolding any_differs lookup
any_differs-agreed existing [] h = refl
any_differs-agreed existing (ep ∷ eps) (agreed, rest) =
    ground
      (arith, lookup-existing_map ep.ip_address existing [], any_differs-agreed existing eps rest)

keep_healthy-filter :
    (eps : List Endpoint) → keep_healthy eps ≡ filter (λ ep. Bool-discrete ep.healthy true) eps
unfolding keep_healthy
keep_healthy-filter [] = refl
keep_healthy-filter (ep ∷ eps) = elim (Bool-discrete ep.healthy true) [
  | yes p ↦ rw (if_pos _ p, p, keep_healthy-filter eps)
  | no p ↦ rw (if_neg _ p) (ground (arith, keep_healthy-filter eps))
]

length-addresses : (eps : List Endpoint) → length (addresses eps) ≡ length eps
length-addresses [] = refl
length-addresses (ep ∷ eps) = omega (arith, length-addresses eps)

module _ (existing updated : List Endpoint) (s : IsSettled existing updated)
    (distinct : Nodup (addresses updated)) where
  settled-Subset : Subset (addresses updated) (addresses existing)
  settled-Subset ip m = ∥∥₁_elim (endpoint_of_mem ip updated m) Mem-prop λ (ep, named, here).
      subst (λ a. Mem a (addresses existing)) here
        (mem_of_health_of ep.ip_address existing ep.healthy
          (All-mem (IsAgreed existing) (IsAgreed-prop existing) updated s.agreed ep named))

  settled-Perm : Perm (addresses updated) (addresses existing)
  settled-Perm =
      perm_of_Subset _ _ distinct settled-Subset
        (omega (arith, length-addresses existing, length-addresses updated, s.same_length))

  settled-health_of : (ip : String) → health_of ip existing ≡ health_of ip updated
  settled-health_of ip = elim (Option-cases (health_of ip updated)) [
    | inl missing ↦
        (health_of-none_iff ip existing).1 (λ m.
          (health_of-none_iff ip updated).0 missing (Perm.subset (Perm.symm settled-Perm) ip m))
        ∙ sym missing
    | inr (h, found) ↦
        ∥∥₁_elim (endpoint_of_mem ip updated (mem_of_health_of ip updated h found)) (hlevel)
          λ (ep, named, here).
            let old =
              All-mem (IsAgreed existing) (IsAgreed-prop existing) updated s.agreed ep named in
            let new = health_of-mem updated distinct ep named in
            subst (λ a. health_of a existing ≡ health_of a updated) here (old ∙ sym new)
  ]

module _ (c : HealthCache) (frontend : NamespacedName) (updated : List Endpoint) where
  IsSettled-of_quiet :
      (update c frontend updated).1 ≡ false
      → (existing : List Endpoint) × (lookup frontend c.endpoints ≡ some existing)
        × IsSettled existing updated
  unfolding update compare_update
  IsSettled-of_quiet h = elim (Option-cases (lookup frontend c.endpoints)) [
    | inl missing ↦ absurd (ground arith)
    | inr (existing, found) ↦ (
      existing,
      found,
      record {
        same_length = ground arith;
        agreed = any_differs-false existing updated (ground arith);
      },
    )
  ]

  quiet_of_settled :
      (existing : List Endpoint)
      → lookup frontend c.endpoints ≡ some existing
      → IsSettled existing updated
      → update c frontend updated ≡ (c, false)
  unfolding update compare_update
  quiet_of_settled existing found s = ground (arith, any_differs-agreed existing updated s.agreed)

  -- `Update` reports no change exactly if the frontend is cached and the stored endpoints, as many
  -- as the new ones, state the same health of each new endpoint's address (the last stored entry of
  -- an address counts).
  pub update-quiet_iff : ((update c frontend updated).1 ≡ false) ↔ (
      (existing : List Endpoint) × (lookup frontend c.endpoints ≡ some existing)
      × IsSettled existing updated)
  update-quiet_iff = (
    IsSettled-of_quiet,
    λ (existing, found, s).
        ap (λ (r : HealthCache × Bool). r.1) (quiet_of_settled existing found s),
  )

  -- After `Update` a lookup gives the new endpoints if the frontend is the one updated and a change
  -- was reported, and else what it gave before.
  pub lookup-update :
      (other : NamespacedName)
      → lookup other (update c frontend updated).0.endpoints ≡ (
          if other == frontend && (update c frontend updated).1
          then some updated
          else lookup other c.endpoints)
  unfolding update compare_update store
  lookup-update other = ground (arith, lookup-insert other frontend updated c.endpoints)

  -- If the new addresses are distinct and no change is reported, every address has the health that
  -- the cache states, those which neither list names included.
  pub quiet-health_of :
      Nodup (addresses updated)
      → (update c frontend updated).1 ≡ false
      → (ip : String) → health_of ip (get c frontend) ≡ health_of ip updated
  unfolding get
  quiet-health_of distinct quiet ip =
      let (existing, found, s) = IsSettled-of_quiet quiet in
      rw found (settled-health_of existing updated s distinct ip)

  -- Two endpoints of one address that differ in health make `Update` report a change whatever the
  -- cache holds.
  pub update_conflict :
      (a b : Endpoint)
      → Mem a updated
      → Mem b updated
      → a.ip_address ≡ b.ip_address
      → a.healthy ≢ b.healthy
      → (update c frontend updated).1 ≡ true
  update_conflict a b ma mb same differ = elim (Bool-cases (update c frontend updated).1) [
    | inl changed ↦ changed
    | inr quiet ↦
        let (existing, _, s) = IsSettled-of_quiet quiet in
        let stated = All-mem (IsAgreed existing) (IsAgreed-prop existing) updated s.agreed in
        let ha : IsAgreed existing a = stated a ma in
        let hb : IsAgreed existing b = stated b mb in
        absurd
          (differ (Option.some-injective _ _ (sym ha ∙ ap (λ ip. health_of ip existing) same ∙ hb)))
  ]

-- The order of the endpoints does not matter: with distinct addresses, a reordering of the cached
-- list changes nothing and is not reported.
pub update_reordered :
    (c : HealthCache) (frontend : NamespacedName) (existing updated : List Endpoint)
    → lookup frontend c.endpoints ≡ some existing
    → Nodup (addresses existing)
    → Perm existing updated
    → update c frontend updated ≡ (c, false)
update_reordered c frontend existing updated found distinct p =
    quiet_of_settled c frontend updated existing found (record {
      same_length = Perm-length p;
      agreed =
          All-of_mem (IsAgreed existing) updated
            (λ ep m. health_of-mem existing distinct ep (Perm.subset (Perm.symm p) ep m));
    })

-- The healthy endpoints of a frontend are those of its endpoints whose flag is set, in order.
pub get_healthy-filter :
    (c : HealthCache) (frontend : NamespacedName)
    → get_healthy c frontend ≡ filter (λ ep. Bool-discrete ep.healthy true) (get c frontend)
unfolding get get_healthy
get_healthy-filter c frontend = keep_healthy-filter (or_empty (lookup frontend c.endpoints))

-- The entry that `Update` leaves: the old one, or the new endpoints.
unfoldable pub refreshed : Option (List Endpoint) → List Endpoint → List Endpoint
refreshed none updated = updated
refreshed (some existing) updated =
    if eqb (length existing) (length updated)
      && not (any_differs (existing_map existing []) updated)
    then existing
    else updated

pub lookup-update_self :
    (c : HealthCache) (frontend : NamespacedName) (updated : List Endpoint)
    → lookup frontend (update c frontend updated).0.endpoints
      ≡ some (refreshed (lookup frontend c.endpoints) updated)
unfolding update compare_update store refreshed
lookup-update_self c frontend updated =
    ground (arith, lookup-insert frontend frontend updated c.endpoints)

-- Either way it states the new health of every address, if the new addresses are distinct.
pub refreshed-health_of :
    (old : Option (List Endpoint)) (updated : List Endpoint)
    → Nodup (addresses updated)
    → (ip : String) → health_of ip (refreshed old updated) ≡ health_of ip updated
unfolding refreshed
refreshed-health_of none updated distinct ip = refl
refreshed-health_of (some existing) updated distinct ip =
    elim (Bool-cases (eqb (length existing) (length updated))) [
      | inr longer ↦ rw longer
      | inl same ↦ elim (Bool-cases (any_differs (existing_map existing []) updated)) [
        | inl differs ↦ rw (same, differs)
        | inr quiet ↦
            rw (same, quiet)
              (settled-health_of existing updated
                (record {
                  same_length = ground arith;
                  agreed = any_differs-false existing updated quiet;
                })
                distinct ip)
      ]
    ]
