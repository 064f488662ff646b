-- ===== src/Api/Named.antt =====
-- Objects in a map under their own namespace and name, as an API server holds them.
use k8s_glb_operator.Base.{
  ◌≡◌, ◌≢◌, refl, sym, ◌∙◌, true, false, if_pos, if_neg, Option, none, some, if◌then◌else◌, ◌==◌,
  arith,
}
use k8s_glb_operator.Base.GoMap.{GoMap, lookup, insert, lookup-insert}
use k8s_glb_operator.Api.Kube.{NamespacedName, namespaced_name_eq, ObjectMeta}
use k8s_glb_operator.Api.Cluster.{meta_key}

-- What a map holds under the object's own name.
abbrev pub own_entry : {O : Type 0} → (O → ObjectMeta) → NamespacedName → Option O → Option O
own_entry meta k none = none
own_entry meta k (some o) = if meta_key (meta o) == k then some o else none

abbrev pub find :
    {O : Type 0} → (O → ObjectMeta) → GoMap NamespacedName O → NamespacedName → Option O
find meta m k = own_entry meta k (lookup k m)

pub find-named :
    {O : Type 0} (meta : O → ObjectMeta) (k : NamespacedName) (found : Option O) (o : O)
    → own_entry meta k found ≡ some o
    → meta_key (meta o) ≡ k
find-named meta k none o e = cc
find-named meta k (some x) o e = elim (namespaced_name_eq.dec (meta_key (meta x)) k) [
  | yes same ↦ ground (arith, same, e)
  | no differ ↦ ground (arith, differ, e)
]

pub key-eq : (j k : NamespacedName) → j ≡ k → (j == k) ≡ true
key-eq j k p = if_pos (namespaced_name_eq.dec j k) p true false

pub key-ne : (j k : NamespacedName) → j ≢ k → (j == k) ≡ false
key-ne j k n = if_neg (namespaced_name_eq.dec j k) n true false

pub find-insert :
    {O : Type 0} (meta : O → ObjectMeta) (k j : NamespacedName) (o : O) (m : GoMap NamespacedName O)
    → meta_key (meta o) ≡ j
    → find meta (insert j o m) k ≡ (if k == j then some o else find meta m k)
find-insert meta k j o m same = elim (namespaced_name_eq.dec k j) [
  | yes p ↦
      rw (lookup-insert k j o m, key-eq k j p)
        (rw (key-eq (meta_key (meta o)) k (same ∙ sym p)) refl)
  | no n ↦ rw (lookup-insert k j o m, key-ne k j n) refl
]
