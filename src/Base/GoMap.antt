-- ===== src/Base/GoMap.antt =====
-- Go's `map[K]V` as an association list in insertion order. A lookup of a missing key is `none`;
-- `insert` is `m[k] = v`, `erase` is `delete(m, k)`.
use mathlib.Core.Path.{◌≡◌, refl, subst}
use mathlib.Core.Option.{Option, none, some}
use mathlib.Core.List.{List, [], ◌∷◌, ◌++◌}
use native.Mathlib.Omega.{arith}
use k8s_glb_operator.Base.Tests.{if◌then◌else◌}
use k8s_glb_operator.Base.Lists.{All}
use k8s_glb_operator.Base.Equality.{Eq, ◌==◌}

abbrev pub GoMap {ℓ κ} : Type ℓ → Type κ → Type (ℓ ⊔ κ)
GoMap K V = List (K × V)

module _ {ℓ κ} {K : Type ℓ} {V : Type κ} ⦃e : Eq K⦄ where
  unfoldable pub lookup : K → GoMap K V → Option V
  lookup k [] = none
  lookup k ((j, v) ∷ m) = let rest = lookup k m in if k == j then some v else rest

  unfoldable pub insert : K → V → GoMap K V → GoMap K V
  insert k v [] = (k, v) ∷ []
  insert k v ((j, w) ∷ m) = let rest = insert k v m in if k == j then (k, v) ∷ m else (j, w) ∷ rest

  unfoldable pub erase : K → GoMap K V → GoMap K V
  erase k [] = []
  erase k ((j, w) ∷ m) = let rest = erase k m in if k == j then rest else (j, w) ∷ rest

  pub lookup-nil : (k : K) → lookup k [] ≡ none
  unfolding lookup
  lookup-nil k = refl

  pub lookup-cons :
      (j k : K) (v : V) (m : GoMap K V)
      → lookup j ((k, v) ∷ m) ≡ (if j == k then some v else lookup j m)
  unfolding lookup
  lookup-cons j k v m = refl

  pub lookup-insert :
      (j k : K) (v : V) (m : GoMap K V)
      → lookup j (insert k v m) ≡ (if j == k then some v else lookup j m)
  unfolding insert lookup
  lookup-insert j k v [] = refl
  lookup-insert j k v (_ ∷ m) = ground (arith, lookup-insert j k v m)

  pub insert-same : (k : K) (v : V) (m : GoMap K V) → lookup k m ≡ some v → insert k v m ≡ m
  unfolding insert lookup
  insert-same k v [] there = absurd cc
  insert-same k v ((j, w) ∷ m) there = ground (arith, there, insert-same k v m)

  pub lookup-erase :
      (j k : K) (m : GoMap K V) → lookup j (erase k m) ≡ (if j == k then none else lookup j m)
  unfolding erase lookup
  lookup-erase j k [] = ground arith
  lookup-erase j k (_ ∷ m) = ground (arith, lookup-erase j k m)

  abbrev pub NodupKeys : GoMap K V → Type κ
  NodupKeys [] = Unit
  NodupKeys ((k, _) ∷ m) = (lookup k m ≡ none) × NodupKeys m

  pub insert-NodupKeys : (k : K) (v : V) (m : GoMap K V) → NodupKeys m → NodupKeys (insert k v m)
  unfolding insert
  insert-NodupKeys k v [] _ = (lookup-nil k, tt)
  insert-NodupKeys k v ((j, _) ∷ m) (fresh, distinct) =
      ground (arith, insert-NodupKeys k v m distinct, lookup-insert j k v m)

  pub erase-NodupKeys : (k : K) (m : GoMap K V) → NodupKeys m → NodupKeys (erase k m)
  unfolding erase
  erase-NodupKeys k [] _ = tt
  erase-NodupKeys k ((j, _) ∷ m) (fresh, distinct) =
      ground (arith, erase-NodupKeys k m distinct, lookup-erase j k m)

  pub lookup-append :
      (k : K) (m n : GoMap K V)
      → lookup k (m ++ n) ≡ elim (lookup k m) [ none ↦ lookup k n | some v ↦ some v ]
  unfolding lookup
  lookup-append k [] n = refl
  lookup-append k ((j, v) ∷ m) n = ground (arith, lookup-append k m n)

  pub insert_fresh :
      (k : K) (v : V) (m : GoMap K V) → lookup k m ≡ none → insert k v m ≡ m ++ (k, v) ∷ []
  unfolding lookup insert
  insert_fresh k v [] fresh = refl
  insert_fresh k v ((j, w) ∷ m) fresh = ground (arith, insert_fresh k v m)

  pub insert_last :
      (k : K) (v w : V) (m : GoMap K V)
      → lookup k m ≡ none
      → insert k v (m ++ (k, w) ∷ []) ≡ m ++ (k, v) ∷ []
  unfolding lookup insert
  insert_last k v w [] fresh = ground arith
  insert_last k v w ((j, u) ∷ m) fresh = ground (arith, insert_last k v w m)

  pub fresh_of_NodupKeys :
      (m : GoMap K V) (k : K) (v : V) (n : GoMap K V)
      → NodupKeys (m ++ (k, v) ∷ n)
      → lookup k m ≡ none
  unfolding lookup
  fresh_of_NodupKeys [] k v n d = refl
  fresh_of_NodupKeys ((j, w) ∷ m) k v n (fresh, d) =
      ground (arith, lookup-append j m ((k, v) ∷ n), fresh_of_NodupKeys m k v n d)

  pub All-insert {μ} :
      (P : K × V → Type μ) (k : K) (v : V) (m : GoMap K V)
      → P (k, v)
      → All P m
      → All P (insert k v m)
  unfolding insert
  All-insert P k v [] new h = (new, tt)
  All-insert P k v ((j, w) ∷ m) new h = ground (arith, All-insert P k v m new h.1)

  pub All-erase {μ} : (P : K × V → Type μ) (k : K) (m : GoMap K V) → All P m → All P (erase k m)
  unfolding erase
  All-erase P k [] h = tt
  All-erase P k ((j, w) ∷ m) h = ground (arith, All-erase P k m h.1)

  pub All-lookup {μ} :
      (P : K × V → Type μ) (k : K) (v : V) (m : GoMap K V)
      → lookup k m ≡ some v
      → All P m
      → P (k, v)
  unfolding lookup
  All-lookup P k v [] found h = cc
  All-lookup P k v ((j, w) ∷ m) found h = elim (e.dec k j) [
    | yes same ↦ subst P (ground arith) h.0
    | no differ ↦ All-lookup P k v m (ground arith) h.1
  ]
