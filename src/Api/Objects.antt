-- ===== src/Api/Objects.antt =====
-- `controllerutil.CreateOrUpdate` as an interface: what the callers rely on where the API server's calls
-- succeed, and a server of one kind of object that is a map.
use k8s_glb_operator.Base.{◌≡◌, ◌≢◌, ◌∙◌, refl, ap, Option, none, some, string_eq, arith}
use k8s_glb_operator.Base.GoMap.{GoMap, lookup, insert, lookup-insert, insert-same}
use k8s_glb_operator.Api.Kube.{
  NamespacedName, namespaced_name_eq, ObjectMeta, Error, Result, ok, err,
}
use k8s_glb_operator.Api.Cluster.{meta_key}
use k8s_glb_operator.Api.Named.{own_entry, key-ne, find, find-named, find-insert}

-- The object that the changing function is given: the stored one, or else the one that was made.
abbrev pub base_of {ℓ} : {A : Type ℓ} → Option A → A → A
base_of none made = made
base_of (some stored) made = stored

-- The object as the caller made it and the function that changes it give the object as the server has
-- it, or an error.
abbrev pub CreateOrUpdate : Type 0 → Type 0 → Type 0
CreateOrUpdate S O = S → O → (O → Result O) → S × Result O

-- The server holds one object under a name. A change that keeps the name is stored, under that name
-- alone; where the changing function fails nothing is written.
pub record Applies {S O : Type 0} (apply : CreateOrUpdate S O) (meta : O → ObjectMeta)
    (find_object : S → NamespacedName → Option O) : Type 0 where
  pub named :
      (s : S) (k : NamespacedName) (o : O) → find_object s k ≡ some o → meta_key (meta o) ≡ k
  pub applied :
      (s : S) (made changed : O) (mutate : O → Result O)
      → mutate (base_of (find_object s (meta_key (meta made))) made) ≡ ok changed
      → meta_key (meta changed) ≡ meta_key (meta made)
      → ((apply s made mutate).1 ≡ ok changed)
        × (find_object (apply s made mutate).0 (meta_key (meta made)) ≡ some changed)
  pub elsewhere :
      (s : S) (made : O) (mutate : O → Result O) (k : NamespacedName)
      → k ≢ meta_key (meta made)
      → find_object (apply s made mutate).0 k ≡ find_object s k
  pub refused :
      (s : S) (made : O) (mutate : O → Result O) (e : Error)
      → mutate (base_of (find_object s (meta_key (meta made))) made) ≡ err e
      → apply s made mutate ≡ (s, err e)

-- `CreateOrUpdate` writes nothing where the changing function leaves the stored object as it is.
pub record IsIdle {S O : Type 0} (apply : CreateOrUpdate S O) (meta : O → ObjectMeta)
    (find_object : S → NamespacedName → Option O) : Type 0 where
  pub idle :
      (s : S) (made stored : O) (mutate : O → Result O)
      → find_object s (meta_key (meta made)) ≡ some stored
      → mutate stored ≡ ok stored
      → apply s made mutate ≡ (s, ok stored)

module _ {S O : Type 0} {apply : CreateOrUpdate S O} {meta : O → ObjectMeta}
    {find_object : S → NamespacedName → Option O} (laws : Applies apply meta find_object) (s : S)
    (made : O) where
  key_of_base :
      (found : Option O)
      → find_object s (meta_key (meta made)) ≡ found
      → meta_key (meta (base_of found made)) ≡ meta_key (meta made)
  key_of_base none e = refl
  key_of_base (some o) e = laws.named s (meta_key (meta made)) o e

  -- The object that the changing function is given has the name that was asked for.
  pub base_of-key :
      meta_key (meta (base_of (find_object s (meta_key (meta made))) made)) ≡ meta_key (meta made)
  base_of-key = key_of_base (find_object s (meta_key (meta made))) refl

module _ {O : Type 0} (meta : O → ObjectMeta) where
  abbrev put : GoMap NamespacedName O → O → Result O → GoMap NamespacedName O × Result O
  put m made (err e) = (m, err e)
  put m made (ok changed) = (insert (meta_key (meta made)) changed m, ok changed)

  abbrev pub map_apply : CreateOrUpdate (GoMap NamespacedName O) O
  map_apply m made mutate = put m made (mutate (base_of (find meta m (meta_key (meta made))) made))

  put-ok :
      (m : GoMap NamespacedName O) (made changed : O) (r : Result O)
      → r ≡ ok changed
      → meta_key (meta changed) ≡ meta_key (meta made)
      → ((put m made r).1 ≡ ok changed)
        × (find meta (put m made r).0 (meta_key (meta made)) ≡ some changed)
  put-ok m made changed r e same = rw e (
    refl,
    ground (arith, find-insert meta (meta_key (meta made)) (meta_key (meta made)) changed m same),
  )

  put-elsewhere :
      (m : GoMap NamespacedName O) (made : O) (r : Result O) (k : NamespacedName)
      → k ≢ meta_key (meta made)
      → find meta (put m made r).0 k ≡ find meta m k
  put-elsewhere m made (err e) k other = refl
  put-elsewhere m made (ok changed) k other = ap (own_entry meta k) (
      lookup-insert k (meta_key (meta made)) changed m
      ∙ rw (key-ne k (meta_key (meta made)) other) refl)

  pub map_apply-Applies : Applies map_apply meta (find meta)
  map_apply-Applies = record {
    named = λ m k o e. find-named meta k (lookup k m) o e;
    applied = λ m made changed mutate e same. put-ok m made changed _ e same;
    elsewhere = λ m made mutate k other. put-elsewhere m made _ k other;
    refused = λ m made mutate e failed. ap (put m made) failed;
  }

  found-lookup :
      (k : NamespacedName) (found : Option O) (o : O)
      → own_entry meta k found ≡ some o
      → found ≡ some o
  found-lookup k none o e = absurd cc
  found-lookup k (some x) o e = elim (namespaced_name_eq.dec (meta_key (meta x)) k) [
    | yes same ↦ ground (arith, same, e)
    | no differ ↦ ground (arith, differ, e)
  ]

  pub map_apply-IsIdle : IsIdle map_apply meta (find meta)
  map_apply-IsIdle = record {
    idle = λ m made stored mutate there same.
        rw (there, same)
          (ap (λ n. (n, ok stored))
            (insert-same (meta_key (meta made)) stored m (
              found-lookup (meta_key (meta made)) (lookup (meta_key (meta made)) m) stored there)));
  }

-- Servers of two kinds of objects, side by side.
module _ {S T O : Type 0} where
  abbrev pub on_first : CreateOrUpdate S O → CreateOrUpdate (S × T) O
  on_first apply s made mutate = let (s', r) = apply s.0 made mutate in ((s', s.1), r)

  abbrev pub on_second : CreateOrUpdate T O → CreateOrUpdate (S × T) O
  on_second apply s made mutate = let (t', r) = apply s.1 made mutate in ((s.0, t'), r)

  pub on_first-Applies :
      (apply : CreateOrUpdate S O) (meta : O → ObjectMeta)
      (find_object : S → NamespacedName → Option O)
      → Applies apply meta find_object
      → Applies (on_first apply) meta (λ s. find_object s.0)
  on_first-Applies apply meta find_object laws = record {
    named = λ s. laws.named s.0;
    applied = λ s. laws.applied s.0;
    elsewhere = λ s. laws.elsewhere s.0;
    refused = λ s made mutate e failed.
        ap (λ (r : S × Result O). ((r.0, s.1), r.1)) (laws.refused s.0 made mutate e failed);
  }

  pub on_second-Applies :
      (apply : CreateOrUpdate T O) (meta : O → ObjectMeta)
      (find_object : T → NamespacedName → Option O)
      → Applies apply meta find_object
      → Applies (on_second apply) meta (λ s. find_object s.1)
  on_second-Applies apply meta find_object laws = record {
    named = λ s. laws.named s.1;
    applied = λ s. laws.applied s.1;
    elsewhere = λ s. laws.elsewhere s.1;
    refused = λ s made mutate e failed.
        ap (λ (r : T × Result O). ((s.0, r.0), r.1)) (laws.refused s.1 made mutate e failed);
  }

  pub on_first-IsIdle :
      (apply : CreateOrUpdate S O) (meta : O → ObjectMeta)
      (find_object : S → NamespacedName → Option O)
      → IsIdle apply meta find_object
      → IsIdle (on_first apply) meta (λ s. find_object s.0)
  on_first-IsIdle apply meta find_object laws = record {
    idle = λ s made stored mutate there same.
        ap (λ (r : S × Result O). ((r.0, s.1), r.1)) (laws.idle s.0 made stored mutate there same);
  }

  pub on_second-IsIdle :
      (apply : CreateOrUpdate T O) (meta : O → ObjectMeta)
      (find_object : T → NamespacedName → Option O)
      → IsIdle apply meta find_object
      → IsIdle (on_second apply) meta (λ s. find_object s.1)
  on_second-IsIdle apply meta find_object laws = record {
    idle = λ s made stored mutate there same.
        ap (λ (r : T × Result O). ((s.0, r.0), r.1)) (laws.idle s.1 made stored mutate there same);
  }
