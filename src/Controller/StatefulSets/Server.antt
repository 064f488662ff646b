-- ===== src/Controller/StatefulSets/Server.antt =====
-- What `CreateOrUpdate` and the API server behind it do with a StatefulSet.
use k8s_glb_operator.Base.{ℕ, ◌+◌, ◌≡◌, ◌≢◌, Option, some}
use k8s_glb_operator.Api.{NamespacedName, ObjectMeta, Uid, Result, ok, StatefulSet, meta_key}
use k8s_glb_operator.Api.Objects.{CreateOrUpdate, base_of}

-- What the server itself puts into the metadata of an object, and keeps.
pub record Stamp : Type 0 where
  pub uid : Uid
  pub created : ℕ

abbrev pub stamped_meta : Stamp → ObjectMeta → ObjectMeta
stamped_meta stamp m = record m { uid = stamp.uid; creation_timestamp = some stamp.created }

abbrev pub stamped : Stamp → StatefulSet → StatefulSet
stamped stamp set = record set { metadata = stamped_meta stamp set.metadata }

-- A server whose calls succeed. `stamp_of` is the stamp of the set that is stored under a name, or the one
-- that a set will get that is made under it next, and `updates` counts the requests to write over a set.
pub record Populates {S : Type 0} (apply : CreateOrUpdate S StatefulSet)
    (find_set : S → NamespacedName → Option StatefulSet) (stamp_of : S → NamespacedName → Stamp)
    (updates : S → ℕ) : Type 0 where
  pub kept :
      (s : S) (k : NamespacedName) (set : StatefulSet)
      → find_set s k ≡ some set
      → set ≡ stamped (stamp_of s k) set
  pub applied :
      (s : S) (made changed : StatefulSet) (mutate : StatefulSet → Result StatefulSet)
      → mutate (base_of (find_set s (meta_key made.metadata)) made) ≡ ok changed
      → meta_key changed.metadata ≡ meta_key made.metadata
      → ((apply s made mutate).1 ≡ ok (stamped (stamp_of s (meta_key made.metadata)) changed))
        × (find_set (apply s made mutate).0 (meta_key made.metadata)
            ≡ some (stamped (stamp_of s (meta_key made.metadata)) changed))
  pub updated :
      (s : S) (made stored changed : StatefulSet) (mutate : StatefulSet → Result StatefulSet)
      → find_set s (meta_key made.metadata) ≡ some stored
      → mutate stored ≡ ok changed
      → changed ≢ stored
      → updates (apply s made mutate).0 ≡ updates s + 1
