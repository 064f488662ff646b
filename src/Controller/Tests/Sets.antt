-- ===== src/Controller/Tests/Sets.antt =====
-- A server of StatefulSets that stamps what is made and counts the updates.
use mathlib.Core.Option
use k8s_glb_operator.Base.{ℕ, ◌+◌, ◌≡◌, refl, ap, subst, ◌∙◌, Option, none, some, string_eq}
use k8s_glb_operator.Base.GoMap.{GoMap, insert}
use k8s_glb_operator.Api.{
  NamespacedName, namespaced_name_eq, Result, ok, err, StatefulSet, meta_key,
}
use k8s_glb_operator.Api.Named.{find, find-insert, key-eq}
use k8s_glb_operator.Api.Objects.{CreateOrUpdate, base_of, on_first}
use k8s_glb_operator.Controller.StatefulSets.Server.{Stamp, stamped, Populates}

pub record Sets : Type 0 where
  pub held : GoMap NamespacedName StatefulSet
  pub updates : ℕ

abbrev own_stamp : StatefulSet → Stamp
own_stamp set = record {
  uid = set.metadata.uid;
  created = Option.get_or set.metadata.creation_timestamp 1;
}

abbrev as_held : Option StatefulSet → Option StatefulSet
as_held none = none
as_held (some set) = some (stamped (own_stamp set) set)

abbrev pub find_in : Sets → NamespacedName → Option StatefulSet
find_in s k = as_held (find (λ (set : StatefulSet). set.metadata) s.held k)

abbrev stamp_for : Option StatefulSet → Stamp
stamp_for none = record { uid = "u7"; created = 1 }
stamp_for (some set) = own_stamp set

abbrev pub stamp_in : Sets → NamespacedName → Stamp
stamp_in s k = stamp_for (find_in s k)

abbrev put : Sets → NamespacedName → Stamp → Result StatefulSet → Sets × Result StatefulSet
put s k stamp (err e) = (s, err e)
put s k stamp (ok changed) = (
  record { held = insert k (stamped stamp changed) s.held; updates = s.updates + 1 },
  ok (stamped stamp changed),
)

abbrev pub apply_set : CreateOrUpdate Sets StatefulSet
apply_set s made mutate =
    put s (meta_key made.metadata) (stamp_in s (meta_key made.metadata))
      (mutate (base_of (find_in s (meta_key made.metadata)) made))

kept_as_held :
    (found : Option StatefulSet) (set : StatefulSet)
    → as_held found ≡ some set
    → set ≡ stamped (stamp_for (as_held found)) set
kept_as_held none set e = absurd cc e
kept_as_held (some x) set e =
    subst (λ y. y ≡ stamped (own_stamp (stamped (own_stamp x) x)) y) (Option.some-injective _ _ e)
      refl

put-found :
    (s : Sets) (k : NamespacedName) (stamp : Stamp) (changed : StatefulSet)
    → meta_key changed.metadata ≡ k
    → find_in (put s k stamp (ok changed)).0 k ≡ some (stamped stamp changed)
put-found s k stamp changed same =
    let there : find (λ (set : StatefulSet). set.metadata) (insert k (stamped stamp changed) s.held)
          k
        ≡ some (stamped stamp changed) =
      find-insert (λ (set : StatefulSet). set.metadata) k k (stamped stamp changed) s.held same
      ∙ rw (key-eq k k refl) refl in
    ap as_held there

pub apply_set-Populates : Populates apply_set find_in stamp_in (λ s. s.updates)
apply_set-Populates = record {
  kept = λ s k set. kept_as_held (find (λ (x : StatefulSet). x.metadata) s.held k) set;
  applied = λ s made changed mutate e same. rw e (
    refl,
    put-found s (meta_key made.metadata) (stamp_in s (meta_key made.metadata)) changed same,
  );
  updated = λ s made stored changed mutate there e other. rw (there, e) refl;
}

-- Beside something else.
pub on_first-Populates :
    {T : Type 0}
    → Populates {S = Sets × T}
        (on_first apply_set)
        (λ s. find_in s.0)
        (λ s. stamp_in s.0)
        (λ s. s.0.updates)
on_first-Populates = record {
  kept = λ s. apply_set-Populates.kept s.0;
  applied = λ s. apply_set-Populates.applied s.0;
  updated = λ s. apply_set-Populates.updated s.0;
}
