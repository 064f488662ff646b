-- ===== src/Memory/Maps.antt =====
-- The copy of a map (`copy_map`), of which the order of the entries is nothing.
use k8s_glb_operator.Base.{
  ◌≡◌, refl, sym, ◌∙◌, none, some, List, [], ◌∷◌, arith, Option-cases, inl, inr, String, string_eq,
}
use k8s_glb_operator.Base.GoMap.{
  GoMap, lookup, insert, lookup-nil, lookup-insert, NodupKeys, insert-NodupKeys,
}
use k8s_glb_operator.Memory.{copy_entries, copy_map}
use k8s_glb_operator.Memory.Views.{entries, entries-IsLocal}
use k8s_glb_operator.Memory.Copies.{Copies, returned}
use k8s_glb_operator.Memory.Fields.{Field}

-- Go ranges over each entry of a map once.
pub record RangesEntries (range : GoMap String String → List (String × String)) : Type 0 where
  pub distinct : (m : GoMap String String) → NodupKeys m → NodupKeys (range m)
  pub same : (m : GoMap String String) (k : String) → NodupKeys m → lookup k (range m) ≡ lookup k m

copy_entries-missing :
    (es out : GoMap String String) (k : String)
    → lookup k es ≡ none
    → lookup k (copy_entries es out) ≡ lookup k out
unfolding copy_entries lookup
copy_entries-missing [] out k missing = refl
copy_entries-missing ((key, val) ∷ es) out k missing =
    ground
      (arith, missing, copy_entries-missing es (insert key val out) k, lookup-insert k key val out)

lookup-copy_entries :
    (es out : GoMap String String) (k v : String)
    → NodupKeys es
    → lookup k es ≡ some v
    → lookup k (copy_entries es out) ≡ some v
unfolding copy_entries lookup
lookup-copy_entries [] out k v d found = cc found
lookup-copy_entries ((key, val) ∷ es) out k v (fresh, d) found = elim (string_eq.dec k key) [
  | yes same ↦
      copy_entries-missing es (insert key val out) k (ground (arith, same, fresh))
      ∙ ground (arith, lookup-insert k key val out, same, found)
  | no differ ↦ lookup-copy_entries es (insert key val out) k v d (ground (arith, found, differ))
]

copy_entries-NodupKeys :
    (es out : GoMap String String) → NodupKeys out → NodupKeys (copy_entries es out)
unfolding copy_entries
copy_entries-NodupKeys [] out d = d
copy_entries-NodupKeys ((key, val) ∷ es) out d =
    copy_entries-NodupKeys es (insert key val out) (insert-NodupKeys key val out d)

module _ (range : GoMap String String → List (String × String)) (once : RangesEntries range) where
  lookup-copy_map :
      (m : GoMap String String) (k : String)
      → NodupKeys m
      → lookup k (copy_entries (range m) []) ≡ lookup k m
  lookup-copy_map m k d = elim (Option-cases (lookup k (range m))) [
    | inl missing ↦
        copy_entries-missing (range m) [] k missing ∙ lookup-nil k ∙ sym missing ∙ once.same m k d
    | inr (v, found) ↦
        lookup-copy_entries (range m) [] k v (once.distinct m d) found ∙ sym found ∙ once.same m k d
  ]

module _ {C : Type 0} (range : GoMap String String → List (String × String))
    (once : RangesEntries range) where
  pub copy_map-Copies : Copies (entries {C = C}) (copy_map range)
  unfolding copy_map
  copy_map-Copies lo h m v (d, same) =
      returned h (copy_entries (range m) [])
        (copy_entries-NodupKeys (range m) [] tt, λ k. lookup-copy_map range once m k d ∙ same k)

  abbrev pub entries_field : Field C (GoMap String String) (GoMap String String)
  entries_field = record {
    view = entries {C = C};
    local = entries-IsLocal;
    copy = copy_map range;
    copies = copy_map-Copies;
  }
