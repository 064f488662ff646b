-- ===== src/Cmd/Namespaces/Parsed.antt =====
-- The namespaces that the cache is set up for are those that WATCH_NAMESPACE lists.
use mathlib.Core.List.{Mem, mem-cons, mem-cons_self, mem-cons_of_mem, not-mem-nil}
use mathlib.Core.Logic.Or
use Prim.Native.Char.{Char, code}
use text.Mathlib.TextLemmas.{nil-append, cons-append, append-nil}
use k8s_glb_operator.Base.{
  ℕ, ◌≡◌, ◌≢◌, ◌↔◌, ◌∙◌, refl, sym, ap, subst, Bool, true, false, ◌||◌, String, ◌<>◌, none, some,
  List, [], ◌∷◌, All, map, arith, if◌then◌else◌, ◌==◌, string_eq, string_dec,
}
use k8s_glb_operator.Base.GoMap.{GoMap, lookup, insert, lookup-insert, lookup-nil}
use k8s_glb_operator.Cmd.Namespaces.{
  CacheConfig, empty_config, comma, onto_first, split_comma, trim_space, add_namespaces,
  setup_cache_namespaces,
}

abbrev pub Lacks : ℕ → String → Type 0
Lacks n String.[] = Unit
Lacks n (String.◌∷◌ c s) = (code c ≢ n) × Lacks n s

-- `strings.Join(names, ",")`
abbrev pub join : List String → String
join [] = ""
join (name ∷ []) = name
join (name ∷ next ∷ names) = name <> "," <> join (next ∷ names)

split_comma-cons :
    (c : Char) (s : String)
    → code c ≢ comma
    → split_comma (String.◌∷◌ c s) ≡ onto_first c (split_comma s)
unfolding split_comma
split_comma-cons c s differ = ground arith

-- An end of the text or a comma ends the first part.
first_part :
    (s : String) (parts : List String)
    → Lacks comma s
    → (whole : String) → (split_comma whole ≡ "" ∷ parts)
    → split_comma (s <> whole) ≡ s ∷ parts
first_part String.[] parts h whole rest = ap split_comma (nil-append whole) ∙ rest
first_part (String.◌∷◌ c s) parts (differ, h) whole rest =
    ap split_comma (cons-append c s whole)
    ∙ split_comma-cons c (s <> whole) differ
    ∙ ap (onto_first c) (first_part s parts h whole rest)

comma_first : (rest : String) → split_comma ("," <> rest) ≡ "" ∷ split_comma rest
unfolding split_comma
comma_first rest =
    ap split_comma (cons-append _ "" rest) ∙ ap (λ s. "" ∷ split_comma s) (nil-append rest)

split_comma-join :
    (names : List String) → names ≢ [] → All (Lacks comma) names → split_comma (join names) ≡ names
unfolding split_comma
split_comma-join [] some_name h = absurd (some_name refl)
split_comma-join (name ∷ []) some_name (h, _) =
    ap split_comma (sym (append-nil name)) ∙ first_part name [] h "" refl
split_comma-join (name ∷ next ∷ names) some_name (h, hs) =
    first_part name (next ∷ names) h ("," <> join (next ∷ names)) (
      comma_first (join (next ∷ names))
      ∙ ap (λ parts. "" ∷ parts) (split_comma-join (next ∷ names) (λ e. cc) hs))

abbrev pub listed : String → List String → Bool
listed k [] = false
listed k (name ∷ names) = k == name || listed k names

lookup-add_namespaces :
    (k : String) (parts : List String) (m : GoMap String CacheConfig)
    → lookup k (add_namespaces parts m)
      ≡ (if listed k (map trim_space parts) then some empty_config else lookup k m)
unfolding add_namespaces
lookup-add_namespaces k [] m = refl
lookup-add_namespaces k (ns ∷ parts) m = ground (
  arith,
  lookup-add_namespaces k parts (insert (trim_space ns) empty_config m),
  lookup-insert k (trim_space ns) empty_config m,
)

Mem-listed : (k : String) (names : List String) → Mem k names ↔ (listed k names ≡ true)
Mem-listed k [] = (λ m. absurd (not-mem-nil m), λ e. cc)
Mem-listed k (name ∷ names) = (
  λ m.
      Or.elim (hlevel) (mem-cons.0 m) (λ e. ground (arith, e))
        (λ later. ground (arith, (Mem-listed k names).0 later)),
  λ e. elim (string_dec k name) [
    | yes same ↦ subst (λ j. Mem j (name ∷ names)) (sym same) mem-cons_self
    | no differ ↦ mem-cons_of_mem name ((Mem-listed k names).1 (ground arith))
  ],
)

trimmed_names :
    (names : List String) → All (λ n. trim_space n ≡ n) names → map trim_space names ≡ names
trimmed_names [] _ = refl
trimmed_names (n ∷ names) (h, hs) = rw (h, trimmed_names names hs) refl

pub lookup-setup :
    (k raw : String)
    → lookup k (setup_cache_namespaces raw)
      ≡ (if listed k (map trim_space (split_comma raw)) then some empty_config else none)
unfolding setup_cache_namespaces
lookup-setup k raw =
    lookup-add_namespaces k (split_comma raw) [] ∙ rw (lookup-nil {V = CacheConfig} k) refl

-- If WATCH_NAMESPACE lists one or more names, joined by commas, none of which has a comma or a space at
-- its ends, the cache is set up for exactly these namespaces.
pub setup_cache_namespaces-join :
    (names : List String)
    → names ≢ []
    → All (Lacks comma) names
    → All (λ n. trim_space n ≡ n) names
    → (k : String)
    → (lookup k (setup_cache_namespaces (join names)) ≡ some empty_config) ↔ Mem k names
setup_cache_namespaces-join names some_name lacks trimmed k =
    let parts : map trim_space (split_comma (join names)) ≡ names =
      ap (map trim_space) (split_comma-join names some_name lacks) ∙ trimmed_names names trimmed in
    let found : lookup k (setup_cache_namespaces (join names))
        ≡ (if listed k names then some empty_config else none) =
      lookup-setup k (join names)
      ∙ ap (λ ns. if listed k ns then some empty_config else none) parts in
    (
      λ is_there. (Mem-listed k names).1 (ground (arith, found, is_there)),
      λ member. found ∙ rw ((Mem-listed k names).0 member) refl,
    )
