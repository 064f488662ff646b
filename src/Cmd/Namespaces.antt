-- ===== src/Cmd/Namespaces.antt =====
-- `getWatchNamespace` and `setupCacheNamespaces` of cmd/main.go, with what the second calls of Go's
-- package strings. A text is a sequence of code points.
pub mod Parsed
pub mod Several
use Prim.Native.Char.{Char, code}
use k8s_glb_operator.Base.{
  ℕ, Bool, true, false, ◌||◌, ◌&&◌, String, ◌<>◌, Option, none, some, List, [], ◌∷◌, leb, eqb,
  if◌then◌else◌, string_eq,
}
use k8s_glb_operator.Base.GoMap.{GoMap, insert}
use k8s_glb_operator.Api.{failure, Result, ok, err}

-- `os.LookupEnv("WATCH_NAMESPACE")` is the argument.
abbrev pub get_watch_namespace : Option String → Result String
get_watch_namespace none = err (failure "WATCH_NAMESPACE must be set")
get_watch_namespace (some ns) = ok ns

abbrev pub comma : ℕ
comma = b','

-- The first part goes on with the character.
abbrev pub onto_first : Char → List String → List String
onto_first c [] = (String.◌∷◌ c String.[]) ∷ []
onto_first c (part ∷ parts) = (String.◌∷◌ c part) ∷ parts

-- What `strings.SplitSeq(s, ",")` yields.
unfoldable pub split_comma : String → List String
split_comma String.[] = "" ∷ []
split_comma (String.◌∷◌ c s) =
    let parts = split_comma s in if eqb (code c) comma then "" ∷ parts else onto_first c parts

-- `unicode.IsSpace`
unfoldable pub is_space : ℕ → Bool
is_space c =
    leb 9 c && leb c 13
    || eqb c 32
    || eqb c 133
    || eqb c 160
    || eqb c 5760
    || leb 8192 c && leb c 8202
    || eqb c 8232
    || eqb c 8233
    || eqb c 8239
    || eqb c 8287
    || eqb c 12288

unfoldable pub trim_left : String → String
trim_left String.[] = ""
trim_left (String.◌∷◌ c s) =
    let rest = trim_left s in if is_space (code c) then rest else String.◌∷◌ c s

-- A space goes if nothing but spaces follows it.
abbrev pub before_rest : Char → String → String
before_rest c String.[] = if is_space (code c) then "" else String.◌∷◌ c String.[]
before_rest c (String.◌∷◌ d rest) = String.◌∷◌ c (String.◌∷◌ d rest)

unfoldable pub trim_right : String → String
trim_right String.[] = ""
trim_right (String.◌∷◌ c s) = before_rest c (trim_right s)

-- `strings.TrimSpace`
unfoldable pub trim_space : String → String
unfolding trim_left trim_right is_space
trim_space s = trim_right (trim_left s)

-- `cache.Config{}`
pub data CacheConfig : Type 0 where
  empty_config : CacheConfig

-- The loop over the parts.
unfoldable pub add_namespaces : List String → GoMap String CacheConfig → GoMap String CacheConfig
add_namespaces [] default_namespaces = default_namespaces
add_namespaces (ns ∷ parts) default_namespaces =
    add_namespaces parts (insert (trim_space ns) empty_config default_namespaces)

-- The field `DefaultNamespaces` of the options.
unfoldable pub setup_cache_namespaces : String → GoMap String CacheConfig
unfolding split_comma add_namespaces
setup_cache_namespaces namespaces = add_namespaces (split_comma namespaces) []
