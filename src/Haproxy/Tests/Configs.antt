-- ===== src/Haproxy/Tests/Configs.antt =====
-- `BuildConfig` of internal/haproxy/configbuilder.go for two replicas, one frontend and one backend.
use k8s_glb_operator.Base.{
  ℕ, ◌≡◌, ◌↔◌, inl, All, refl, String, ◌<>◌, some, none, [], ◌∷◌, List, if◌then◌else◌, eqb,
  string_eq,
}
use k8s_glb_operator.Base.GoMap.{GoMap, lookup, insert}
use k8s_glb_operator.Api.{
  LabelSelector, bare_meta, Backend, Frontend, FrontendStatus, Result, GlobalLoadBalancer,
  nil_dereference, ok, err,
}
use k8s_glb_operator.Haproxy.ConfigBuilder.{
  or_blank, add_replica, server_line, pod_name, build_config, passes,
}
use k8s_glb_operator.Haproxy.ConfigBuilder.Printed.{IsPrintable, build_config_nil}
use k8s_glb_operator.Haproxy.ConfigBuilder.Text.{fixed_text, frontends_text}
use k8s_glb_operator.Haproxy.ConfigBuilder.Unread.{with_status, status_unread}
use k8s_glb_operator.Haproxy.ConfigBuilder.Twice.{
  Selects, AnyTwo, ContainsTwice, section_of, section_twice,
}
use k8s_glb_operator.Haproxy.ConfigBuilder.Replicas.{is_pod, lookup-build_config}

abbrev digit : ℕ → String
digit n = if eqb n 0 then "0" else if eqb n 1 then "1" else "443"

abbrev any_labels : LabelSelector
any_labels = record { match_labels = []; match_expressions = [] }

abbrev lb : GlobalLoadBalancer
lb = record {
  metadata = bare_meta "glb" "lb";
  spec = record { replicas = 2; image = "haproxy"; peers = none; frontend_selector = any_labels };
  status = record { conditions = [] };
}

abbrev web : Frontend
web = record {
  metadata = bare_meta "glb" "web";
  spec = record {
    service = some (record { ip_address = none; port = 443; annotations = [] });
    backend_selector = any_labels;
  };
  status = record { conditions = []; port = some 10000; load_balancer = none };
}

abbrev api : Backend
api = record {
  metadata = bare_meta "glb" "api";
  spec = record {
    host = "api.example";
    strategy = none;
    sticky_sessions = none;
    servers = some (record { name = "s1"; address = "10.1.0.1"; port = 443 }) ∷ [];
  };
  status = record { conditions = [] };
}

abbrev backends : GoMap String (List Backend)
backends = ("web", api ∷ []) ∷ []

printable : IsPrintable backends web
unfolding lookup string_eq
printable = ((_, refl), (((_, refl), tt), tt))

lookup-build_config_example :
    (m : GoMap String String) × (build_config digit digit lb (web ∷ []) backends ≡ ok m)
    × ((k : String)
        → lookup k m ≡ (
            if is_pod digit digit lb k (passes 2)
            then some (fixed_text <> frontends_text digit digit (web ∷ []) backends)
            else none))
lookup-build_config_example = lookup-build_config digit digit lb (web ∷ []) backends (printable, tt)

-- A frontend without a service.
abbrev bare : Frontend
bare = record web { spec = record (web.spec) { service = none } }

build_config_nil_example :
    (build_config digit digit lb (bare ∷ []) backends ≡ err nil_dereference)
    ↔ (¬ All (IsPrintable backends) (bare ∷ []))
build_config_nil_example = build_config_nil digit digit lb (bare ∷ []) backends

-- The port of the status is another one than the service's.
abbrev ported : Frontend → FrontendStatus
ported fe = record (fe.status) { port = some 10007 }

status_unread_example :
    build_config digit digit lb (with_status ported web ∷ []) backends
    ≡ build_config digit digit lb (web ∷ []) backends
status_unread_example = status_unread digit digit ported lb (web ∷ []) backends

-- Two frontends that select the one backend.
abbrev mail : Frontend
mail = record web { metadata = bare_meta "glb" "mail" }

abbrev shared : GoMap String (List Backend)
shared = ("web", api ∷ []) ∷ ("mail", api ∷ []) ∷ []

both_select : AnyTwo (Selects shared api) (web ∷ mail ∷ [])
unfolding lookup string_eq
both_select = inl (inl refl, inl (inl refl))

abbrev value_of : Result (GoMap String String) → GoMap String String
value_of (ok m) = m
value_of (err e) = []

abbrev made : GoMap String String
made = value_of (build_config digit digit lb (web ∷ mail ∷ []) shared)

abbrev text_of : String → String
text_of pod = or_blank (lookup pod made)

section_twice_example : ContainsTwice (section_of api) (text_of "lb-haproxy-1")
unfolding build_config add_replica pod_name server_line lookup insert string_eq
section_twice_example =
    section_twice digit digit lb (web ∷ mail ∷ []) shared made "lb-haproxy-1"
      (text_of "lb-haproxy-1") api refl refl both_select
