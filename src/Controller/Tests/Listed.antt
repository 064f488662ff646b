-- ===== src/Controller/Tests/Listed.antt =====
-- `getBackends` of internal/controller/globalloadbalancer_controller.go at two frontends that share a name.
use k8s_glb_operator.Base.{◌≡◌, refl, Bool, true, String, none, some, List, [], ◌∷◌, string_eq}
use k8s_glb_operator.Base.GoMap.{GoMap, lookup}
use k8s_glb_operator.Api.{Labels, LabelSelector, Result, ok, bare_meta, Backend, Frontend}
use k8s_glb_operator.Controller.Backends.{select_backends, get_backends}
use k8s_glb_operator.Controller.Backends.Selected.{last_named, lookup-get_backends}
use k8s_glb_operator.Controller.Tests.{frontend}

abbrev api : Backend
api = record {
  metadata = bare_meta "glb" "api";
  spec = record { host = "api.example"; strategy = none; sticky_sessions = none; servers = [] };
  status = record { conditions = [] };
}

abbrev one : Frontend
one = frontend "web" (some 10000) none

abbrev two : Frontend
two = record one { metadata = bare_meta "other" "web" }

abbrev match_all : LabelSelector → Result (Labels → Bool)
match_all _ = ok (λ _. true)

abbrev all_backends : (Labels → Bool) → Result (List Backend)
all_backends matches = ok (api ∷ [])

lookup-get_backends_example :
    (m : GoMap String (List Backend)) × (get_backends match_all all_backends (one ∷ two ∷ [])
      ≡ ok m)
    × ((k : String) → lookup k m ≡ last_named (λ _. api ∷ []) k (one ∷ two ∷ []))
unfolding select_backends
lookup-get_backends_example =
    lookup-get_backends match_all all_backends (λ _. api ∷ []) (one ∷ two ∷ []) (refl, (refl, tt))
