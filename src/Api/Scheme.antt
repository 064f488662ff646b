-- ===== src/Api/Scheme.antt =====
-- The registration of the types with a scheme: api/v1alpha1/groupversion_info.go, the `init` functions of
-- api/v1alpha1/*_types.go, and that of cmd/main.go. The scheme of the API machinery is a parameter, and so
-- is what runs the registrations of a builder.
use k8s_glb_operator.Base.{String, List, [], ◌∷◌}
use k8s_glb_operator.Api.Kube.{Result, ok, ◌>>=◌}

pub record GroupVersion : Type 0 where
  pub group : String
  pub version : String

abbrev pub scheme_group_version : GroupVersion
scheme_group_version = record { group = "glb.antware.xyz"; version = "v1alpha1" }

abbrev pub group_version : GroupVersion
group_version = scheme_group_version

-- `metav1.AddToGroupVersion`, `AddKnownTypes`, the registrations of client-go, and
-- `SchemeBuilder.AddToScheme`.
pub record SchemeCalls (T : Type 0) : Type 0 where
  pub add_to_group_version : T → GroupVersion → T
  pub add_known_types : T → GroupVersion → List String → T
  pub add_clientgo : T → Result T
  pub add_all : List (T → Result T) → T → Result T

module _ {T : Type 0} (calls : SchemeCalls T) where
  -- The function that the builder is made with.
  abbrev pub register_version : T → Result T
  register_version scheme = ok (calls.add_to_group_version scheme scheme_group_version)

  abbrev pub register_backends : T → Result T
  register_backends scheme =
      ok (calls.add_known_types scheme scheme_group_version ("Backend" ∷ "BackendList" ∷ []))

  abbrev pub register_frontends : T → Result T
  register_frontends scheme =
      ok (calls.add_known_types scheme scheme_group_version ("Frontend" ∷ "FrontendList" ∷ []))

  abbrev pub register_load_balancers : T → Result T
  register_load_balancers scheme = ok (
      calls.add_known_types scheme scheme_group_version
        ("GlobalLoadBalancer" ∷ "GlobalLoadBalancerList" ∷ []))

  abbrev pub register_peers : T → Result T
  register_peers scheme =
      ok (calls.add_known_types scheme scheme_group_version ("Peer" ∷ "PeerList" ∷ []))

  -- The builder once the package's `init` functions have run, which Go takes file by file.
  abbrev pub scheme_builder : List (T → Result T)
  scheme_builder =
      register_version ∷ register_backends ∷ register_frontends ∷ register_load_balancers
      ∷ register_peers ∷ []

  abbrev pub add_to_scheme : T → Result T
  add_to_scheme = calls.add_all scheme_builder

  -- The `init` function of cmd/main.go, whose errors are panics.
  unfoldable pub init : T → Result T
  init scheme = do with_kubernetes ← calls.add_clientgo scheme; add_to_scheme with_kubernetes
