-- ===== src/Controller/Backends/Selected.antt =====
-- The map that `getBackends` makes (internal/controller/globalloadbalancer_controller.go).
use k8s_glb_operator.Base.{
  ◌≡◌, refl, ap, ◌∙◌, Bool, String, Option, none, some, List, [], ◌∷◌, if◌then◌else◌, ◌==◌,
  string_eq, arith, All,
}
use k8s_glb_operator.Base.GoMap.{GoMap, lookup, insert, lookup-insert, lookup-nil}
use k8s_glb_operator.Api.{Labels, LabelSelector, Result, ok, ◌>>=◌, Backend, Frontend}
use k8s_glb_operator.Haproxy.HealthCache.Health.{or_else}
use k8s_glb_operator.Controller.Backends.{select_backends, add_backends, get_backends}

-- What the last frontend of the name selects.
unfoldable pub last_named :
    (Frontend → List Backend) → String → List Frontend → Option (List Backend)
last_named items k [] = none
last_named items k (fe ∷ fes) =
    or_else (last_named items k fes) (if k == fe.name then some (items fe) else none)

module _ (as_selector : LabelSelector → Result (Labels → Bool))
    (list_backends : (Labels → Bool) → Result (List Backend))
    (items : Frontend → List Backend) where
  abbrev pub IsSelected : Frontend → Type 0
  IsSelected fe = (select_backends as_selector list_backends fe ≡ ok (items fe))

  added :
      (fes : List Frontend) (acc : GoMap String (List Backend))
      → All IsSelected fes
      → (m : GoMap String (List Backend)) × (add_backends as_selector list_backends fes acc ≡ ok m)
        × ((k : String) → lookup k m ≡ or_else (last_named items k fes) (lookup k acc))
  unfolding add_backends last_named
  added [] acc h = (acc, refl, λ k. refl)
  added (fe ∷ fes) acc (selected, h) =
      let (m, e, found) = added fes (insert fe.name (items fe) acc) h in
      (
        m,
        ap
              (λ (r : Result (List Backend)).
                r >>= λ xs. add_backends as_selector list_backends fes (insert fe.name xs acc))
              selected
            ∙ e,
        λ k. ground (arith, found k, lookup-insert k fe.name (items fe) acc),
      )

  -- If every frontend's selector is valid and every list succeeds, `getBackends` succeeds, and for each name its
  -- map holds the backends that the last frontend of that name selects: of two frontends that share
  -- their name in two namespaces, the first has the backends of the second.
  pub lookup-get_backends :
      (fes : List Frontend)
      → All IsSelected fes
      → (m : GoMap String (List Backend)) × (get_backends as_selector list_backends fes ≡ ok m)
        × ((k : String) → lookup k m ≡ last_named items k fes)
  unfolding get_backends
  lookup-get_backends fes h =
      let (m, e, found) = added fes [] h in
      (m, e, λ k. ground (arith, found k, lookup-nil {V = List Backend} k))
