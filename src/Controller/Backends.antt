-- ===== src/Controller/Backends.antt =====
-- `getBackends` of internal/controller/globalloadbalancer_controller.go. The list of backends behind
-- the client is a parameter, and so is the parsing of a selector.
pub mod Selected
use k8s_glb_operator.Base.{Bool, String, List, [], ◌∷◌, string_eq}
use k8s_glb_operator.Base.GoMap.{GoMap, insert}
use k8s_glb_operator.Api.{Labels, LabelSelector, wrapped, Result, ok, err, ◌>>=◌, Backend, Frontend}

abbrev pub wrap_error : {A : Type 0} → Result A → Result A
wrap_error (ok a) = ok a
wrap_error (err e) = err (wrapped "invalid backend selector on GlobalLoadBalancer" e)

module _ (as_selector : LabelSelector → Result (Labels → Bool))
    (list_backends : (Labels → Bool) → Result (List Backend)) where
  -- The backends that a frontend selects, in every namespace.
  unfoldable pub select_backends : Frontend → Result (List Backend)
  select_backends fe = do
    matches ← wrap_error (as_selector fe.spec.backend_selector)
    list_backends matches

  -- The loop, from the map made so far. What it holds at an error is not used by the caller.
  unfoldable pub add_backends :
      List Frontend → GoMap String (List Backend) → Result (GoMap String (List Backend))
  unfolding select_backends
  add_backends [] backend_map = ok backend_map
  add_backends (fe ∷ fes) backend_map = do
    items ← select_backends fe
    add_backends fes (insert fe.name items backend_map)

  unfoldable pub get_backends : List Frontend → Result (GoMap String (List Backend))
  unfolding add_backends
  get_backends fes = add_backends fes []
