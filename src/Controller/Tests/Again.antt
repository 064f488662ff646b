-- ===== src/Controller/Tests/Again.antt =====
-- Two passes of `ReconcileFrontends` over a server that lists the frontends with their stored statuses.
use mathlib.Core.List.{mem-cons_self, mem-cons_of_mem}
use k8s_glb_operator.Base.{◌≡◌, refl, Option, none, some, List, map, string_eq}
use k8s_glb_operator.Base.GoMap.{lookup, insert, lookup-insert}
use k8s_glb_operator.Api.{namespaced_name_eq, ok, Frontend, FrontendStatus, frontend_key}
use k8s_glb_operator.Controller.Frontends.{
  FrontendClient, keep_frontends, assign, round, after_update, get_frontends, reconcile_frontends,
}
use k8s_glb_operator.Controller.Frontends.Assigned.{Accepts}
use k8s_glb_operator.Controller.Frontends.Again.{second_pass}
use k8s_glb_operator.Controller.Tests.{
  Store, status_of, lb, all, match_all, stored, distinct, api, web,
}

abbrev or_listed : Frontend → Option FrontendStatus → Frontend
or_listed fe none = fe
or_listed fe (some status) = record fe { status = status }

abbrev client : FrontendClient Store
client = record {
  list_frontends = λ s matches. ok (map (λ fe. or_listed fe (status_of s (frontend_key fe))) all);
  update_status = λ s fe. (insert (frontend_key fe) fe.status s, none);
}

accepts : Accepts client status_of
accepts = record {
  accepted = λ s fe. refl;
  written = λ s fe k. lookup-insert k (frontend_key fe) fe.status s;
}

abbrev after : Store
after = (reconcile_frontends client match_all 10000 stored lb).0

abbrev again : List Frontend
again = map (λ fe. or_listed fe (status_of after (frontend_key fe))) all

computing : Unit {0}
unfolding get_frontends keep_frontends string_eq lookup insert namespaced_name_eq
    reconcile_frontends assign round after_update
computing = tt

second_pass_example : reconcile_frontends client match_all 10000 after lb ≡ (after, none)
unfolding computing
second_pass_example =
    second_pass client status_of accepts match_all 10000 stored lb all refl distinct
      (refl, (refl, (refl, tt))) again refl
      (
        (mem-cons_self, refl),
        (
          (mem-cons_of_mem (frontend_key api) mem-cons_self, refl),
          (
            (
              mem-cons_of_mem (frontend_key api) (mem-cons_of_mem (frontend_key web) mem-cons_self),
              refl,
            ),
            tt,
          ),
        ),
      )
