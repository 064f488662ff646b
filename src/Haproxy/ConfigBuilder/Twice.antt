-- ===== src/Haproxy/ConfigBuilder/Twice.antt =====
-- The backend sections of the text that `BuildConfig` of internal/haproxy/configbuilder.go prints.
use mathlib.Core.Option
use text.Mathlib.TextLemmas.{append_assoc, nil-append}
use k8s_glb_operator.Base.{
  ℕ, ◌≡◌, refl, sym, ap, subst, ◌∙◌, ◌⊎◌, inl, inr, String, ◌<>◌, some, List, [], ◌∷◌, Bool-cases,
  string_eq,
}
use k8s_glb_operator.Base.GoMap.{GoMap, lookup}
use k8s_glb_operator.Api.{Int32, Result, ok, err, ◌>>=◌, Frontend, Backend, GlobalLoadBalancer}
use k8s_glb_operator.Haproxy.HealthCache.{or_empty}
use k8s_glb_operator.Haproxy.ConfigBuilder.{
  server_lines, use_backends, backend_blocks, frontend_head, frontend_config, load_balancer_config,
  add_replicas, passes, base_config, build_config,
}
use k8s_glb_operator.Haproxy.ConfigBuilder.Replicas.{is_pod, lookup-add_replicas}

-- The line that opens a section.
abbrev pub section_of : Backend → String
section_of backend = "\nbackend " <> backend.name <> "\n  mode tcp\n"

-- A text in which another stands.
pub record Contains (part whole : String) : Type 0 where
  pub before : String
  pub after : String
  pub split : whole ≡ before <> part <> after

-- A text in which another stands twice, one after the other.
pub record ContainsTwice (part whole : String) : Type 0 where
  pub first : String
  pub second : String
  pub split : whole ≡ first <> second
  pub in_first : Contains part first
  pub in_second : Contains part second

ok_inj : {A : Type 0} (a b : A) → ok a ≡ ok b → a ≡ b
ok_inj a b h = cc h

module _ {part : String} where
  Contains-left : (w t : String) → Contains part w → Contains part (w <> t)
  Contains-left w t c = record {
    before = c.before;
    after = c.after <> t;
    split = ap (λ x. x <> t) c.split ∙ simp append_assoc refl;
  }

  Contains-right : (w t : String) → Contains part w → Contains part (t <> w)
  Contains-right w t c = record {
    before = t <> c.before;
    after = c.after;
    split = ap (λ x. t <> x) c.split ∙ simp append_assoc refl;
  }

  ContainsTwice-right : (w t : String) → ContainsTwice part w → ContainsTwice part (t <> w)
  ContainsTwice-right w t c = record {
    first = t <> c.first;
    second = c.second;
    split = ap (λ x. t <> x) c.split ∙ sym (append_assoc t c.first c.second);
    in_first = Contains-right c.first t c.in_first;
    in_second = c.in_second;
  }

-- One element, or two, of which `P` holds.
abbrev pub Any : {A : Type 0} → (A → Type 0) → List A → Type 0
Any P [] = ⊥
Any P (x ∷ xs) = P x ⊎ Any P xs

abbrev pub AnyTwo : {A : Type 0} → (A → Type 0) → List A → Type 0
AnyTwo P [] = ⊥
AnyTwo P (x ∷ xs) = (P x × Any P xs) ⊎ AnyTwo P xs

bind-ok :
    {A B : Type 0} (r : Result A) (f : A → Result B) (b : B)
    → (r >>= f) ≡ ok b
    → (a : A) × (r ≡ ok a) × (f a ≡ ok b)
bind-ok (ok a) f b h = (a, refl, h)
bind-ok (err e) f b h = absurd cc

-- Whether the frontend's name has the backend in the map.
abbrev pub Selects : GoMap String (List Backend) → Backend → Frontend → Type 0
Selects backends x fe = Any (λ y. x ≡ y) (or_empty (lookup fe.name backends))

module _ (show32 : Int32 → String) (show64 : ℕ → String) where
  section-first :
      (x : Backend) (servers blocks : String)
      → Contains (section_of x) ("\nbackend " <> x.name <> "\n  mode tcp\n" <> servers <> blocks)
  section-first x servers blocks = record {
    before = "";
    after = servers <> blocks;
    split = simp (append_assoc, nil-append) refl;
  }

  section-printed :
      (x : Backend) (bs : List Backend) (text : String)
      → Any (λ y. x ≡ y) bs
      → backend_blocks show32 show64 bs ≡ ok text
      → Contains (section_of x) text
  unfolding backend_blocks
  section-printed x [] text m printed = absurd m
  section-printed x (y ∷ bs) text m printed =
      let (servers, _, e) = bind-ok (server_lines show32 show64 y.spec.servers) _ text printed in
      let (blocks, rest, e') = bind-ok (backend_blocks show32 show64 bs) _ text e in
      subst (Contains (section_of x)) (ok_inj _ _ e') (elim m [
        | inl same ↦
            subst
              (λ (z : Backend).
                Contains (section_of z)
                  ("\nbackend " <> y.name <> "\n  mode tcp\n" <> servers <> blocks))
              (sym same) (section-first y servers blocks)
        | inr later ↦ Contains-right _ "\nbackend " (
            Contains-right _ y.name (
              Contains-right _ "\n  mode tcp\n"
                (Contains-right blocks servers (section-printed x bs blocks later rest))))
      ])

  frontend-printed :
      (x : Backend) (fe : Frontend) (bs : List Backend) (text : String)
      → Any (λ y. x ≡ y) bs
      → frontend_config show32 show64 fe bs ≡ ok text
      → Contains (section_of x) text
  unfolding frontend_config
  frontend-printed x fe bs text m printed =
      let (head, _, e) = bind-ok (frontend_head show32 show64 fe fe.spec.service) _ text printed in
      let (blocks, made, e') = bind-ok (backend_blocks show32 show64 bs) _ text e in
      subst (Contains (section_of x)) (ok_inj _ _ e') (
        Contains-right _ head (
          Contains-right blocks (use_backends show32 show64 bs)
            (section-printed x bs blocks m made)))

  some-printed :
      (x : Backend) (backends : GoMap String (List Backend)) (fes : List Frontend) (text : String)
      → Any (Selects backends x) fes
      → load_balancer_config show32 show64 fes backends ≡ ok text
      → Contains (section_of x) text
  unfolding load_balancer_config
  some-printed x backends [] text m printed = absurd m
  some-printed x backends (fe ∷ fes) text m printed =
      let (config, first, e) =
        bind-ok (frontend_config show32 show64 fe (or_empty (lookup fe.name backends))) _ text
          printed in
      let (configs, rest, e') =
        bind-ok (load_balancer_config show32 show64 fes backends) _ text e in
      subst (Contains (section_of x)) (ok_inj _ _ e') (elim m [
        | inl own ↦ Contains-left config configs (frontend-printed x fe _ config own first)
        | inr later ↦ Contains-right configs config (some-printed x backends fes configs later rest)
      ])

  twice-printed :
      (x : Backend) (backends : GoMap String (List Backend)) (fes : List Frontend) (text : String)
      → AnyTwo (Selects backends x) fes
      → load_balancer_config show32 show64 fes backends ≡ ok text
      → ContainsTwice (section_of x) text
  unfolding load_balancer_config
  twice-printed x backends [] text m printed = absurd m
  twice-printed x backends (fe ∷ fes) text m printed =
      let (config, first, e) =
        bind-ok (frontend_config show32 show64 fe (or_empty (lookup fe.name backends))) _ text
          printed in
      let (configs, rest, e') =
        bind-ok (load_balancer_config show32 show64 fes backends) _ text e in
      subst (ContainsTwice (section_of x)) (ok_inj _ _ e') (elim m [
        | inl (own, later) ↦ record {
          first = config;
          second = configs;
          split = refl;
          in_first = frontend-printed x fe _ config own first;
          in_second = some-printed x backends fes configs later rest;
        }
        | inr later ↦
            ContainsTwice-right configs config (twice-printed x backends fes configs later rest)
      ])

  pod_text :
      (lb : GlobalLoadBalancer) (config pod text : String) (n : ℕ)
      → lookup pod (add_replicas show32 show64 lb config n) ≡ some text
      → base_config <> config ≡ text
  pod_text lb config pod text n found = elim (Bool-cases (is_pod show32 show64 lb pod n)) [
    | inl yes_pod ↦
        Option.some-injective _ _
          (sym (lookup-add_replicas show32 show64 lb config pod n ∙ rw yes_pod refl) ∙ found)
    | inr no_pod ↦ absurd (
        Option.none-ne-some _
          (sym (lookup-add_replicas show32 show64 lb config pod n ∙ rw no_pod refl) ∙ found))
  ]

  -- Where two of the frontends, by their names, have a backend in the map that `BuildConfig` is given and it
  -- succeeds, the text of every pod has the opening of this backend's section twice, one after the other.
  pub section_twice :
      (lb : GlobalLoadBalancer) (fes : List Frontend) (backends : GoMap String (List Backend))
      (made : GoMap String String) (pod text : String) (x : Backend)
      → build_config show32 show64 lb fes backends ≡ ok made
      → lookup pod made ≡ some text
      → AnyTwo (Selects backends x) fes
      → ContainsTwice (section_of x) text
  unfolding build_config
  section_twice lb fes backends made pod text x built found shared =
      let (config, printed, e) =
        bind-ok (load_balancer_config show32 show64 fes backends) _ made built in
      subst (ContainsTwice (section_of x))
        (pod_text lb config pod text (passes lb.spec.replicas) (
          subst (λ (m : GoMap String String). lookup pod m ≡ some text) (sym (ok_inj _ _ e)) found))
        (ContainsTwice-right config base_config
          (twice-printed x backends fes config shared printed))
