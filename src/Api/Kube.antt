-- ===== src/Api/Kube.antt =====
-- What the operator uses of Kubernetes' own types: names, metadata, label selectors, pods, and the
-- errors of a client.
use mathlib.Core.Logic.{dite}
use k8s_glb_operator.Base.{
  Bool, true, false, Option, none, some, if◌then◌else◌, ℕ, ◌≡◌, refl, ap, ◌⊎◌, inl, inr, String,
  List, Eq, string_eq, string_dec,
}
use k8s_glb_operator.Base.GoMap.{GoMap}

-- The bit pattern of an `int32`.
abbrev pub Int32 : Type 0
Int32 = ℕ

abbrev pub Uid : Type 0
Uid = String

abbrev pub Labels : Type 0
Labels = GoMap String String

pub record NamespacedName : Type 0 where
  pub namespace : String
  pub name : String

named : String → String → NamespacedName
named ns n = record { namespace = ns; name = n }

named_dec : (a b : NamespacedName) → Dec (a.name ≡ b.name) → a.namespace ≡ b.namespace → Dec (a ≡ b)
named_dec a b (yes q) p = yes (λ i. record { namespace = p i; name = q i })
named_dec a b (no q) p = no (λ e. q (ap (λ (x : NamespacedName). x.name) e))

pub NamespacedName-discrete : Discrete NamespacedName
unfolding named_dec
NamespacedName-discrete a b =
    dite (string_dec a.namespace b.namespace) (named_dec a b (string_dec a.name b.name))
      (λ p. no (λ e. p (ap (λ (x : NamespacedName). x.namespace) e)))

instance unfoldable pub namespaced_name_eq : Eq NamespacedName
unfolding NamespacedName-discrete
namespaced_name_eq = record { dec = NamespacedName-discrete }

pub record OwnerReference : Type 0 where
  pub kind : String
  pub name : String
  pub uid : Uid

-- `creation_timestamp` is none for the zero time: the server has not made the object yet.
pub record ObjectMeta : Type 0 where
  pub namespace : String
  pub name : String
  pub uid : Uid
  pub labels : Labels
  pub annotations : Labels
  pub owner_references : List OwnerReference
  pub creation_timestamp : Option ℕ

pub record LabelSelectorRequirement : Type 0 where
  pub key : String
  pub operator : String
  pub values : List String

pub record LabelSelector : Type 0 where
  pub match_labels : Labels
  pub match_expressions : List LabelSelectorRequirement

pub record Condition : Type 0 where
  pub kind : String
  pub status : String
  pub reason : String
  pub message : String

pub record Pod : Type 0 where
  pub metadata : ObjectMeta
  pub open metadata use {namespace, name, uid, labels}
  pub node_name : String
  pub pod_ip : String

-- What a client call or a handler fails with. `wrapped` is `fmt.Errorf("...: %w", err)`; a panic on
-- a nil pointer or map ends the handler too, and the controller turns it into an error.
pub data Error : Type 0 where
  not_found : Error
  nil_dereference : Error
  nil_map_write : Error
  failure : String → Error
  wrapped : String → Error → Error

-- A value and a nil error, or an error.
pub data Result {ℓ} (A : Type ℓ) : Type ℓ where
  ok : A → Result A
  err : Error → Result A

infixl 5 ◌>>=◌
abbrev pub ◌>>=◌ {ℓ κ} : {A : Type ℓ} {B : Type κ} → Result A → (A → Result B) → Result B
ok a >>= f = f a
err e >>= f = err e

pub Result-cases {ℓ} :
    {A : Type ℓ} (r : Result A) → ((e : Error) × (r ≡ err e)) ⊎ ((a : A) × (r ≡ ok a))
Result-cases (ok a) = inr (a, refl)
Result-cases (err e) = inl (e, refl)

abbrev pub is_not_found : Error → Bool
is_not_found not_found = true
is_not_found nil_dereference = false
is_not_found nil_map_write = false
is_not_found (failure s) = false
is_not_found (wrapped s e) = is_not_found e

-- `client.IgnoreNotFound`
abbrev pub ignore_not_found : Error → Option Error
ignore_not_found e = if is_not_found e then none else some e

abbrev pub error_of {ℓ} : {A : Type ℓ} → Result A → Option Error
error_of (ok a) = none
error_of (err e) = some e
