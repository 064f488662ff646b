-- ===== src/Memory.antt =====
-- Memory as Go's pointers, slices and maps need it: cells at addresses, and the commands of which the
-- generated copies (api/v1alpha1/zz_generated.deepcopy.go) are made. The type of a cell is a parameter.
-- A slice is the address of an array, all of which it covers.
pub mod Views
pub mod Copies
pub mod Fields
pub mod Maps
use k8s_glb_operator.Base.{
  ℕ, ◌+◌, ◌≡◌, Option, none, some, List, [], ◌∷◌, ◌==◌, if◌then◌else◌, String, string_eq, eqb,
}
use k8s_glb_operator.Base.GoMap.{GoMap, insert}

abbrev pub Ptr : Type 0
Ptr = ℕ

-- The addresses from `next` on are free.
pub record Heap (C : Type 0) : Type 0 where
  pub next : Ptr
  pub cells : Ptr → Option C

-- A command faults where it reads an address that holds nothing of the type that is read.
abbrev pub Cmd : Type 0 → Type 0 → Type 0
Cmd C A = Heap C → Option (A × Heap C)

-- One of the types that a cell holds.
pub record Kind (C A : Type 0) : Type 0 where
  pub put : A → C
  pub get : C → Option A
  pub got : (a : A) → get (put a) ≡ some a

module _ {C : Type 0} where
  abbrev pub pure : {A : Type 0} → A → Cmd C A
  pure a h = some (a, h)

  abbrev pub and_then : {A B : Type 0} → Option (A × Heap C) → (A → Cmd C B) → Option (B × Heap C)
  and_then none k = none
  and_then (some (a, h)) k = k a h

  infixl 5 ◌>>=◌ ◌>>◌
  abbrev pub ◌>>=◌ : {A B : Type 0} → Cmd C A → (A → Cmd C B) → Cmd C B
  m >>= k = λ h. and_then (m h) k

  abbrev pub ◌>>◌ : {A B : Type 0} → Cmd C A → Cmd C B → Cmd C B
  m >> n = m >>= λ _. n

  abbrev read_as : {A : Type 0} → Kind C A → Option C → Option A
  read_as kind none = none
  read_as kind (some c) = kind.get c

  abbrev given : {A : Type 0} → Option A → Heap C → Option (A × Heap C)
  given none h = none
  given (some a) h = some (a, h)

  -- `*p`
  unfoldable pub load : {A : Type 0} → Kind C A → Ptr → Cmd C A
  load kind p h = given (read_as kind (h.cells p)) h

  -- `new(T)` and `make([]T, n)`. The zero value is not kept: it is overwritten before it is read.
  unfoldable pub new : Cmd C Ptr
  new h = some (h.next, record h { next = h.next + 1 })

  -- `*p = a`
  unfoldable pub store : {A : Type 0} → Kind C A → Ptr → A → Cmd C (Unit {0})
  store kind p a h =
      some (tt, record h { cells = λ q. if eqb q p then some (kind.put a) else h.cells q })

  -- `if in.X != nil { *out = new(T); (*in).DeepCopyInto(*out) }`, where `copy` gives what is written.
  unfoldable pub copy_pointer :
      {A : Type 0} → Kind C A → (A → Cmd C A) → Option Ptr → Cmd C (Option Ptr)
  unfolding load new store
  copy_pointer kind copy none = pure none
  copy_pointer kind copy (some p) = do
    a ← load kind p
    q ← new
    b ← copy a
    store kind q b
    pure (some q)

  -- `for i := range *in { (*in)[i].DeepCopyInto(&(*out)[i]) }`
  unfoldable pub copy_each : {A : Type 0} → (A → Cmd C A) → List A → Cmd C (List A)
  copy_each copy [] = pure []
  copy_each copy (a ∷ rest) = do b ← copy a; bs ← copy_each copy rest; pure (b ∷ bs)

-- `for key, val := range *in { (*out)[key] = val }`, on the entries in the order of the range.
unfoldable pub copy_entries : List (String × String) → GoMap String String → GoMap String String
copy_entries [] out = out
copy_entries ((key, val) ∷ entries) out = copy_entries entries (insert key val out)

-- `*out = make(map[string]string, len(*in))` and the loop.
unfoldable pub copy_map :
    {C : Type 0}
    → (GoMap String String → List (String × String))
    → GoMap String String
    → Cmd C (GoMap String String)
unfolding copy_entries
copy_map range m = pure (copy_entries (range m) [])
