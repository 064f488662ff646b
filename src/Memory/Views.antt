-- ===== src/Memory/Views.antt =====
-- What a piece of memory stands for, and the addresses between which all of it lies.
use k8s_glb_operator.Base.{
  ◌≡◌, ◌∙◌, ◌≤◌, ◌<◌, Option, none, some, List, [], ◌∷◌, arith, String, string_eq,
}
use k8s_glb_operator.Base.GoMap.{GoMap, lookup, NodupKeys}
use k8s_glb_operator.Memory.{Ptr, Heap, Kind}

-- The value `t` of memory stands for `v`, and each cell that this needs lies from `lo` to below `hi`.
abbrev pub View : Type 0 → Type 0 → Type 0 → Type 1
View C T V = (lo hi : Ptr) → Heap C → T → V → Type 0

-- The cells of a heap at the addresses from `lo` to below `hi` are those of another.
abbrev pub Same : {C : Type 0} → Ptr → Ptr → Heap C → Heap C → Type 0
Same lo hi h g = (a : Ptr) → lo ≤ a → a < hi → g.cells a ≡ h.cells a

-- A view needs no cell beside those in its bounds.
pub record IsLocal {C T V : Type 0} (H : View C T V) : Type 0 where
  pub kept :
      (lo hi lo' hi' : Ptr) (h g : Heap C) (t : T) (v : V)
      → lo' ≤ lo
      → hi ≤ hi'
      → Same lo hi h g
      → H lo hi h t v
      → H lo' hi' g t v

module _ {C : Type 0} where
  -- A value without pointers.
  abbrev pub plain : {T : Type 0} → View C T T
  plain lo hi h t v = t ≡ v

  -- A map, of which the order of the entries is nothing.
  abbrev pub entries : View C (GoMap String String) (GoMap String String)
  entries lo hi h m v = NodupKeys m × ((k : String) → lookup k m ≡ lookup k v)

  module _ {A V : Type 0} (kind : Kind C A) (H : View C A V) where
    -- The address holds what stands for the value.
    pub record PointsTo (lo hi : Ptr) (h : Heap C) (p : Ptr) (v : V) : Type 0 where
      pub from : lo ≤ p
      pub below : p < hi
      pub target : A
      pub at : h.cells p ≡ some (kind.put target)
      pub held : H lo hi h target v

    -- A pointer that can be nil.
    abbrev pub pointer : View C (Option Ptr) (Option V)
    pointer lo hi h none none = Unit
    pointer lo hi h none (some v) = ⊥
    pointer lo hi h (some p) none = ⊥
    pointer lo hi h (some p) (some v) = PointsTo lo hi h p v

  abbrev pub each : {A V : Type 0} → View C A V → View C (List A) (List V)
  each H lo hi h [] [] = Unit
  each H lo hi h [] (v ∷ vs) = ⊥
  each H lo hi h (a ∷ rest) [] = ⊥
  each H lo hi h (a ∷ rest) (v ∷ vs) = H lo hi h a v × each H lo hi h rest vs

  -- Nil stands for `zero`: a slice or a map that is nil has no elements.
  abbrev pub nilable : {A V : Type 0} → Kind C A → View C A V → V → View C (Option Ptr) V
  nilable kind H zero lo hi h none v = v ≡ zero
  nilable kind H zero lo hi h (some p) v = PointsTo kind H lo hi h p v

  pub plain-IsLocal : {T : Type 0} → IsLocal (plain {T = T})
  plain-IsLocal = record { kept = λ lo hi lo' hi' h g t v from to same held. held }

  pub entries-IsLocal : IsLocal entries
  entries-IsLocal = record { kept = λ lo hi lo' hi' h g t v from to same held. held }

  module _ {A V : Type 0} (kind : Kind C A) (H : View C A V) (local : IsLocal H) where
    pub PointsTo-kept :
        (lo hi lo' hi' : Ptr) (h g : Heap C) (p : Ptr) (v : V)
        → lo' ≤ lo
        → hi ≤ hi'
        → Same lo hi h g
        → PointsTo kind H lo hi h p v
        → PointsTo kind H lo' hi' g p v
    PointsTo-kept lo hi lo' hi' h g p v from to same c = record {
      from = omega (arith, c.from);
      below = omega (arith, c.below);
      target = c.target;
      at = same p c.from c.below ∙ c.at;
      held = local.kept lo hi lo' hi' h g c.target v from to same c.held;
    }

    pointer-kept :
        (lo hi lo' hi' : Ptr) (h g : Heap C) (t : Option Ptr) (v : Option V)
        → lo' ≤ lo
        → hi ≤ hi'
        → Same lo hi h g
        → pointer kind H lo hi h t v
        → pointer kind H lo' hi' g t v
    pointer-kept lo hi lo' hi' h g none none from to same held = tt
    pointer-kept lo hi lo' hi' h g none (some v) from to same held = absurd held
    pointer-kept lo hi lo' hi' h g (some p) none from to same held = absurd held
    pointer-kept lo hi lo' hi' h g (some p) (some v) from to same held =
        PointsTo-kept lo hi lo' hi' h g p v from to same held

    pub pointer-IsLocal : IsLocal (pointer kind H)
    pointer-IsLocal = record { kept = pointer-kept }

    nilable-kept :
        (zero : V) (lo hi lo' hi' : Ptr) (h g : Heap C) (t : Option Ptr) (v : V)
        → lo' ≤ lo
        → hi ≤ hi'
        → Same lo hi h g
        → nilable kind H zero lo hi h t v
        → nilable kind H zero lo' hi' g t v
    nilable-kept zero lo hi lo' hi' h g none v from to same held = held
    nilable-kept zero lo hi lo' hi' h g (some p) v from to same held =
        PointsTo-kept lo hi lo' hi' h g p v from to same held

    pub nilable-IsLocal : (zero : V) → IsLocal (nilable kind H zero)
    nilable-IsLocal zero = record { kept = nilable-kept zero }

  module _ {A V : Type 0} (H : View C A V) (local : IsLocal H) where
    each-kept :
        (lo hi lo' hi' : Ptr) (h g : Heap C) (t : List A) (v : List V)
        → lo' ≤ lo
        → hi ≤ hi'
        → Same lo hi h g
        → each H lo hi h t v
        → each H lo' hi' g t v
    each-kept lo hi lo' hi' h g [] [] from to same held = tt
    each-kept lo hi lo' hi' h g [] (v ∷ vs) from to same held = absurd held
    each-kept lo hi lo' hi' h g (a ∷ rest) [] from to same held = absurd held
    each-kept lo hi lo' hi' h g (a ∷ rest) (v ∷ vs) from to same (one, others) = (
      local.kept lo hi lo' hi' h g a v from to same one,
      each-kept lo hi lo' hi' h g rest vs from to same others,
    )

    pub each-IsLocal : IsLocal (each H)
    each-IsLocal = record { kept = each-kept }
