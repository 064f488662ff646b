-- ===== src/Memory/Fields.antt =====
-- A command that copies with the view that it keeps, and what is made of such fields: pointers, slices and
-- structs.
use k8s_glb_operator.Base.{◌≡◌, refl, ◌≤◌, Option, List, [], ◌∷◌, arith, string_eq}
use k8s_glb_operator.Memory.{Ptr, Heap, Cmd, Kind, pure, ◌>>=◌, copy_pointer, copy_each}
use k8s_glb_operator.Memory.Views.{
  View, IsLocal, plain, pointer, each, nilable, plain-IsLocal, pointer-IsLocal, nilable-IsLocal,
  each-IsLocal,
}
use k8s_glb_operator.Memory.Copies.{
  Returns, Copies, bind, mono_at, returned, plain-Copies, pointer-Copies, nilable-Copies,
}

-- A command that copies, with the view that it keeps.
pub record Field (C T V : Type 0) : Type 1 where
  pub view : View C T V
  pub local : IsLocal view
  pub copy : T → Cmd C T
  pub copies : Copies view copy

module _ {C : Type 0} where
  -- The field still stands for its value after a command that returns.
  pub still :
      {T V A : Type 0} (f : Field C T V) {h : Heap C} {Q : A → Heap C → Type 0}
      {r : Option (A × Heap C)} (c : Returns h Q r) (lo : Ptr) (t : T) (v : V)
      → f.view lo h.next h t v
      → f.view lo c.after.next c.after t v
  still f {h} c lo t v held =
      f.local.kept lo h.next lo c.after.next h c.after t v (omega arith) c.grows
        (λ a from below. c.old a below) held

  wider :
      {T V : Type 0} (f : Field C T V) (lo lo' hi : Ptr) (h : Heap C) (t : T) (v : V)
      → lo' ≤ lo
      → f.view lo hi h t v
      → f.view lo' hi h t v
  wider f lo lo' hi h t v from held =
      f.local.kept lo hi lo' hi h h t v from (omega arith) (λ a b c. refl) held

  module _ {T V T₁ V₁ : Type 0} (H : View C T V) (f : Field C T₁ V₁) where
    -- A struct of which one field is copied.
    pub one :
        (make : T₁ → T) (v : V) (v₁ : V₁)
        → ((lo hi : Ptr) (g : Heap C) (x : T₁) → f.view lo hi g x v₁ → H lo hi g (make x) v)
        → (lo : Ptr) (h : Heap C) (a : T₁) → f.view lo h.next h a v₁
        → Returns h (λ t g. H h.next g.next g t v) ((f.copy a >>= λ x. pure (make x)) h)
    one make v v₁ build lo h a held =
        let first = f.copies lo h a v₁ held in
        bind h (f.copy a) (λ x. pure (make x)) first
          (returned first.after (make first.value)
            (build h.next first.after.next first.after first.value first.reached))

  module _ {T V T₁ V₁ T₂ V₂ : Type 0} (H : View C T V) (f : Field C T₁ V₁) (g : Field C T₂ V₂) where
    -- A struct of which two fields are copied, one after the other.
    pub two :
        (make : T₁ → T₂ → T) (v : V) (v₁ : V₁) (v₂ : V₂)
        → ((lo hi : Ptr) (m : Heap C) (x : T₁) (y : T₂)
            → f.view lo hi m x v₁
            → g.view lo hi m y v₂
            → H lo hi m (make x y) v)
        → (lo : Ptr) (h : Heap C) (a : T₁) (b : T₂) → f.view lo h.next h a v₁
        → g.view lo h.next h b v₂
        → Returns h
            (λ t m. H h.next m.next m t v)
            ((f.copy a >>= λ x. g.copy b >>= λ y. pure (make x y)) h)
    two make v v₁ v₂ build lo h a b held₁ held₂ =
        let first = f.copies lo h a v₁ held₁ in
        let second = g.copies lo first.after b v₂ (still g first lo b v₂ held₂) in
        bind h (f.copy a) (λ x. g.copy b >>= λ y. pure (make x y)) first
          (bind first.after (g.copy b) (λ y. pure (make first.value y)) second
            (returned second.after (make first.value second.value) (
              build h.next second.after.next second.after first.value second.value
                (still f second h.next first.value v₁ first.reached)
                (wider g first.after.next h.next second.after.next second.after second.value v₂
                  first.grows second.reached))))

  module _ {T V T₁ V₁ T₂ V₂ T₃ V₃ : Type 0} (H : View C T V) (f : Field C T₁ V₁) (g : Field C T₂ V₂)
      (e : Field C T₃ V₃) where
    -- A struct of which three fields are copied.
    pub three :
        (make : T₁ → T₂ → T₃ → T) (v : V) (v₁ : V₁) (v₂ : V₂) (v₃ : V₃)
        → ((lo hi : Ptr) (m : Heap C) (x : T₁) (y : T₂) (z : T₃)
            → f.view lo hi m x v₁
            → g.view lo hi m y v₂
            → e.view lo hi m z v₃
            → H lo hi m (make x y z) v)
        → (lo : Ptr) (h : Heap C) (a : T₁) (b : T₂) (c : T₃) → f.view lo h.next h a v₁
        → g.view lo h.next h b v₂
        → e.view lo h.next h c v₃
        → Returns h
            (λ t m. H h.next m.next m t v)
            ((f.copy a >>= λ x. g.copy b >>= λ y. e.copy c >>= λ z. pure (make x y z)) h)
    three make v v₁ v₂ v₃ build lo h a b c held₁ held₂ held₃ =
        let first = f.copies lo h a v₁ held₁ in
        let low = first.after in
        let rest =
          two
            (λ lo' hi m t v'. f.view h.next hi m first.value v₁ → h.next ≤ lo' → H h.next hi m t v)
            g e (make first.value) v v₂ v₃
            (λ lo' hi m y z held_y held_z held_x from.
              build h.next hi m first.value y z held_x (wider g lo' h.next hi m y v₂ from held_y)
                (wider e lo' h.next hi m z v₃ from held_z))
            lo low b c (still g first lo b v₂ held₂) (still e first lo c v₃ held₃) in
        bind h (f.copy a) (λ x. g.copy b >>= λ y. e.copy c >>= λ z. pure (make x y z)) first
          (mono_at rest (λ q. q (still f rest h.next first.value v₁ first.reached) first.grows))

  -- What is made of a field: pointers, slices and arrays of it.
  module _ {A V : Type 0} (kind : Kind C A) (f : Field C A V) where
    abbrev pub pointer_field : Field C (Option Ptr) (Option V)
    pointer_field = record {
      view = pointer kind f.view;
      local = pointer-IsLocal kind f.view f.local;
      copy = copy_pointer kind f.copy;
      copies = pointer-Copies kind f.view f.local f.copy f.copies;
    }

    abbrev pub nilable_field : V → Field C (Option Ptr) V
    nilable_field zero = record {
      view = nilable kind f.view zero;
      local = nilable-IsLocal kind f.view f.local zero;
      copy = copy_pointer kind f.copy;
      copies = nilable-Copies kind f.view f.local f.copy f.copies zero;
    }

  module _ {A V : Type 0} (f : Field C A V) where
    pub each-Copies : Copies (each f.view) (copy_each f.copy)
    unfolding copy_each
    each-Copies lo h [] [] held = returned h [] held
    each-Copies lo h [] (v ∷ vs) held = absurd held
    each-Copies lo h (a ∷ rest) [] held = absurd held
    each-Copies lo h (a ∷ rest) (v ∷ vs) (one_held, rest_held) =
        let first = f.copies lo h a v one_held in
        let second = each-Copies lo first.after rest vs (
          (each-IsLocal f.view f.local).kept lo h.next lo first.after.next h first.after rest vs
            (omega arith) first.grows (λ a from below. first.old a below) rest_held) in
        bind h (f.copy a) (λ b. copy_each f.copy rest >>= λ bs. pure (b ∷ bs)) first
          (bind first.after (copy_each f.copy rest) (λ bs. pure (first.value ∷ bs)) second
            (returned second.after (first.value ∷ second.value) (
              still f second h.next first.value v first.reached,
              (each-IsLocal f.view f.local).kept first.after.next second.after.next h.next
                  second.after.next second.after second.after second.value vs first.grows
                  (omega arith) (λ a b c. refl) second.reached,
            )))

    abbrev pub each_field : Field C (List A) (List V)
    each_field = record {
      view = each f.view;
      local = each-IsLocal f.view f.local;
      copy = copy_each f.copy;
      copies = each-Copies;
    }

  abbrev pub plain_field : (T : Type 0) → Field C T T
  plain_field T = record {
    view = plain {C = C} {T = T};
    local = plain-IsLocal;
    copy = pure;
    copies = plain-Copies;
  }

-- Views of the parts of a struct.
module _ {C T V : Type 0} where
  pub and_IsLocal :
      {H₁ H₂ : View C T V}
      → IsLocal H₁
      → IsLocal H₂
      → IsLocal (λ lo hi h t v. H₁ lo hi h t v × H₂ lo hi h t v)
  and_IsLocal first second = record {
    kept = λ lo hi lo' hi' h g t v from to same held. (
      first.kept lo hi lo' hi' h g t v from to same held.0,
      second.kept lo hi lo' hi' h g t v from to same held.1,
    );
  }

  pub on_field_IsLocal :
      {T₁ V₁ : Type 0} (f : Field C T₁ V₁) (part : T → T₁) (value : V → V₁)
      → IsLocal (λ lo hi h t v. f.view lo hi h (part t) (value v))
  on_field_IsLocal f part value = record {
    kept = λ lo hi lo' hi' h g t v. f.local.kept lo hi lo' hi' h g (part t) (value v);
  }

  pub on_plain_IsLocal :
      {U : Type 0} (part : T → U) (value : V → U)
      → IsLocal {C = C} (λ lo hi h t v. part t ≡ value v)
  on_plain_IsLocal part value = record { kept = λ lo hi lo' hi' h g t v from to same held. held }
