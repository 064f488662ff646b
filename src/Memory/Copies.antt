-- ===== src/Memory/Copies.antt =====
-- Commands that copy: what stands for a value comes to stand for it a second time, in new cells alone.
use k8s_glb_operator.Base.{
  ◌≡◌, ◌≢◌, refl, ap, ◌∙◌, ◌≤◌, ◌<◌, ◌+◌, Option, none, some, arith, eqb, if◌then◌else◌,
}
use k8s_glb_operator.Memory.{
  Ptr, Heap, Cmd, Kind, pure, and_then, ◌>>=◌, load, new, store, copy_pointer,
}
use k8s_glb_operator.Memory.Views.{View, IsLocal, plain, PointsTo, pointer, nilable}

-- The command returns, has taken new cells and written no cell that was in use before.
pub record Returns {C A : Type 0} (h : Heap C) (Q : A → Heap C → Type 0) (r : Option (A × Heap C))
    : Type 0 where
  pub value : A
  pub after : Heap C
  pub done : r ≡ some (value, after)
  pub grows : h.next ≤ after.next
  pub old : (a : Ptr) → a < h.next → after.cells a ≡ h.cells a
  pub reached : Q value after

-- What stands for the value in some heap stands for it again, in cells that were free.
abbrev pub Copies : {C T V : Type 0} → View C T V → (T → Cmd C T) → Type 0
Copies {C} {T} {V} H copy =
    (lo : Ptr) (h : Heap C) (t : T) (v : V)
    → H lo h.next h t v
    → Returns h (λ t' g. H h.next g.next g t' v) (copy t h)

module _ {C : Type 0} where
  pub bind :
      {A B : Type 0} {Q : A → Heap C → Type 0} {R : B → Heap C → Type 0} (h : Heap C) (m : Cmd C A)
      (k : A → Cmd C B) (first : Returns h Q (m h))
      → Returns first.after R (k first.value first.after)
      → Returns h R ((m >>= k) h)
  bind h m k first second = record {
    value = second.value;
    after = second.after;
    done = ap (λ r. and_then r k) first.done ∙ second.done;
    grows = omega (arith, first.grows, second.grows);
    old = λ a below. second.old a (omega (arith, below, first.grows)) ∙ first.old a below;
    reached = second.reached;
  }

  pub mono_at :
      {A : Type 0} {Q R : A → Heap C → Type 0} {h : Heap C} {r : Option (A × Heap C)}
      (c : Returns h Q r)
      → (Q c.value c.after → R c.value c.after)
      → Returns h R r
  mono_at c weaken = record {
    value = c.value;
    after = c.after;
    done = c.done;
    grows = c.grows;
    old = c.old;
    reached = weaken c.reached;
  }

  pub returned :
      {A : Type 0} {Q : A → Heap C → Type 0} (h : Heap C) (a : A) → Q a h → Returns h Q (pure a h)
  returned h a reached = record {
    value = a;
    after = h;
    done = refl;
    grows = omega arith;
    old = λ a below. refl;
    reached = reached;
  }

  pub plain-Copies : {T : Type 0} → Copies (plain {C = C} {T = T}) pure
  plain-Copies lo h t v same = returned h t same

  module _ {A V : Type 0} (kind : Kind C A) (H : View C A V) (local : IsLocal H)
      (copy : A → Cmd C A) (copies : Copies H copy) where
    abbrev taken : Heap C → Heap C
    taken h = record h { next = h.next + 1 }

    load-PointsTo :
        (lo hi : Ptr) (h : Heap C) (p : Ptr) (v : V) (c : PointsTo kind H lo hi h p v)
        → load kind p h ≡ some (c.target, h)
    unfolding load
    load-PointsTo lo hi h p v c = rw (c.at, kind.got c.target) refl

    target_copied :
        (lo : Ptr) (h : Heap C) (p : Ptr) (v : V) (c : PointsTo kind H lo h.next h p v)
        → Returns (taken h) (λ b g. H (h.next + 1) g.next g b v) (copy c.target (taken h))
    target_copied lo h p v c = copies lo (taken h) c.target v (
        local.kept lo h.next lo (h.next + 1) h (taken h) c.target v (omega arith) (omega arith)
          (λ a from below. refl) c.held)

    abbrev stored : Heap C → Ptr → A → Heap C
    stored g q b = record g { cells = λ a. if eqb a q then some (kind.put b) else g.cells a }

    spared : (g : Heap C) (q : Ptr) (b : A) (a : Ptr) → a ≢ q → (stored g q b).cells a ≡ g.cells a
    spared g q b a other = ground (arith, other)

    written : (g : Heap C) (q : Ptr) (b : A) → (stored g q b).cells q ≡ some (kind.put b)
    written g q b = ground arith

    pub PointsTo-copied :
        (lo : Ptr) (h : Heap C) (p : Ptr) (v : V)
        → PointsTo kind H lo h.next h p v
        → Returns h
            (λ q g. pointer kind H h.next g.next g q (some v))
            (copy_pointer kind copy (some p) h)
    unfolding copy_pointer new store
    PointsTo-copied lo h p v c =
        let target = target_copied lo h p v c in
        record {
          value = some h.next;
          after = stored target.after h.next target.value;
          done =
              ap
                (λ (r : Option (A × Heap C)).
                  and_then r
                    (λ a. new >>= λ q. copy a >>= λ b. store kind q b >>= λ _. pure (some q)))
                (load-PointsTo lo h.next h p v c)
              ∙ ap
                  (λ (r : Option (A × Heap C)).
                    and_then r (λ b. store kind h.next b >>= λ _. pure (some h.next)))
                  target.done;
          grows = omega (arith, target.grows);
          old = λ a below.
              spared target.after h.next target.value a (omega (arith, below))
              ∙ target.old a (omega (arith, below));
          reached = record {
            from = omega arith;
            below = omega (arith, target.grows);
            target = target.value;
            at = written target.after h.next target.value;
            held =
                local.kept (h.next + 1) target.after.next h.next target.after.next target.after
                  (stored target.after h.next target.value) target.value v (omega arith)
                  (omega arith)
                  (λ a from below. spared target.after h.next target.value a (omega (arith, from)))
                  target.reached;
          };
        }

    pub pointer-Copies : Copies (pointer kind H) (copy_pointer kind copy)
    unfolding copy_pointer
    pointer-Copies lo h none none held = returned h none held
    pointer-Copies lo h none (some v) held = absurd held
    pointer-Copies lo h (some p) none held = absurd held
    pointer-Copies lo h (some p) (some v) held = PointsTo-copied lo h p v held

    not_nil :
        (zero : V) (lo hi : Ptr) (h : Heap C) (q : Option Ptr) (v : V)
        → pointer kind H lo hi h q (some v)
        → nilable kind H zero lo hi h q v
    not_nil zero lo hi h none v held = absurd held
    not_nil zero lo hi h (some q) v held = held

    pub nilable-Copies : (zero : V) → Copies (nilable kind H zero) (copy_pointer kind copy)
    unfolding copy_pointer
    nilable-Copies zero lo h none v held = returned h none held
    nilable-Copies zero lo h (some p) v held =
        let copied = PointsTo-copied lo h p v held in
        mono_at copied (not_nil zero h.next copied.after.next copied.after copied.value v)
