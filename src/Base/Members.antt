-- ===== src/Base/Members.antt =====
-- The library's truncated membership and permutations beside `All` and the native `length`.
use mathlib.Core.List
use mathlib.Core.List.{
  Mem, Nodup, Nodup-cons, Perm, Subset, mem-cons, mem-cons_self, mem-cons_of_mem, not-mem-nil,
}
use mathlib.Core.List.Nodup
use mathlib.Core.List.Perm
use mathlib.Core.List.Subperm
use mathlib.Core.Logic.Or
use mathlib.Core.Logic.{◌≢◌}
use mathlib.Core.HLevel.{⊥_prop, Π_prop}
use mathlib.Core.Nat
use Prim.Native.Nat.{suc}
use k8s_glb_operator.Base.Lists.{length, All}
use mathlib.Core.Path.{◌≡◌, refl, sym, ap, subst}
use mathlib.Core.List.{List, [], ◌∷◌}
use native.Mathlib.Omega.{arith}

module _ {ℓ} {A : Type ℓ} where
  pub All-of_mem {κ} : (P : A → Type κ) (xs : List A) → ((x : A) → Mem x xs → P x) → All P xs
  All-of_mem P [] h = tt
  All-of_mem P (x ∷ xs) h = (h x mem-cons_self, All-of_mem P xs (λ y m. h y (mem-cons_of_mem x m)))

  pub All-mem {κ} :
      (P : A → Type κ)
      → ((x : A) → IsProp (P x))
      → (xs : List A) → All P xs
      → (x : A) → Mem x xs
      → P x
  All-mem P prop [] h x m = absurd (not-mem-nil m)
  All-mem P prop (y ∷ xs) h x m =
      Or.elim (prop x) (mem-cons.0 m) (λ e. subst P (sym e) h.0) (All-mem P prop xs h.1 x)

  pub Nodup-cons_of_All : (x : A) (xs : List A) → All (λ y. x ≢ y) xs → Nodup xs → Nodup (x ∷ xs)
  Nodup-cons_of_All x xs differ once =
      Nodup-cons.1 (λ m. All-mem (λ y. x ≢ y) (λ y. Π_prop (λ _. ⊥_prop)) xs differ x m refl, once)

  native-length : (xs ys : List A) → List.length xs ≡ List.length ys → length xs ≡ length ys
  native-length [] [] e = refl
  native-length [] (y ∷ ys) e = cc
  native-length (x ∷ xs) [] e = cc
  native-length (x ∷ xs) (y ∷ ys) e = ap suc (native-length xs ys (Nat.suc_inj e))

  library-length : (xs ys : List A) → length xs ≡ length ys → List.length xs ≡ List.length ys
  library-length [] [] e = refl
  library-length [] (y ∷ ys) e = absurd (omega arith)
  library-length (x ∷ xs) [] e = absurd (omega arith)
  library-length (x ∷ xs) (y ∷ ys) e = ap Nat.suc (library-length xs ys (omega arith))

  pub Perm-length : {xs ys : List A} → Perm xs ys → length xs ≡ length ys
  Perm-length p = native-length _ _ (Perm.length-eq p)

  -- The pigeonhole principle: distinct items out of as many give all of them.
  pub perm_of_Subset :
      (xs ys : List A) → Nodup xs → Subset xs ys → length xs ≡ length ys → Perm xs ys
  perm_of_Subset xs ys distinct within same =
      Subperm.perm_of_length_le (Nodup.subperm distinct within)
        (Nat.le_of_eq (library-length ys xs (sym same)))
