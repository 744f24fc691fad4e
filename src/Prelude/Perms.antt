-- ===== src/Prelude/Perms.antt =====
-- Tests and predicates over a list do not depend on its order.
use Prim.Native.Nat.{ℕ, ◌+◌}
use mathlib.Core.Path.{◌≡◌, refl, ap, ◌∙◌, subst}
use mathlib.Core.Bool.{Bool, ◌||◌, Bool-set}
use mathlib.Core.Logic.{∥∥₁_elim}
use mathlib.Core.List.{List, [], ◌∷◌, Perm, Permᴰ}
use mathlib.Core.HLevel.{×_prop}
use native.Mathlib.Omega.{arith}
use native.Mathlib.Nat.{ℕ_set}
use ipa_rs_hetero_cloud.Prelude.Lists.{any, All}

or_swap : (a b c : Bool) → (a || (b || c)) ≡ (b || (a || c))
or_swap a b c = ground arith

module _ {ℓ} {A : Type ℓ} where
  any-permᴰ : (p : A → Bool) {xs ys : List A} → Permᴰ xs ys → any p xs ≡ any p ys
  any-permᴰ p Permᴰ.nil = refl
  any-permᴰ p (Permᴰ.cons e d) = cc (e, any-permᴰ p d)
  any-permᴰ p (Permᴰ.swap {a = a} {b = b} {l = l} e f) = cc (e, f, or_swap (p a) (p b) (any p l))
  any-permᴰ p (Permᴰ.trans d d') = any-permᴰ p d ∙ any-permᴰ p d'

  pub any-perm : (p : A → Bool) {xs ys : List A} → Perm xs ys → any p xs ≡ any p ys
  any-perm p d = ∥∥₁_elim d (Bool-set _ _) (any-permᴰ p)

  All-permᴰ : (P : A → Type 0) {xs ys : List A} → Permᴰ xs ys → All P xs → All P ys
  All-permᴰ P Permᴰ.nil h = h
  All-permᴰ P (Permᴰ.cons e d) h = (subst P e h.0, All-permᴰ P d h.1)
  All-permᴰ P (Permᴰ.swap e f) h = (subst P f h.1.0, (subst P e h.0, h.1.1))
  All-permᴰ P (Permᴰ.trans d d') h = All-permᴰ P d' (All-permᴰ P d h)

  pub All-prop : (P : A → Type 0) → ((a : A) → IsProp (P a)) → (xs : List A) → IsProp (All P xs)
  All-prop P prop [] = λ x y. refl
  All-prop P prop (x ∷ xs) = ×_prop (prop x) (All-prop P prop xs)

  pub All-perm :
      (P : A → Type 0) {xs ys : List A}
      → ((a : A) → IsProp (P a))
      → Perm xs ys
      → All P xs
      → All P ys
  All-perm P {ys = ys} prop d h = ∥∥₁_elim d (All-prop P prop ys) (λ e. All-permᴰ P e h)

  -- A sum over a list.
  abbrev pub sum_of : (A → ℕ) → List A → ℕ
  sum_of f [] = 0
  sum_of f (x ∷ xs) = f x + sum_of f xs

  sum-permᴰ : (f : A → ℕ) {xs ys : List A} → Permᴰ xs ys → sum_of f xs ≡ sum_of f ys
  sum-permᴰ f Permᴰ.nil = refl
  sum-permᴰ f (Permᴰ.cons e d) = let ih = sum-permᴰ f d in let same = ap f e in omega arith
  sum-permᴰ f (Permᴰ.swap {a = a} {b = b} {l = l} e g) =
      let one = ap f e in let two = ap f g in omega arith
  sum-permᴰ f (Permᴰ.trans d d') = sum-permᴰ f d ∙ sum-permᴰ f d'

  pub sum-perm : (f : A → ℕ) {xs ys : List A} → Perm xs ys → sum_of f xs ≡ sum_of f ys
  sum-perm f d = ∥∥₁_elim d (ℕ_set _ _) (sum-permᴰ f)
