-- ===== src/Prelude/Repetition.antt =====
-- Lists without repetition, as a loop over a growing set tests them.
use mathlib.Core.Path.{◌≡◌, refl, sym}
use mathlib.Core.Logic.{◌↔◌, ◌≢◌}
use mathlib.Core.Bool.{Bool, true, false, ◌||◌}
use mathlib.Core.List.{List, [], ◌∷◌}
use native.Mathlib.Omega.{arith}
use ipa_rs_hetero_cloud.Prelude.Lists.{All, All-map, any}
use ipa_rs_hetero_cloud.Prelude.Results.{◌⊗◌}

pub or_false_iff : (a b : Bool) → ((a || b) ≡ false) ↔ ((a ≡ false) × (b ≡ false))
or_false_iff a b = ground arith

pub false_iff_not : {P : Type 0} (b : Bool) → (b ≡ true) ↔ P → (b ≡ false) ↔ (¬ P)
false_iff_not true p = (λ h. cc, λ h. absurd (h (p.0 refl)))
false_iff_not false p = (λ h fact. not_both (p.1 fact), λ h. refl)
  where
    not_both : (false ≡ true) → ⊥
    not_both h = cc

module _ {A : Type 0} where
  abbrev pub NotIn : A → List A → Type 0
  NotIn x xs = All (λ y. x ≢ y) xs

  abbrev pub Distinct : List A → Type 0
  Distinct [] = Unit
  Distinct (x ∷ xs) = NotIn x xs ⊗ Distinct xs

  -- Each element is new to the set of those before it, which starts as `seen`.
  abbrev pub AllNew : List A → List A → Type 0
  AllNew seen [] = Unit
  AllNew seen (x ∷ xs) = NotIn x seen ⊗ AllNew (x ∷ seen) xs

  All-both : (P Q : A → Type 0) (xs : List A) → All (λ x. P x × Q x) xs ↔ (All P xs × All Q xs)
  All-both P Q [] = (λ h. (tt, tt), λ h. tt)
  All-both P Q (x ∷ xs) =
      let (split, join) = All-both P Q xs in
      (
        λ h. let (p, q) = split h.1 in ((h.0.0, p), (h.0.1, q)),
        λ h. ((h.0.0, h.1.0), join (h.0.1, h.1.1)),
      )

  turn : (x : A) (xs : List A) → All (λ y. y ≢ x) xs → NotIn x xs
  turn x xs h = All-map (λ y apart e. apart (sym e)) xs h

  turn_back : (x : A) (xs : List A) → NotIn x xs → All (λ y. y ≢ x) xs
  turn_back x xs h = All-map (λ y apart e. apart (sym e)) xs h

  pub AllNew-iff : (seen xs : List A) → AllNew seen xs ↔ (All (λ x. NotIn x seen) xs ⊗ Distinct xs)
  AllNew-iff seen [] = (λ h. (tt, tt), λ h. tt)
  AllNew-iff seen (x ∷ xs) =
      let (split, join) = AllNew-iff (x ∷ seen) xs in
      let (each, both) = All-both (λ y. y ≢ x) (λ y. NotIn y seen) xs in
      (
        λ h.
            let (apart, distinct) = split h.1 in
            let (off, old) = each apart in ((h.0, old), (turn x xs off, distinct)),
        λ h. (h.0.0, join (both (turn_back x xs h.1.0, h.0.1), h.1.1)),
      )

  -- With nothing seen before.
  pub AllNew-Distinct : (xs : List A) → AllNew [] xs ↔ Distinct xs
  AllNew-Distinct xs =
      let (split, join) = AllNew-iff [] xs in (λ h. (split h).1, λ h. join (all_new xs, h))
    where
      all_new : (ys : List A) → All (λ x. NotIn x []) ys
      all_new [] = tt
      all_new (y ∷ ys) = (tt, all_new ys)

  -- A Boolean membership test by a test of equality.
  pub any-false_iff :
      (same : A → A → Bool) (same_iff : (x y : A) → (same x y ≡ true) ↔ (x ≡ y)) (x : A)
      (xs : List A)
      → (any (same x) xs ≡ false) ↔ NotIn x xs
  any-false_iff same same_iff x [] = (λ h. tt, λ h. refl)
  any-false_iff same same_iff x (y ∷ ys) =
      let (apart, differ) = false_iff_not (same x y) (same_iff x y) in
      let (split, join) = any-false_iff same same_iff x ys in
      let (both, either) = or_false_iff (same x y) (any (same x) ys) in
      (
        λ h. let (here, there) = both h in (apart here, split there),
        λ h. either (differ h.0, join h.1),
      )
