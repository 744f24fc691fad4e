-- ===== src/Prelude/Results.antt =====
-- Rust's `Result`, `?` and the early `return Err(...)`.
use mathlib.Core.Path.{◌≡◌, refl}
use mathlib.Core.Logic.{◌↔◌, ◌⊎◌, inl, inr}
use mathlib.Core.Bool.{Bool, true, false}
use mathlib.Core.List.{List, [], ◌∷◌}
use mathlib.Core.Option.{Option, none, some}
use ipa_rs_hetero_cloud.Prelude.Lists.{All}
use ipa_rs_hetero_cloud.Prelude.Tests.{if◌then◌else◌}

pub data Result {ℓ κ} (E : Type ℓ) (A : Type κ) : Type (ℓ ⊔ κ) where
  ok : A → Result E A
  err : E → Result E A

module _ {ℓ κ μ} {E : Type ℓ} {A : Type κ} {B : Type μ} where
  infixl 5 ◌>>=◌
  abbrev pub ◌>>=◌ : Result E A → (A → Result E B) → Result E B
  ok a >>= f = f a
  err e >>= f = err e

  abbrev pub map_ok : (A → B) → Result E A → Result E B
  map_ok f (ok a) = ok (f a)
  map_ok f (err e) = err e

module _ {ℓ κ} {E : Type ℓ} {B : Type κ} where
  infixl 5 ◌>>◌
  abbrev pub ◌>>◌ : Result E (Unit {0}) → Result E B → Result E B
  ok u >> k = k
  err e >> k = err e

module _ {ℓ κ μ} {E : Type ℓ} {F : Type κ} {A : Type μ} where
  abbrev pub map_err : (E → F) → Result E A → Result F A
  map_err f (ok a) = ok a
  map_err f (err e) = err (f e)

module _ {ℓ} {E : Type ℓ} where
  -- `if bad { return Err(e) }`
  abbrev pub reject_if : Bool → E → Result E (Unit {0})
  reject_if true e = err e
  reject_if false e = ok tt

  -- `for x in xs { check(x)?; }`
  abbrev pub for_each {κ} : {A : Type κ} → (A → Result E (Unit {0})) → List A → Result E (Unit {0})
  for_each f [] = ok tt
  for_each f (x ∷ xs) = f x >> for_each f xs

abbrev pub IsOk {ℓ κ} : {E : Type ℓ} {A : Type κ} → Result E A → Type 0
IsOk (ok a) = Unit
IsOk (err e) = ⊥

-- `Option::ok_or`
abbrev pub ok_or {ℓ κ} : {E : Type ℓ} {A : Type κ} → Option A → E → Result E A
ok_or none e = err e
ok_or (some a) e = ok a

-- A pair, for properties with as many parts as a function has tests.
infixr 3 ◌⊗◌
abbrev pub ◌⊗◌ : Type 0 → Type 0 → Type 0
P ⊗ Q = P × Q

module _ {ℓ} {E : Type ℓ} where
  pub reject_if_iff : (b : Bool) (e : E) → IsOk (reject_if b e) ↔ (b ≡ false)
  reject_if_iff true e = (λ h. absurd h, λ h. cc)
  reject_if_iff false e = (λ h. refl, λ h. tt)

  pub IsOk-then {κ} :
      {B : Type κ} (m : Result E (Unit {0})) (k : Result E B) → IsOk (m >> k) ↔ (IsOk m × IsOk k)
  IsOk-then (ok u) k = (λ h. (tt, h), λ h. h.1)
  IsOk-then (err e) k = (λ h. absurd h, λ h. h.0)

  -- A test that passes, and one check behind another, by what they stand for.
  pub passes_iff : {P : Type 0} {b : Bool} (e : E) → (b ≡ false) ↔ P → (reject_if b e ≡ ok tt) ↔ P
  passes_iff {b = true} e p = (λ h. cc, λ h. absurd (true_false (p.1 h)))
    where
      true_false : (true ≡ false) → ⊥
      true_false h = cc
  passes_iff {b = false} e p = (λ h. p.0 refl, λ h. refl)

  infixr 4 ◌⨾◌
  pub ◌⨾◌ :
      {P Q : Type 0} {m k : Result E (Unit {0})}
      → (m ≡ ok tt) ↔ P
      → (k ≡ ok tt) ↔ Q
      → ((m >> k) ≡ ok tt) ↔ (P ⊗ Q)
  ◌⨾◌ {m = ok u} p q = (λ h. (p.0 refl, q.0 h), λ h. q.1 h.1)
  ◌⨾◌ {m = err e} p q = (λ h. cc, λ h. p.1 h.0)

  pub for_each_iff {κ} :
      {A : Type κ} {P : A → Type 0} (f : A → Result E (Unit {0}))
      → ((x : A) → (f x ≡ ok tt) ↔ P x)
      → (xs : List A) → (for_each f xs ≡ ok tt) ↔ All P xs
  for_each_iff f each [] = (λ h. tt, λ h. refl)
  for_each_iff f each (x ∷ xs) = each x ⨾ for_each_iff f each xs

  pub IsOk-for_each {κ} :
      {A : Type κ} (f : A → Result E (Unit {0})) (xs : List A)
      → IsOk (for_each f xs) ↔ All (λ x. IsOk (f x)) xs
  IsOk-for_each f [] = (λ h. tt, λ h. tt)
  IsOk-for_each f (x ∷ xs) =
      let (split, join) = IsOk-then (f x) (for_each f xs) in
      let (split_rest, join_rest) = IsOk-for_each f xs in
      (λ h. ((split h).0, split_rest (split h).1), λ h. join (h.0, join_rest h.1))

pub IsOk-eq {ℓ} : {E : Type ℓ} (m : Result E (Unit {0})) → IsOk m → m ≡ ok tt
IsOk-eq (ok u) h = refl
IsOk-eq (err e) h = absurd h

pub eq-IsOk {ℓ κ} : {E : Type ℓ} {A : Type κ} {m : Result E A} {a : A} → m ≡ ok a → IsOk m
eq-IsOk {m = ok b} h = tt
eq-IsOk {m = err e} h = cc

pub map_ok-IsOk {ℓ κ μ} :
    {E : Type ℓ} {A : Type κ} {B : Type μ} (f : A → B) (m : Result E A) → IsOk (map_ok f m) → IsOk m
map_ok-IsOk f (ok a) h = tt
map_ok-IsOk f (err e) h = h

pub IsOk-prop {ℓ κ} : {E : Type ℓ} {A : Type κ} (m : Result E A) → IsProp (IsOk m)
IsOk-prop (ok a) = λ x y. refl
IsOk-prop (err e) = λ x y. absurd x

-- What a chain that succeeds has passed.
module _ {E : Type 0} where
  pub bind_ok :
      {A B : Type 0} (m : Result E A) (f : A → Result E B) (b : B)
      → (m >>= f) ≡ ok b
      → (a : A) × (m ≡ ok a) × (f a ≡ ok b)
  bind_ok (ok a) f b h = (a, refl, h)
  bind_ok (err e) f b h = cc

  pub then_ok :
      {B : Type 0} (m : Result E (Unit {0})) (k : Result E B) (b : B)
      → (m >> k) ≡ ok b
      → (m ≡ ok tt) × (k ≡ ok b)
  then_ok (ok u) k b h = (refl, h)
  then_ok (err e) k b h = cc

  pub ok_inj : {A : Type 0} {a b : A} → (let left : Result E A = ok a in left ≡ ok b) → a ≡ b
  ok_inj h = cc

  pub branch :
      {A : Type 0} (b : Bool) (x y : Result E A) (a : A)
      → (if b then x else y) ≡ ok a
      → ((b ≡ true) × (x ≡ ok a)) ⊎ ((b ≡ false) × (y ≡ ok a))
  branch true x y a h = inl (refl, h)
  branch false x y a h = inr (refl, h)

  pub ok_or_ok : {A : Type 0} (o : Option A) (e : E) (a : A) → ok_or o e ≡ ok a → o ≡ some a
  ok_or_ok none e a h = cc
  ok_or_ok (some x) e a h = cc

  pub reject_if_ok : (b : Bool) (e : E) → reject_if b e ≡ ok tt → b ≡ false
  reject_if_ok true e h = cc
  reject_if_ok false e h = refl

  -- Two checks, behind which a fixed value is returned.
  pub checked_iff :
      {A : Type 0} (m k : Result E (Unit {0})) (a : A)
      → ((m >> (k >> ok a)) ≡ ok a) ↔ ((m >> k) ≡ ok tt)
  checked_iff (ok u) (ok v) a = (λ h. refl, λ h. refl)
  checked_iff (ok u) (err e) a = (λ h. cc, λ h. cc)
  checked_iff (err e) k a = (λ h. cc, λ h. cc)
