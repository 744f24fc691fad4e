-- ===== src/Iam/Pattern/Glob.antt =====
-- What it means for a text to match a pattern of `*`, `?` and plain characters.
use ipa_rs_hetero_cloud.Prelude.{ℕ, ◌≡◌, refl, ◌≢◌, ◌⊎◌, true, List, [], ◌∷◌, arith, All}
use ipa_rs_hetero_cloud.Iam.Pattern.{star_char, any_char, accepts}

pub data Fits : List ℕ → List ℕ → Type 0 where
  done : Fits [] []
  one : {x c : ℕ} {p s : List ℕ} → (x ≡ any_char) ⊎ (x ≡ c) → Fits p s → Fits (x ∷ p) (c ∷ s)
  stop : {x : ℕ} {p s : List ℕ} → x ≡ star_char → Fits p s → Fits (x ∷ p) s
  grow : {x c : ℕ} {p s : List ℕ} → x ≡ star_char → Fits (x ∷ p) s → Fits (x ∷ p) (c ∷ s)

-- A text in which the wildcard character does not occur.
abbrev pub NoStar : List ℕ → Type 0
NoStar = All (λ c. c ≢ star_char)

pub accepts→one : (x c : ℕ) → accepts c x ≡ true → (x ≡ any_char) ⊎ (x ≡ c)
accepts→one x c h = ground arith

pub one→accepts : (x c : ℕ) → (x ≡ any_char) ⊎ (x ≡ c) → accepts c x ≡ true
one→accepts x c h = ground arith

module _ {x : ℕ} {p : List ℕ} where
  -- A character that is no wildcard takes exactly one character.
  pub one_inv :
      {c : ℕ} {s : List ℕ}
      → Fits (x ∷ p) (c ∷ s)
      → x ≢ star_char
      → ((x ≡ any_char) ⊎ (x ≡ c)) × Fits p s
  one_inv (one h d) n = (h, d)
  one_inv (stop e d) n = absurd (n e)
  one_inv (grow e d) n = absurd (n e)

  pub not-Fits-nil : Fits (x ∷ p) [] → x ≢ star_char → ⊥
  not-Fits-nil (stop e d) n = n e

  pub stop_inv : Fits (x ∷ p) [] → Fits p []
  stop_inv (stop e d) = d

-- Wherever `x` matches under a star, the rest begins after the first character.
after_one :
    {x y : ℕ} {p s : List ℕ} → y ≡ star_char → x ≢ star_char → Fits (x ∷ p) s → Fits (y ∷ p) s
after_one e n (one h d) = grow e (stop e d)
after_one e n (stop e' d) = absurd (n e')
after_one e n (grow e' d) = absurd (n e')

module _ {x y : ℕ} {p : List ℕ} where
  pub pass_one :
      {c : ℕ} (s : List ℕ)
      → x ≢ star_char
      → y ≡ star_char
      → Fits (y ∷ x ∷ p) (c ∷ s)
      → Fits (y ∷ p) s
  pass_one s n e (one h d) = after_one e n d
  pass_one s n e (stop _ d) = stop e (one_inv d n).1
  pass_one [] n e (grow _ d) = absurd (not-Fits-nil (stop_inv d) n)
  pass_one (c' ∷ s) n e (grow _ d) = grow e (pass_one s n e d)

  pub two_stars : {s : List ℕ} → x ≡ star_char → Fits (y ∷ x ∷ p) s → Fits (x ∷ p) s
  two_stars e (one h d) = grow e d
  two_stars e (stop _ d) = d
  two_stars e (grow _ d) = grow e (two_stars e d)

-- A star that cannot stop takes the next character.
module _ {y : ℕ} {p : List ℕ} where
  pub must_grow :
      {s : List ℕ}
      → y ≡ star_char
      → NoStar s
      → ¬ Fits p s
      → Fits (y ∷ p) s
      → (c : ℕ) × (t : List ℕ) × (s ≡ c ∷ t) × Fits (y ∷ p) t
  must_grow e plain stuck (one {c = c} {s = t} h d) = absurd (ground arith)
  must_grow e plain stuck (stop _ d) = absurd (stuck d)
  must_grow e plain stuck (grow {c = c} {s = t} _ d) = (c, t, refl, d)
