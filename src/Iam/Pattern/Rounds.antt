-- ===== src/Iam/Pattern/Rounds.antt =====
-- The branches of one round of the matching loop, with what each has tested.
use ipa_rs_hetero_cloud.Prelude.{
  ℕ, suc, ◌+◌, ◌≡◌, Bool, true, false, Option, none, some, List, inl, inr, ◌==◌, length, get_elem?,
  is_some_and, if◌then◌else◌, Option-cases, Bool-cases, refl,
}
use ipa_rs_hetero_cloud.Iam.Pattern.{accepts, is_star, skip_stars, glob_loop}

-- The pattern character, if there is one, neither takes `c` nor is a star.
abbrev pub Mismatch : ℕ → Option ℕ → Type 0
Mismatch c none = Unit
Mismatch c (some x) = (accepts c x ≡ false) × (is_star x ≡ false)

module _ (pattern value : List ℕ) (f p v : ℕ) (star : Option ℕ) (retry : ℕ) where
  pub data Round : Option Bool → Type 0 where
    over :
        get_elem? value v ≡ none
        → Round (some (skip_stars pattern (length pattern) p == length pattern))
    literal :
        (x c : ℕ)
        → get_elem? value v ≡ some c
        → get_elem? pattern p ≡ some x
        → accepts c x ≡ true
        → Round (glob_loop pattern value f (p + 1) (v + 1) star retry)
    starred :
        (x c : ℕ)
        → get_elem? value v ≡ some c
        → get_elem? pattern p ≡ some x
        → is_star x ≡ true
        → accepts c x ≡ false
        → Round (glob_loop pattern value f (p + 1) v (some p) v)
    refused :
        (c : ℕ)
        → get_elem? value v ≡ some c
        → Mismatch c (get_elem? pattern p)
        → star ≡ none
        → Round (some false)
    again :
        (c index : ℕ)
        → get_elem? value v ≡ some c
        → Mismatch c (get_elem? pattern p)
        → star ≡ some index
        → Round (glob_loop pattern value f (index + 1) (retry + 1) (some index) (retry + 1))

  abbrev fallback : Option ℕ → Option Bool
  fallback star = elim star [
    | none ↦ some false
    | some index ↦ glob_loop pattern value f (index + 1) (retry + 1) (some index) (retry + 1)
  ]

  fallback-Round :
      (c : ℕ) (s : Option ℕ)
      → get_elem? value v ≡ some c
      → Mismatch c (get_elem? pattern p)
      → star ≡ s
      → Round (fallback s)
  fallback-Round c none here h e = refused c here h e
  fallback-Round c (some index) here h e = again c index here h e

  pattern-Round :
      (c : ℕ) (o : Option ℕ)
      → get_elem? value v ≡ some c
      → get_elem? pattern p ≡ o
      → Round (
          if is_some_and (accepts c) o
          then glob_loop pattern value f (p + 1) (v + 1) star retry
          else if is_some_and is_star o
          then glob_loop pattern value f (p + 1) v (some p) v
          else fallback star)
  pattern-Round c none here e = fallback-Round c star here (rw e tt) refl
  pattern-Round c (some x) here e = elim (Bool-cases (accepts c x)) [
    | inl takes ↦ rw takes (literal x c here e takes)
    | inr leaves ↦ elim (Bool-cases (is_star x)) [
      | inl is ↦ rw (leaves, is) (starred x c here e is leaves)
      | inr isnt ↦ rw (leaves, isnt) (fallback-Round c star here (rw e (leaves, isnt)) refl)
    ]
  ]

  pub glob_loop-Round : Round (glob_loop pattern value (suc f) p v star retry)
  unfolding glob_loop
  glob_loop-Round = elim (Option-cases (get_elem? value v)) [
    | inl end ↦ rw (end, glob_loop) (over end)
    | inr (c, here) ↦ rw (here, glob_loop) (pattern-Round c (get_elem? pattern p) here refl)
  ]
