-- ===== src/Iam/Pattern/Sound.antt =====
-- A pattern that the loop accepts matches, whatever the text holds.
use ipa_rs_hetero_cloud.Prelude.{
  ℕ, zero, suc, ◌+◌, ◌≡◌, refl, ◌⊎◌, Bool, true, Option, none, some, List, [], arith, ◌==◌, length,
  get_elem?, get_elem?-end, drop, drop-get_elem?, drop-end, drop-past, get_elem?-lt, Option-cases,
  Bool-cases, inl, inr, add-one,
}
use ipa_rs_hetero_cloud.Iam.Pattern.{
  star_char, any_char, is_star, skip_stars, glob_loop, run_glob, rounds,
}
use ipa_rs_hetero_cloud.Iam.Pattern.Rounds.{
  Round, over, literal, starred, refused, again, glob_loop-Round,
}
use ipa_rs_hetero_cloud.Iam.Pattern.Glob.{Fits, done, one, stop, grow, accepts→one}

pub is_star→eq : (x : ℕ) → is_star x ≡ true → x ≡ star_char
is_star→eq x h = ground arith

-- Where `p` and `v` stand, what is left of the pattern matches what is left of the text.
abbrev pub At : List ℕ → List ℕ → ℕ → ℕ → Type 0
At pattern value p v = Fits (drop p pattern) (drop v value)

module _ (pattern value : List ℕ) where
  At-one :
      {x c : ℕ} (p v : ℕ)
      → get_elem? pattern p ≡ some x
      → get_elem? value v ≡ some c
      → (x ≡ any_char) ⊎ (x ≡ c)
      → At pattern value (p + 1) (v + 1)
      → At pattern value p v
  At-one p v hp hv h d =
      rw (drop-get_elem? p pattern hp, drop-get_elem? v value hv)
        (one h (rw (add-one p, add-one v) at d))

  At-stop :
      (p v : ℕ)
      → get_elem? pattern p ≡ some star_char
      → At pattern value (p + 1) v
      → At pattern value p v
  At-stop p v hp d = rw (drop-get_elem? p pattern hp) (stop refl (rw add-one at d))

  At-grow :
      (p v : ℕ)
      → get_elem? pattern p ≡ some star_char
      → At pattern value p (v + 1)
      → At pattern value p v
  At-grow p v hp d = elim (Option-cases (get_elem? value v)) [
    | inl end ↦
        let past = get_elem?-end value v end in
        rw (drop-past v value past) (rw (drop-past (v + 1) value (omega arith)) at d)
    | inr (c, hv) ↦
        rw (drop-get_elem? p pattern hp, drop-get_elem? v value hv)
          (grow refl (rw (add-one, drop-get_elem? p pattern hp) at d))
  ]

  skip_stars-At :
      (f p v : ℕ)
      → drop v value ≡ []
      → (skip_stars pattern f p == length pattern) ≡ true
      → At pattern value p v
  unfolding skip_stars
  skip_stars-At zero p v end h = rw (drop-past p pattern (ground arith), end) done
  skip_stars-At (suc f) p v end h = elim (Option-cases (get_elem? pattern p)) [
    | inl out ↦ rw (drop-end p pattern out, end) done
    | inr (x, at) ↦ elim (Bool-cases (is_star x)) [
      | inl is ↦
          At-stop p v (rw (is_star→eq x is) at at) (skip_stars-At f (p + 1) v end (ground arith))
      | inr isnt ↦ absurd (ground (arith, get_elem?-lt pattern p at))
    ]
  ]

  module _ (G : Type 0) where
    abbrev Saved : Option ℕ → ℕ → Type 0
    Saved none retry = Unit
    Saved (some i) retry = (get_elem? pattern i ≡ some star_char) × (At pattern value i retry → G)

    abbrev Sound : ℕ → Type 0
    Sound f =
        (p v : ℕ) (star : Option ℕ) (retry : ℕ)
        → (At pattern value p v → G)
        → Saved star retry
        → glob_loop pattern value f p v star retry ≡ some true
        → G

    Round-Sound :
        (f p v : ℕ) (star : Option ℕ) (retry : ℕ) {r : Option Bool}
        → Sound f
        → (At pattern value p v → G)
        → Saved star retry
        → Round pattern value f p v star retry r
        → r ≡ some true
        → G
    Round-Sound f p v star retry ih now saved (over end) h =
        now (skip_stars-At (length pattern) p v (drop-end v value end) (cc))
    Round-Sound f p v star retry ih now saved (literal x c here at takes) h =
        ih (p + 1) (v + 1) star retry (λ d. now (At-one p v at here (accepts→one x c takes) d))
          saved h
    Round-Sound f p v star retry ih now saved (starred x c here at is leaves) h =
        let found = rw (is_star→eq x is) at at in
        ih (p + 1) v (some p) v (λ d. now (At-stop p v found d)) (found, now) h
    Round-Sound f p v star retry ih now saved (refused c here miss e) h = cc
    Round-Sound f p v star retry ih now saved (again c i here miss e) h =
        let (found, later) = rw e at saved in
        ih (i + 1) (retry + 1) (some i) (retry + 1)
          (λ d. later (At-grow i retry found (At-stop i (retry + 1) found d)))
          (found, λ d. later (At-grow i retry found d)) h

    sound : (f : ℕ) → Sound f
    unfolding glob_loop
    sound zero p v star retry now saved h = cc
    sound (suc f) p v star retry now saved h =
        Round-Sound f p v star retry (sound f) now saved
          (glob_loop-Round pattern value f p v star retry) h

-- The loop accepts only texts that match the pattern, wildcards in the text included.
pub run_glob-Fits :
    (pattern value : List ℕ) → run_glob pattern value ≡ some true → Fits pattern value
unfolding run_glob
run_glob-Fits pattern value h =
    sound pattern value (Fits pattern value) (rounds pattern value) 0 0 none 0 (λ d. d) tt h
