-- ===== src/Iam/Pattern/Complete.antt =====
-- A text without `*` that matches a pattern is accepted by the loop.
use ipa_rs_hetero_cloud.Prelude.{
  ℕ, zero, suc, ◌+◌, ◌≤◌, ◌≡◌, refl, ◌≢◌, ◌↔◌, Bool, true, false, Option, none, some, List, [], ◌∷◌,
  arith, length, get_elem?, get_elem?-lt, get_elem?-end, drop, drop-get_elem?, drop-end, drop-suc,
  All-drop, Option-cases, Bool-cases, inl, inr, add-one,
}
use ipa_rs_hetero_cloud.Iam.Pattern.{
  star_char, accepts, is_star, skip_stars, glob_loop, run_glob, glob_matches, rounds,
}
use ipa_rs_hetero_cloud.Iam.Pattern.Rounds.{
  Mismatch, Round, over, literal, starred, refused, again, glob_loop-Round,
}
use ipa_rs_hetero_cloud.Iam.Pattern.Glob.{
  Fits, stop, NoStar, one_inv, stop_inv, not-Fits-nil, one→accepts, pass_one, two_stars, must_grow,
}
use ipa_rs_hetero_cloud.Iam.Pattern.Total.{run_glob-ne-none}
use ipa_rs_hetero_cloud.Iam.Pattern.Sound.{At, is_star→eq, run_glob-Fits}

isnt_star→ne : (x : ℕ) → is_star x ≡ false → x ≢ star_char
isnt_star→ne x h = ground arith

accepts-plain : (x c : ℕ) → c ≢ star_char → accepts c x ≡ true → x ≢ star_char
accepts-plain x c n h = ground arith

module _ (pattern value : List ℕ) (plain : NoStar value) where
  abbrev Later : ℕ → ℕ → Type 0
  Later p v = Fits (star_char ∷ drop p pattern) (drop v value)

  -- What a saved star means when the text matches.
  abbrev Kept : Option ℕ → ℕ → ℕ → ℕ → Type 0
  Kept none retry p v = At pattern value p v
  Kept (some i) retry p v =
      (get_elem? pattern i ≡ some star_char)
      × At pattern value i retry
      × (At pattern value (i + 1) retry → At pattern value p v)

  plain_at : (v : ℕ) {c : ℕ} → get_elem? value v ≡ some c → c ≢ star_char
  plain_at v here =
      (rw (drop-get_elem? v value here) at (All-drop (λ c. c ≢ star_char) v value plain)).0

  Mismatch-stuck :
      (p v : ℕ) {c : ℕ} (o : Option ℕ)
      → get_elem? value v ≡ some c
      → get_elem? pattern p ≡ o
      → Mismatch c o
      → ¬ At pattern value p v
  Mismatch-stuck p v none here at miss d =
      elim (rw (drop-end p pattern at, drop-get_elem? v value here) at d) [ ]
  Mismatch-stuck p v {c} (some x) here at miss d =
      let (h, _) =
        one_inv (rw (drop-get_elem? p pattern at, drop-get_elem? v value here) at d)
          (isnt_star→ne x miss.1) in
      cc (one→accepts x c h)

  At-literal :
      (p v : ℕ) {x c : ℕ}
      → get_elem? value v ≡ some c
      → get_elem? pattern p ≡ some x
      → accepts c x ≡ true
      → At pattern value p v
      → At pattern value (p + 1) (v + 1)
  At-literal p v {x} {c} here at takes d =
      rw (add-one p, add-one v)
        (one_inv (rw (drop-get_elem? p pattern at, drop-get_elem? v value here) at d)
          (accepts-plain x c (plain_at v here) takes)).1

  Kept-literal :
      (star : Option ℕ) (retry p v : ℕ)
      → (At pattern value p v → At pattern value (p + 1) (v + 1))
      → Kept star retry p v
      → Kept star retry (p + 1) (v + 1)
  Kept-literal none retry p v f k = f k
  Kept-literal (some i) retry p v f k = (k.0, k.1, λ d. f (k.2 d))

  Later-literal :
      (p v : ℕ) {x c : ℕ}
      → get_elem? value v ≡ some c
      → get_elem? pattern p ≡ some x
      → accepts c x ≡ true
      → Later p v
      → Later (p + 1) (v + 1)
  Later-literal p v {x} {c} here at takes d =
      rw (add-one p, add-one v)
        (pass_one _ (accepts-plain x c (plain_at v here) takes) refl
          (rw (drop-get_elem? p pattern at, drop-get_elem? v value here) at d))

  Later-starred :
      (p v : ℕ) → get_elem? pattern p ≡ some star_char → Later p v → At pattern value p v
  Later-starred p v at d =
      rw (drop-get_elem? p pattern at) (two_stars refl (rw (drop-get_elem? p pattern at) at d))

  Later-again :
      (i retry : ℕ)
      → get_elem? pattern i ≡ some star_char
      → ¬ At pattern value (i + 1) retry
      → At pattern value i retry
      → At pattern value i (retry + 1)
  Later-again i retry at stuck d =
      let (c, t, e, rest) =
        must_grow refl (All-drop (λ c. c ≢ star_char) retry value plain) (rw add-one at stuck)
          (rw (drop-get_elem? i pattern at) at d) in
      rw (add-one, drop-suc retry value e, drop-get_elem? i pattern at) rest

  skip_stars-end :
      (f p v : ℕ)
      → length pattern ≤ f + p
      → p ≤ length pattern
      → Fits (drop p pattern) []
      → skip_stars pattern f p ≡ length pattern
  unfolding skip_stars
  skip_stars-end zero p v enough low d = omega arith
  skip_stars-end (suc f) p v enough low d = elim (Option-cases (get_elem? pattern p)) [
    | inl out ↦ rw out (omega (arith, get_elem?-end pattern p out))
    | inr (x, at) ↦ elim (Bool-cases (is_star x)) [
      | inl is ↦
          rw (at, is)
            (skip_stars-end f (p + 1) v (omega arith) (omega (arith, get_elem?-lt pattern p at))
              (rw add-one (stop_inv (rw (drop-get_elem? p pattern at) at d))))
      | inr isnt ↦
          absurd (not-Fits-nil (rw (drop-get_elem? p pattern at) at d) (isnt_star→ne x isnt))
    ]
  ]

  record State (p v : ℕ) (star : Option ℕ) (retry : ℕ) : Type 0 where
    in_pattern : p ≤ length pattern
    kept : Kept star retry p v
    later : Later p v

  abbrev Complete : ℕ → Type 0
  Complete f =
      (p v : ℕ) (star : Option ℕ) (retry : ℕ)
      → State p v star retry
      → glob_loop pattern value f p v star retry ≢ some false

  State-again :
      (p v i retry : ℕ)
      → State p v (some i) retry
      → ¬ At pattern value p v
      → State (i + 1) (retry + 1) (some i) (retry + 1)
  State-again p v i retry s stuck =
      let (at, here, down) = s.kept in
      let next = Later-again i retry at (λ d. stuck (down d)) here in
      record {
        in_pattern = omega (arith, get_elem?-lt pattern i at);
        kept = (at, next, λ d. d);
        later = rw add-one (rw (drop-get_elem? i pattern at) at next);
      }

  Round-Complete :
      (f p v : ℕ) (star : Option ℕ) (retry : ℕ) {r : Option Bool}
      → Complete f
      → State p v star retry
      → Round pattern value f p v star retry r
      → r ≢ some false
  Round-Complete f p v star retry ih s (over end) =
      let e =
        skip_stars-end (length pattern) p v (omega arith) s.in_pattern
          (stop_inv (rw (drop-end v value end) at s.later)) in
      λ h. ground (arith, e)
  Round-Complete f p v star retry ih s (literal x c here at takes) =
      ih (p + 1) (v + 1) star retry (record {
        in_pattern = omega (arith, get_elem?-lt pattern p at);
        kept = Kept-literal star retry p v (At-literal p v here at takes) s.kept;
        later = Later-literal p v here at takes s.later;
      })
  Round-Complete f p v star retry ih s (starred x c here at is leaves) =
      let found = rw (is_star→eq x is) at at in
      let now = Later-starred p v found s.later in
      ih (p + 1) v (some p) v (record {
        in_pattern = omega (arith, get_elem?-lt pattern p at);
        kept = (found, now, λ d. d);
        later = rw add-one (rw (drop-get_elem? p pattern found) at now);
      })
  Round-Complete f p v star retry ih s (refused c here miss e) =
      absurd (Mismatch-stuck p v (get_elem? pattern p) here refl miss (rw e at s.kept))
  Round-Complete f p v star retry ih s (again c i here miss e) =
      ih (i + 1) (retry + 1) (some i) (retry + 1) (
        State-again p v i retry (rw e at s)
          (Mismatch-stuck p v (get_elem? pattern p) here refl miss))

  complete : (f : ℕ) → Complete f
  unfolding glob_loop
  complete zero p v star retry s = λ h. cc
  complete (suc f) p v star retry s =
      Round-Complete f p v star retry (complete f) s
        (glob_loop-Round pattern value f p v star retry)

  start : Fits pattern value → State 0 0 none 0
  start g = record { in_pattern = omega arith; kept = g; later = stop refl g }

-- A text without `*` that matches is never refused.
pub run_glob_complete :
    (pattern value : List ℕ)
    → NoStar value
    → Fits pattern value
    → run_glob pattern value ≢ some false
unfolding run_glob
run_glob_complete pattern value plain g =
    complete pattern value plain (rounds pattern value) 0 0 none 0 (start pattern value plain g)

-- Acceptance of a pattern implies that it matches.
pub glob_matches-Fits :
    (pattern value : List ℕ) → glob_matches pattern value ≡ true → Fits pattern value
unfolding glob_matches
glob_matches-Fits pattern value h = run_glob-Fits pattern value (ground arith)

-- On a text in which `*` does not occur, the pattern is accepted exactly if it matches.
pub glob_matches_iff :
    (pattern value : List ℕ)
    → NoStar value
    → (glob_matches pattern value ≡ true) ↔ Fits pattern value
unfolding glob_matches
glob_matches_iff pattern value plain = (
  glob_matches-Fits pattern value,
  λ g. ground (arith, run_glob-ne-none pattern value, run_glob_complete pattern value plain g),
)
