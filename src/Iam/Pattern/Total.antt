-- ===== src/Iam/Pattern/Total.antt =====
-- The matching loop always ends within its rounds.
use ipa_rs_hetero_cloud.Prelude.{
  ℕ, zero, suc, ◌+◌, ◌*◌, ◌≤◌, ◌<◌, ◌≢◌, Bool, Option, none, some, List, arith, length,
  get_elem?-lt,
}
use ipa_rs_hetero_cloud.Iam.Pattern.{glob_loop, run_glob, rounds}
use ipa_rs_hetero_cloud.Iam.Pattern.Rounds.{
  Round, over, literal, starred, refused, again, glob_loop-Round,
}

module _ (pattern value : List ℕ) where
  -- A saved star lies in the pattern, and its place in the text is not past the present one.
  abbrev InRange : ℕ → Option ℕ → ℕ → ℕ → Type 0
  InRange m none retry v = length value ≤ m
  InRange m (some i) retry v = (i < length pattern) × (retry ≤ v) × (length value ≤ m + retry)

  record Bound (f m p v : ℕ) (star : Option ℕ) (retry : ℕ) : Type 0 where
    in_pattern : p ≤ length pattern
    saved : InRange m star retry v
    fuel : m * (length pattern + 1) + length pattern < f + p

  abbrev Ends : ℕ → Type 0
  Ends f =
      (m p v : ℕ) (star : Option ℕ) (retry : ℕ)
      → Bound f m p v star retry
      → glob_loop pattern value f p v star retry ≢ none

  InRange-later :
      (m : ℕ) (star : Option ℕ) (retry v : ℕ)
      → InRange m star retry v
      → InRange m star retry (v + 1)
  InRange-later m none retry v h = h
  InRange-later m (some i) retry v h = omega arith

  InRange-here :
      (m : ℕ) (star : Option ℕ) (retry v : ℕ) → InRange m star retry v → length value ≤ m + v
  InRange-here m none retry v h = omega arith
  InRange-here m (some i) retry v h = omega arith

  module _ {f m p v : ℕ} {retry : ℕ} where
    Bound-literal :
        (star : Option ℕ)
        → Bound (suc f) m p v star retry
        → p < length pattern
        → Bound f m (p + 1) (v + 1) star retry
    Bound-literal star b h = record {
      in_pattern = omega arith;
      saved = InRange-later m star retry v b.saved;
      fuel = omega arith;
    }

    Bound-starred :
        (star : Option ℕ)
        → Bound (suc f) m p v star retry
        → p < length pattern
        → Bound f m (p + 1) v (some p) v
    Bound-starred star b h = record {
      in_pattern = omega arith;
      saved = (h, omega arith, InRange-here m star retry v b.saved);
      fuel = omega arith;
    }

  Bound-again :
      (f m p v i retry : ℕ)
      → Bound (suc f) m p v (some i) retry
      → v < length value
      → (m' : ℕ) × Bound f m' (i + 1) (retry + 1) (some i) (retry + 1)
  Bound-again f zero p v i retry b h = absurd (omega arith)
  Bound-again f (suc m) p v i retry b h = (
    m,
    record {
      in_pattern = omega arith;
      saved = (omega arith, omega arith, omega arith);
      fuel = omega arith;
    },
  )

  Round-ne-none :
      (f m p v : ℕ) (star : Option ℕ) (retry : ℕ) {r : Option Bool}
      → Ends f
      → Bound (suc f) m p v star retry
      → Round pattern value f p v star retry r
      → r ≢ none
  Round-ne-none f m p v star retry ih b (over end) = λ e. cc
  Round-ne-none f m p v star retry ih b (literal x c here at takes) =
      ih m (p + 1) (v + 1) star retry (Bound-literal star b (get_elem?-lt pattern p at))
  Round-ne-none f m p v star retry ih b (starred x c here at is leaves) =
      ih m (p + 1) v (some p) v (Bound-starred star b (get_elem?-lt pattern p at))
  Round-ne-none f m p v star retry ih b (refused c here miss e) = λ e. cc
  Round-ne-none f m p v star retry ih b (again c i here miss e) =
      let (m', b') = Bound-again f m p v i retry (rw e at b) (get_elem?-lt value v here) in
      ih m' (i + 1) (retry + 1) (some i) (retry + 1) b'

  ends : (f : ℕ) → Ends f
  ends zero m p v star retry b = absurd (omega arith)
  ends (suc f) m p v star retry b =
      Round-ne-none f m p v star retry (ends f) b (glob_loop-Round pattern value f p v star retry)

-- Within its rounds the loop ends with an answer, on every pattern and every text.
pub run_glob-ne-none : (pattern value : List ℕ) → run_glob pattern value ≢ none
unfolding run_glob
run_glob-ne-none pattern value =
    ends pattern value (rounds pattern value) (length value) 0 0 none 0
      (record { in_pattern = omega arith; saved = omega arith; fuel = omega arith })
