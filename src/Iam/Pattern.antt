-- ===== src/Iam/Pattern.antt =====
-- `pattern_matches` and `action_pattern_matches` of crates/heterocloud-iam/src/lib.rs.
pub mod Glob
pub mod Rounds
pub mod Total
pub mod Sound
pub mod Complete
pub mod Wildcard
use ipa_rs_hetero_cloud.Prelude.{
  ℕ, zero, suc, ◌+◌, ◌*◌, String, Bool, false, ◌||◌, Option, none, some, List, map, ◌==◌,
  if◌then◌else◌, length, is_some_and, get_elem?, chars, to_ascii_lowercase,
}

abbrev pub star_char : ℕ
star_char = b'*'

abbrev pub any_char : ℕ
any_char = b'?'

-- `pattern[p] == '?' || pattern[p] == value[v]`
abbrev pub accepts : ℕ → ℕ → Bool
accepts c x = x == any_char || x == c

abbrev pub is_star : ℕ → Bool
is_star x = x == star_char

module _ (pattern : List ℕ) where
  -- `while p < pattern.len() && pattern[p] == '*' { p += 1 }`
  unfoldable pub skip_stars : ℕ → ℕ → ℕ
  skip_stars zero p = p
  skip_stars (suc f) p =
      let onward = skip_stars f (p + 1) in
      if is_some_and is_star (get_elem? pattern p) then onward else p

  module _ (value : List ℕ) where
    -- `while v < value.len() { … }` and what follows it, over `(p, v, star, retry)`.
    unfoldable pub glob_loop : ℕ → ℕ → ℕ → Option ℕ → ℕ → Option Bool
    glob_loop zero p v star retry = none
    glob_loop (suc f) p v star retry =
        let literal = glob_loop f (p + 1) (v + 1) star retry in
        let starred = glob_loop f (p + 1) v (some p) v in
        elim (get_elem? value v) [
          | none ↦ some (skip_stars (length pattern) p == length pattern)
          | some c ↦
              if is_some_and (accepts c) (get_elem? pattern p)
              then literal
              else if is_some_and is_star (get_elem? pattern p)
              then starred
              else elim star [
                | none ↦ some false
                | some index ↦ glob_loop f (index + 1) (retry + 1) (some index) (retry + 1)
              ]
        ]

-- Each round moves `p` on, or moves `retry` on and starts `p` again.
abbrev pub rounds : List ℕ → List ℕ → ℕ
rounds pattern value = length value * (length pattern + 1) + length pattern + 1

unfoldable pub run_glob : List ℕ → List ℕ → Option Bool
unfolding glob_loop skip_stars
run_glob pattern value = glob_loop pattern value (rounds pattern value) 0 0 none 0

-- The loop never runs out of rounds (module Total).
abbrev answer : Option Bool → Bool
answer none = false
answer (some b) = b

unfoldable pub glob_matches : List ℕ → List ℕ → Bool
unfolding run_glob
glob_matches pattern value = answer (run_glob pattern value)

unfoldable pub pattern_matches : String → String → Bool
unfolding glob_matches
pattern_matches pattern value = glob_matches (chars pattern) (chars value)

unfoldable pub action_pattern_matches : String → String → Bool
unfolding glob_matches to_ascii_lowercase
action_pattern_matches pattern value =
    glob_matches (map to_ascii_lowercase (chars pattern)) (map to_ascii_lowercase (chars value))
