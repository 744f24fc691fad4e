-- ===== src/Prelude/TextLaws.antt =====
-- What the operations on char and byte sequences mean.
use Prim.Native.Nat.{ℕ, ◌<◌}
use mathlib.Core.Path.{◌≡◌, refl, sym, ap, subst, ◌∙◌}
use mathlib.Core.Logic.{◌≢◌, ◌⊎◌, inl, inr}
use mathlib.Core.Bool.{Bool, true, false, not}
use mathlib.Core.List.{List, [], ◌∷◌, ◌++◌}
use mathlib.Core.Option.{Option, none, some}
use native.Mathlib.Omega.{arith}
use ipa_rs_hetero_cloud.Prelude.Tests.{◌==◌, ==_iff, Bool-cases, leb, leb→le, ltb}
use ipa_rs_hetero_cloud.Prelude.Lists.{
  All, all, length, take, drop, take-append-drop, length-take, drop-past, take-append, drop-append,
  get_elem?-append,
}
use ipa_rs_hetero_cloud.Prelude.Text.{
  same_text, strip_prefix, split_once, is_char_boundary, get_to, get_from, utf8, encode,
  is_whitespace, trim_start, trim_end, trim,
}

pub same_text→eq : (s t : List ℕ) → same_text s t ≡ true → s ≡ t
unfolding same_text
same_text→eq [] [] h = refl
same_text→eq [] (b ∷ t) h = cc
same_text→eq (a ∷ s) [] h = cc
same_text→eq (a ∷ s) (b ∷ t) h = ground (arith, same_text→eq s t)

pub same_text_self : (s : List ℕ) → same_text s s ≡ true
unfolding same_text
same_text_self [] = refl
same_text_self (a ∷ s) = ground (arith, same_text_self s)

pub strip_prefix→append : (p s : List ℕ) {r : List ℕ} → strip_prefix p s ≡ some r → s ≡ p ++ r
unfolding strip_prefix
strip_prefix→append [] s h = cc
strip_prefix→append (a ∷ p) [] h = cc
strip_prefix→append (a ∷ p) (b ∷ s) {r} h = ground (arith, strip_prefix→append p s {r = r})

pub strip_prefix-append : (p r : List ℕ) → strip_prefix p (p ++ r) ≡ some r
unfolding strip_prefix
strip_prefix-append [] r = refl
strip_prefix-append (a ∷ p) r = ground (arith, strip_prefix-append p r)

pub strip_differs : (a b : ℕ) (p s : List ℕ) → b ≢ a → strip_prefix (a ∷ p) (b ∷ s) ≡ none
unfolding strip_prefix
strip_differs a b p s h = ground arith

pub split_once→append :
    (sep : ℕ) (s : List ℕ) {a b : List ℕ} → split_once sep s ≡ some (a, b) → s ≡ a ++ sep ∷ b
unfolding split_once
split_once→append sep [] h = cc
split_once→append sep (c ∷ s) {a} {b} h =
    by_test (Bool-cases (c == sep)) (split_once sep s) refl
      (λ a' b' e. split_once→append sep s {a = a'} {b = b'} e)
  where
    by_test :
        (c == sep ≡ true) ⊎ (c == sep ≡ false)
        → (o : Option (List ℕ × List ℕ)) → split_once sep s ≡ o
        → ((a' b' : List ℕ) → split_once sep s ≡ some (a', b') → s ≡ a' ++ sep ∷ b')
        → c ∷ s ≡ a ++ sep ∷ b
    by_test (inl here) o e later = let same = (==_iff c sep).0 here in ground arith
    by_test (inr not_here) none e later = ground arith
    by_test (inr not_here) (some (a', b')) e later = let ih = later a' b' e in ground arith

-- The text before the first occurrence has none.
pub split_once-plain :
    (sep : ℕ) (s : List ℕ) {a b : List ℕ} → split_once sep s ≡ some (a, b) → All (λ c. c ≢ sep) a
unfolding split_once
split_once-plain sep [] h = absurd (ground arith)
split_once-plain sep (c ∷ s) {a} {b} h =
    by_test (c == sep) (split_once sep s) refl refl
      (λ a' b' e. split_once-plain sep s {a = a'} {b = b'} e)
  where
    by_test :
        (t : Bool) (o : Option (List ℕ × List ℕ))
        → (c == sep) ≡ t
        → split_once sep s ≡ o
        → ((a' b' : List ℕ) → split_once sep s ≡ some (a', b') → All (λ c. c ≢ sep) a')
        → All (λ c. c ≢ sep) a
    by_test true o e path later =
        let nothing : [] ≡ a = ground arith in subst (All (λ c. c ≢ sep)) nothing tt
    by_test false none e path later = absurd (ground arith)
    by_test false (some (a', b')) e path later =
        let longer : c ∷ a' ≡ a = ground arith in
        subst (All (λ c. c ≢ sep)) longer ((λ same. ground arith), later a' b' path)

pub split_once-append :
    (sep : ℕ) (a b : List ℕ) → All (λ c. c ≢ sep) a → split_once sep (a ++ sep ∷ b) ≡ some (a, b)
unfolding split_once
split_once-append sep [] b h = ground arith
split_once-append sep (c ∷ a) b h = ground (arith, split_once-append sep a b h.1)

-- A text that is cut in two in front of an ASCII byte.
pub get_to-take : (i : ℕ) (s : List ℕ) {r : List ℕ} → get_to i s ≡ some r → r ≡ take i s
unfolding get_to
get_to-take i s h = ground arith

pub get_from-drop : (i : ℕ) (s : List ℕ) {r : List ℕ} → get_from i s ≡ some r → r ≡ drop i s
unfolding get_from
get_from-drop i s h = ground arith

pub get_to-append :
    (a : List ℕ) (c : ℕ) (b : List ℕ) → c < 0x80 → get_to (length a) (a ++ c ∷ b) ≡ some a
unfolding get_to is_char_boundary
get_to-append a c b h = ground (arith, get_elem?-append a c b, take-append a (c ∷ b))

pub get_from-append :
    (a : List ℕ) (c : ℕ) (b : List ℕ) → c < 0x80 → get_from (length a) (a ++ c ∷ b) ≡ some (c ∷ b)
unfolding get_from is_char_boundary
get_from-append a c b h = ground (arith, get_elem?-append a c b, drop-append a (c ∷ b))

pub split_in_two :
    (i : ℕ) (s rest before : List ℕ) (c : ℕ)
    → get_to i s ≡ some before
    → get_from i s ≡ some (c ∷ rest)
    → (s ≡ before ++ c ∷ rest) × (length before ≡ i)
split_in_two i s rest before c to from =
    let front = get_to-take i s to in
    let behind = get_from-drop i s from in
    let whole = take-append-drop i s in
    (
      sym whole ∙ ap (λ a. a ++ drop i s) (sym front) ∙ ap (λ b. before ++ b) (sym behind),
      ap length front
          ∙ length-take i s (elim (Bool-cases (leb (length s) i)) [
            | inl short ↦ absurd (past (behind ∙ drop-past i s (leb→le (length s) i short)))
            | inr long ↦ ground arith
          ]),
    )
  where
    past : (c ∷ rest ≡ []) → ⊥
    past h = cc

-- ASCII chars are their own encoding, and a text without white space is trimmed.
pub encode-ascii : (s : List ℕ) → all (λ c. ltb c 0x80) s ≡ true → encode s ≡ s
unfolding utf8
encode-ascii [] h = refl
encode-ascii (c ∷ s) h = ground (arith, encode-ascii s)

pub trim_start-plain : (s : List ℕ) → all (λ c. not (is_whitespace c)) s ≡ true → trim_start s ≡ s
unfolding trim_start
trim_start-plain [] h = refl
trim_start-plain (c ∷ s) h = ground arith

pub trim_end-plain : (s : List ℕ) → all (λ c. not (is_whitespace c)) s ≡ true → trim_end s ≡ s
unfolding trim_end
trim_end-plain [] h = refl
trim_end-plain (c ∷ s) h = ground (arith, trim_end-plain s)

pub trim-plain : (s : List ℕ) → all (λ c. not (is_whitespace c)) s ≡ true → trim s ≡ s
unfolding trim
trim-plain s h = ap trim_end (trim_start-plain s h) ∙ trim_end-plain s h
