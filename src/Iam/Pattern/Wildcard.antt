-- ===== src/Iam/Pattern/Wildcard.antt =====
-- A `*` of the text that meets a `*` of the pattern is taken as a plain character.
use ipa_rs_hetero_cloud.Prelude.{
  ℕ, zero, suc, ◌+◌, ◌≡◌, refl, sym, ◌∙◌, ◌≢◌, Bool, true, false, Option, none, some, List, [], ◌∷◌,
  ◌++◌, arith, drop, drop-get_elem?, drop-end, drop-suc, add-one, inr,
}
use ipa_rs_hetero_cloud.Iam.Pattern.{star_char, accepts, is_star, glob_loop, glob_matches, rounds}
use ipa_rs_hetero_cloud.Iam.Pattern.Rounds.{
  Round, over, literal, starred, refused, again, glob_loop-Round,
}
use ipa_rs_hetero_cloud.Iam.Pattern.Glob.{Fits, done, one, stop, grow, NoStar}

nonempty {ℓ} : {A : Type ℓ} (xs : List A) (y : A) (ys : List A) → xs ++ y ∷ ys ≢ []
nonempty [] y ys e = cc
nonempty (x ∷ xs) y ys e = cc

star_accepted : (x d : ℕ) → x ≡ star_char → d ≡ star_char → accepts d x ≡ false → ⊥
star_accepted x d e e' l = ground arith

first_is_star : (x y : ℕ) → x ≡ y → is_star x ≡ true → y ≡ star_char
first_is_star x y e t = ground arith

module _ (pattern value : List ℕ) (c : ℕ) (s : List ℕ) where
  -- What is left of the pattern and of the text, before and behind the two stars.
  abbrev Ahead : List ℕ → ℕ → ℕ → Type 0
  Ahead q p v = (drop p pattern ≡ q ++ star_char ∷ []) × (drop v value ≡ q ++ star_char ∷ c ∷ s)

  abbrev Behind : ℕ → ℕ → Type 0
  Behind p v = (drop p pattern ≡ []) × (drop v value ≡ c ∷ s)

  Round-Behind :
      (f p v retry : ℕ) {r : Option Bool}
      → Behind p v
      → Round pattern value f p v none retry r
      → r ≢ some true
  Round-Behind f p v retry (pe, ve) (over end) = λ h. cc (drop-end v value end, ve)
  Round-Behind f p v retry (pe, ve) (literal x d here at t) =
      λ h. cc (drop-get_elem? p pattern at, pe)
  Round-Behind f p v retry (pe, ve) (starred x d here at t l) =
      λ h. cc (drop-get_elem? p pattern at, pe)
  Round-Behind f p v retry (pe, ve) (refused d here miss e) = λ h. cc
  Round-Behind f p v retry (pe, ve) (again d i here miss e) = λ h. cc

  behind : (f p v retry : ℕ) → Behind p v → glob_loop pattern value f p v none retry ≢ some true
  unfolding glob_loop
  behind zero p v retry b = λ h. cc
  behind (suc f) p v retry b =
      Round-Behind f p v retry b (glob_loop-Round pattern value f p v none retry)

  abbrev Misses : ℕ → Type 0
  Misses f =
      (q : List ℕ) (p v retry : ℕ)
      → NoStar q
      → Ahead q p v
      → glob_loop pattern value f p v none retry ≢ some true

  Round-Ahead :
      (f : ℕ) (q : List ℕ) (p v retry : ℕ) {r : Option Bool}
      → Misses f
      → NoStar q
      → Ahead q p v
      → Round pattern value f p v none retry r
      → r ≢ some true
  Round-Ahead f q p v retry ih plain (pe, ve) (over end) =
      λ h. nonempty q star_char (c ∷ s) (sym ve ∙ drop-end v value end)
  Round-Ahead f [] p v retry ih plain (pe, ve) (literal x d here at t) =
      behind f (p + 1) (v + 1) retry
        (rw (add-one p, add-one v) (drop-suc p pattern pe, drop-suc v value ve))
  Round-Ahead f (y ∷ q) p v retry ih plain (pe, ve) (literal x d here at t) =
      ih q (p + 1) (v + 1) retry plain.1
        (rw (add-one p, add-one v) (drop-suc p pattern pe, drop-suc v value ve))
  Round-Ahead f [] p v retry ih plain (pe, ve) (starred x d here at t l) = absurd (
      star_accepted x d (cc (drop-get_elem? p pattern at, pe))
        (cc (drop-get_elem? v value here, ve)) l)
  Round-Ahead f (y ∷ q) p v retry ih plain (pe, ve) (starred x d here at t l) =
      absurd (plain.0 (first_is_star x y (cc (drop-get_elem? p pattern at, pe)) t))
  Round-Ahead f q p v retry ih plain a (refused d here miss e) = λ h. cc
  Round-Ahead f q p v retry ih plain a (again d i here miss e) = λ h. cc

  ahead : (f : ℕ) → Misses f
  unfolding glob_loop
  ahead zero q p v retry plain a = λ h. cc
  ahead (suc f) q p v retry plain a =
      Round-Ahead f q p v retry (ahead f) plain a (glob_loop-Round pattern value f p v none retry)

Fits-prefix : (q : List ℕ) {p s : List ℕ} → Fits p s → Fits (q ++ p) (q ++ s)
Fits-prefix [] g = g
Fits-prefix (x ∷ q) g = one (inr refl) (Fits-prefix q g)

any_tail : (s : List ℕ) → Fits (star_char ∷ []) s
any_tail [] = stop refl done
any_tail (x ∷ s) = grow refl (any_tail s)

-- A pattern that is a plain prefix and one final `*` matches every text that begins with the
-- prefix, and the code refuses each of them in which the prefix is followed by `*` and more.
pub glob_matches-star_in_text :
    (prefix : List ℕ) (c : ℕ) (s : List ℕ)
    → NoStar prefix
    → Fits (prefix ++ star_char ∷ []) (prefix ++ star_char ∷ c ∷ s)
      × (glob_matches (prefix ++ star_char ∷ []) (prefix ++ star_char ∷ c ∷ s) ≡ false)
unfolding glob_matches
glob_matches-star_in_text prefix c s plain =
    let pattern = prefix ++ star_char ∷ [] in
    let value = prefix ++ star_char ∷ c ∷ s in
    let missed = ahead pattern value c s (rounds pattern value) prefix 0 0 0 plain (refl, refl) in
    (Fits-prefix prefix (any_tail (star_char ∷ c ∷ s)), ground arith)
