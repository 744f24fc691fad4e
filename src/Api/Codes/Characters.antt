-- ===== src/Api/Codes/Characters.antt =====
-- The characters of a user code: capitals and digits, in groups of four.
use ipa_rs_hetero_cloud.Prelude.{
  ◌≡◌, refl, ap, ◌∙◌, ℕ, Bool, true, false, not, ◌||◌, List, [], ◌∷◌, ◌++◌, map, arith, length, all,
  all-append, all-take, all-drop, filter, filter-append, take, drop, length-take, length-drop, ltb,
  ◌==◌, encode, encode-ascii, trim, trim-plain, is_whitespace, to_ascii_uppercase,
  is_ascii_alphanumeric, is_ascii_uppercase, is_ascii_digit,
}
use ipa_rs_hetero_cloud.Api.Codes.{grouped, code_characters}

abbrev pub code_char : ℕ → Bool
code_char c = is_ascii_uppercase c || is_ascii_digit c

-- Three groups of four capitals and digits, with dashes between them.
abbrev pub IsUserCode : List ℕ → Type 0
IsUserCode code =
    (a : List ℕ) × (b : List ℕ) × (c : List ℕ) × (code ≡ a ++ (b'-' ∷ (b ++ (b'-' ∷ c))))
    × (length a ≡ 4)
    × (length b ≡ 4)
    × (length c ≡ 4)
    × (all code_char a ≡ true)
    × (all code_char b ≡ true)
    × (all code_char c ≡ true)

pub all-implied :
    (p q : ℕ → Bool)
    → ((c : ℕ) → p c ≡ true → q c ≡ true)
    → (s : List ℕ) → all p s ≡ true
    → all q s ≡ true
all-implied p q step [] h = refl
all-implied p q step (c ∷ s) h =
    let here = step c (ground arith) in
    let later = all-implied p q step s (ground arith) in ground arith

pub code_char_facts :
    (c : ℕ)
    → code_char c ≡ true
    → (not (c == b'-') ≡ true)
      × (not (is_whitespace c) ≡ true)
      × (is_ascii_alphanumeric c ≡ true)
      × (ltb c 0x80 ≡ true)
      × (to_ascii_uppercase c ≡ c)
unfolding is_whitespace to_ascii_uppercase
code_char_facts c h = ground arith

pub map_upper : (s : List ℕ) → all code_char s ≡ true → map to_ascii_uppercase s ≡ s
map_upper [] h = refl
map_upper (c ∷ s) h = let here = (code_char_facts c (ground arith)).4 in ground (arith, map_upper s)

pub grouped_parts :
    (a b c : List ℕ)
    → length a ≡ 4
    → length b ≡ 4
    → length c ≡ 4
    → grouped (a ++ (b ++ c)) ≡ a ++ (b'-' ∷ (b ++ (b'-' ∷ c)))
unfolding grouped
grouped_parts (a1 ∷ a2 ∷ a3 ∷ a4 ∷ []) (b1 ∷ b2 ∷ b3 ∷ b4 ∷ []) (c1 ∷ c2 ∷ c3 ∷ c4 ∷ []) ha hb hc =
    refl
grouped_parts a b c ha hb hc = absurd (ground arith)

-- The characters of a code in normal form are its groups.
pub characters_of_code :
    (a b c : List ℕ)
    → all code_char a ≡ true
    → all code_char b ≡ true
    → all code_char c ≡ true
    → code_characters (a ++ (b'-' ∷ (b ++ (b'-' ∷ c)))) ≡ a ++ (b ++ c)
unfolding code_characters
characters_of_code a b c ha hb hc =
    ap (λ s. map to_ascii_uppercase (filter kept s)) (trim-plain whole visible)
    ∙ (ap (map to_ascii_uppercase) dashless ∙ map_upper (a ++ (b ++ c)) capitals)
  where
    whole : List ℕ
    whole = a ++ (b'-' ∷ (b ++ (b'-' ∷ c)))

    kept : ℕ → Bool
    kept x = not (x == b'-')

    shown : ℕ → Bool
    shown x = not (is_whitespace x)

    dash_visible : shown b'-' ≡ true
    dash_visible = refl

    visible : all shown whole ≡ true
    visible =
        let va = all-implied code_char shown (λ x h. (code_char_facts x h).1) a ha in
        let vb = all-implied code_char shown (λ x h. (code_char_facts x h).1) b hb in
        let vc = all-implied code_char shown (λ x h. (code_char_facts x h).1) c hc in
        all-append shown a (b'-' ∷ (b ++ (b'-' ∷ c)))
        ∙ ground (arith, dash_visible, all-append shown b (b'-' ∷ c))

    keeps : (s : List ℕ) → all code_char s ≡ true → all kept s ≡ true
    keeps s h = all-implied code_char kept (λ x e. (code_char_facts x e).0) s h

    filter_all : (s : List ℕ) → all kept s ≡ true → filter kept s ≡ s
    filter_all [] h = refl
    filter_all (x ∷ s) h = ground (arith, filter_all s)

    dashless : filter kept whole ≡ a ++ (b ++ c)
    dashless =
        filter-append kept a (b'-' ∷ (b ++ (b'-' ∷ c))) (keeps a ha)
        ∙ ap (λ s. a ++ s)
            (filter-append kept b (b'-' ∷ c) (keeps b hb)
              ∙ ap (λ s. b ++ s) (filter_all c (keeps c hc)))

    capitals : all code_char (a ++ (b ++ c)) ≡ true
    capitals = ground (arith, all-append code_char a (b ++ c), all-append code_char b c)

pub three_groups :
    (a b c : List ℕ) → length a ≡ 4 → length b ≡ 4 → length c ≡ 4 → length (a ++ (b ++ c)) ≡ 12
three_groups (a1 ∷ a2 ∷ a3 ∷ a4 ∷ []) (b1 ∷ b2 ∷ b3 ∷ b4 ∷ []) c ha hb hc = omega arith
three_groups a b c ha hb hc = absurd (ground arith)

upper_code_char :
    (c : ℕ)
    → is_ascii_alphanumeric (to_ascii_uppercase c) ≡ true
    → code_char (to_ascii_uppercase c) ≡ true
unfolding to_ascii_uppercase
upper_code_char c h = ground arith

pub upper_code :
    (s : List ℕ)
    → all is_ascii_alphanumeric (map to_ascii_uppercase s) ≡ true
    → all code_char (map to_ascii_uppercase s) ≡ true
upper_code [] h = refl
upper_code (c ∷ s) h =
    let here = upper_code_char c (ground arith) in
    let later = upper_code s (ground arith) in ground arith

pub grouped-IsUserCode :
    (cs : List ℕ) → length cs ≡ 12 → all code_char cs ≡ true → IsUserCode (grouped cs)
unfolding grouped
grouped-IsUserCode cs size capitals = (
  take 4 cs,
  take 4 (drop 4 cs),
  take 4 (drop 8 cs),
  refl,
  length-take 4 cs (omega arith),
  length-take 4 (drop 4 cs) (omega (arith, length-drop 4 cs)),
  length-take 4 (drop 8 cs) (omega (arith, length-drop 8 cs)),
  all-take code_char 4 cs capitals,
  all-take code_char 4 (drop 4 cs) (all-drop code_char 4 cs capitals),
  all-take code_char 4 (drop 8 cs) (all-drop code_char 8 cs capitals),
)

pub ascii_length :
    (cs : List ℕ) → all is_ascii_alphanumeric cs ≡ true → length (encode cs) ≡ length cs
ascii_length cs h = ap length (
    encode-ascii cs
      (all-implied is_ascii_alphanumeric (λ x. ltb x 0x80) (λ x e. ground arith) cs h))

pub normal_tests : (n : ℕ) (b : Bool) → (not (n == 12) || not b) ≡ false → (n ≡ 12) × (b ≡ true)
normal_tests n b h = ground arith

pub characters_code :
    (value : List ℕ)
    → all is_ascii_alphanumeric (code_characters value) ≡ true
    → all code_char (code_characters value) ≡ true
unfolding code_characters
characters_code value h = upper_code (filter (λ c. not (c == b'-')) (trim value)) h

pub all-filter : (s : List ℕ) → all is_ascii_alphanumeric (filter is_ascii_alphanumeric s) ≡ true
all-filter [] = refl
all-filter (c ∷ s) = ground (arith, all-filter s)

upper_alnum_char :
    (c : ℕ) → is_ascii_alphanumeric c ≡ true → is_ascii_alphanumeric (to_ascii_uppercase c) ≡ true
unfolding to_ascii_uppercase
upper_alnum_char c h = ground arith

pub upper_alnum :
    (s : List ℕ)
    → all is_ascii_alphanumeric s ≡ true
    → all is_ascii_alphanumeric (map to_ascii_uppercase s) ≡ true
upper_alnum [] h = refl
upper_alnum (c ∷ s) h =
    let here = upper_alnum_char c (ground arith) in
    let later = upper_alnum s (ground arith) in ground arith

pub exactly_twelve : (n : ℕ) → not (n == 12) ≡ false → n ≡ 12
exactly_twelve n h = ground arith
