-- ===== src/Unreserved/Class.antt =====
-- `feng_str_is_unreserved` (src/utilities.c) and the characters that RFC 3986 calls unreserved.
use feng.Base.{
  ℕ, zero, suc, ◌<◌, ◌≡◌, refl, inl, inr, Bool, true, false, ◌&&◌, ◌||◌, not, some, [], ◌∷◌, ltb,
  leb, ◌==◌, Bool-cases, arith,
}
use feng.Base.Text.{Text}
use feng.Unreserved.{unreserved_char, all_unreserved, feng_str_is_unreserved}

abbrev between : ℕ → ℕ → ℕ → Bool
between low high c = leb low c && leb c high

-- `unreserved` of RFC 3986, section 2.3: ALPHA, DIGIT, "-", ".", "_" and "~".
abbrev pub is_unreserved : ℕ → Bool
is_unreserved c =
    (between 65 90 c || between 97 122 c)
    || (between 48 57 c || ((c == 45 || c == 46) || (c == 95 || c == 126)))

abbrev pub every : Text → Bool
every [] = true
every (c ∷ text) = is_unreserved c && every text

abbrev agree : Bool → Bool → Bool
agree true b = b
agree false b = not b

agree→≡ : (a b : Bool) → agree a b ≡ true → a ≡ b
agree→≡ true true h = refl
agree→≡ false false h = refl
agree→≡ true false h = cc
agree→≡ false true h = cc

abbrev all_below : (ℕ → Bool) → ℕ → Bool
all_below f zero = true
all_below f (suc n) = f n && all_below f n

found_below : (f : ℕ → Bool) (n k : ℕ) → all_below f n ≡ true → k < n → f k ≡ true
found_below f zero k h l = absurd (omega arith)
found_below f (suc n) k h l = elim (Bool-cases (k == n)) [
  | inl e ↦ let i : k ≡ n = ground arith in rw i (ground arith)
  | inr e ↦ found_below f n k (ground arith) (ground arith)
]

same_low : all_below (λ c. agree (unreserved_char c) (is_unreserved c)) 128 ≡ true
unfolding unreserved_char
same_low = refl

not-not : (b : Bool) → not (not b) ≡ b
not-not true = refl
not-not false = refl

same_test : (c : ℕ) → not (ltb 127 c || not (unreserved_char c)) ≡ is_unreserved c
same_test c = elim (Bool-cases (ltb 127 c)) [
  | inl e ↦ ground arith
  | inr e ↦
      let l : c < 128 = ground arith in
      let s =
        agree→≡ (unreserved_char c) (is_unreserved c)
          (found_below (λ d. agree (unreserved_char d) (is_unreserved d)) 128 c same_low l) in
      rw (e, s) (not-not (is_unreserved c))
]

same_texts : (text : Text) → all_unreserved text ≡ every text
unfolding all_unreserved
same_texts [] = refl
same_texts (c ∷ text) = rw (same_test c, same_texts text) refl

-- A text is accepted exactly if each of its bytes is a letter or a digit of ASCII, "-", ".", "_" or
-- "~", the unreserved characters of RFC 3986.
pub feng_str_is_unreserved_lem : (text : Text) → feng_str_is_unreserved (some text) ≡ every text
unfolding feng_str_is_unreserved
feng_str_is_unreserved_lem text = same_texts text
