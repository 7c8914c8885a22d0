-- ===== src/Value/Hash.antt =====
-- Values that compare as equal: what their hashes and their contents say.
use db.Prelude.{
  ◌<◌, false, ℕ, zero, suc, ◌≤◌, ◌≡◌, ◌↔◌, ◌⊎◌, inl, inr, subst, refl, ap, sym, ◌∙◌, ◌&&◌,
  if◌then◌else◌, true, arith, List, [], ◌∷◌, length, min,
}
use db.Prelude.Bits.{word}
use db.Value.{
  double_lt, is_nan, is_negative, ft_double, double_of, Value, ft_text, value_text, text_of,
  bool_of, widen, is_numeric_kind, is_bool_kind, compare_values, compare_doubles, compare_bools,
  value_double, double_eq, is_zero, value_hash, compare_texts, memcmp, or_lengths, compare_lengths,
  Sign, same,
}

double_eq_cases :
    (a b : ℕ) → double_eq a b ≡ true → (a ≡ b) ⊎ (is_zero a ≡ true) × (is_zero b ≡ true)
unfolding double_eq
double_eq_cases a b e = ground arith

-- The hash of a double does not see the sign of zero, so it agrees with `==`.
pub double_hash :
    (a b : ℕ) → double_eq a b ≡ true → value_hash (value_double a) ≡ value_hash (value_double b)
unfolding value_hash
double_hash a b e = elim (double_eq_cases a b e) [
  | inl equal ↦ ap (λ d. value_hash (value_double d)) equal
  | inr (p, q) ↦ rw (p, q)
]

memcmp-same :
    (n : ℕ) (a b : List ℕ) → length a ≡ length b → length a ≤ n → memcmp n a b ≡ same → a ≡ b
unfolding memcmp
memcmp-same zero [] [] e h c = refl
memcmp-same zero [] (y ∷ b) e h c = absurd (omega arith)
memcmp-same zero (x ∷ a) b e h c = absurd (omega arith)
memcmp-same (suc n) [] [] e h c = refl
memcmp-same (suc n) [] (y ∷ b) e h c = absurd (omega arith)
memcmp-same (suc n) (x ∷ a) [] e h c = absurd (omega arith)
memcmp-same (suc n) (x ∷ a) (y ∷ b) e h c = ground (arith, memcmp-same n a b)

memcmp_refl : (n : ℕ) (a : List ℕ) → memcmp n a a ≡ same
unfolding memcmp
memcmp_refl zero a = refl
memcmp_refl (suc n) [] = refl
memcmp_refl (suc n) (x ∷ a) = ground (arith, memcmp_refl n a)

or_lengths-same : (c : Sign) (m n : ℕ) → or_lengths c m n ≡ same → (c ≡ same) × (m ≡ n)
unfolding or_lengths compare_lengths
or_lengths-same Sign.less m n e = ground arith
or_lengths-same Sign.greater m n e = ground arith
or_lengths-same Sign.same m n e = ground arith

compare_texts_refl : (a : List ℕ) → compare_texts a a ≡ same
unfolding compare_texts or_lengths compare_lengths
compare_texts_refl a = rw (memcmp_refl (min (length a) (length a)) a) (ground arith)

-- Two texts compare as equal exactly when they are the same bytes.
pub compare_texts-same : (a b : List ℕ) → (compare_texts a b ≡ same) ↔ (a ≡ b)
unfolding compare_texts
compare_texts-same a b = (
  λ h.
      let (c, e) = or_lengths-same _ _ _ h in
      memcmp-same (min (length a) (length b)) a b e (omega arith) c,
  λ e. subst (λ x. compare_texts a x ≡ same) e (compare_texts_refl a),
)

compare_values-texts :
    (a b : Value)
    → a.kind ≡ ft_text
    → b.kind ≡ ft_text
    → compare_values a b ≡ compare_texts (text_of a.content) (text_of b.content)
unfolding compare_values is_numeric_kind is_bool_kind
compare_values-texts a b ka kb =
    ap
      (λ k.
        if is_numeric_kind k && is_numeric_kind b.kind
        then compare_doubles (widen a) (widen b)
        else if is_bool_kind k
        then compare_bools (bool_of a.content) (bool_of b.content)
        else compare_texts (text_of a.content) (text_of b.content))
      ka

hash_text :
    (a : Value) → a.kind ≡ ft_text → value_hash a ≡ value_hash (value_text (text_of a.content))
unfolding value_hash
hash_text a ka = rw ka refl

-- Texts that compare as equal, on one side or the other, have the same hash.
pub text_hash :
    (a b : Value)
    → a.kind ≡ ft_text
    → b.kind ≡ ft_text
    → (compare_values a b ≡ same) ⊎ (compare_values b a ≡ same)
    → value_hash a ≡ value_hash b
text_hash a b ka kb h =
    let equal : text_of a.content ≡ text_of b.content = elim h [
      | inl ab ↦ (compare_texts-same _ _).0 (sym (compare_values-texts a b ka kb) ∙ ab)
      | inr ba ↦ sym ((compare_texts-same _ _).0 (sym (compare_values-texts b a kb ka) ∙ ba))
    ] in
    hash_text a ka ∙ ap (λ s. value_hash (value_text s)) equal ∙ sym (hash_text b kb)

-- Doubles that are no NaN and compare as neither less are equal.
pub compare_doubles-same :
    (a b : ℕ)
    → a < word
    → b < word
    → is_nan a ≡ false
    → is_nan b ≡ false
    → compare_doubles a b ≡ same
    → double_eq a b ≡ true
unfolding compare_doubles double_lt double_eq is_nan is_zero is_negative
compare_doubles-same a b ha hb na nb e = ground arith

compare_values-doubles :
    (a b : Value)
    → a.kind ≡ ft_double
    → b.kind ≡ ft_double
    → compare_values a b ≡ compare_doubles (double_of a.content) (double_of b.content)
unfolding compare_values is_numeric_kind widen
compare_values-doubles a b ka kb = rw (ka, kb) refl

hash_double :
    (a : Value)
    → a.kind ≡ ft_double
    → value_hash a ≡ value_hash (value_double (double_of a.content))
unfolding value_hash
hash_double a ka = rw ka refl

-- A 64-bit double that is no NaN.
pub record IsNumber (d : ℕ) : Type 0 where
  pub bounded : d < word
  pub number : is_nan d ≡ false

-- DOUBLE values that are no NaN and compare as equal, on one side or the other, have the same hash.
pub doubles_hash :
    (a b : Value)
    → a.kind ≡ ft_double
    → b.kind ≡ ft_double
    → IsNumber (double_of a.content)
    → IsNumber (double_of b.content)
    → (compare_values a b ≡ same) ⊎ (compare_values b a ≡ same)
    → value_hash a ≡ value_hash b
doubles_hash a b ka kb na nb h =
    let x = double_of a.content in
    let y = double_of b.content in
    let equal : value_hash (value_double x) ≡ value_hash (value_double y) = elim h [
      | inl ab ↦ double_hash x y (
          compare_doubles-same x y na.bounded nb.bounded na.number nb.number
            (sym (compare_values-doubles a b ka kb) ∙ ab))
      | inr ba ↦ sym (
          double_hash y x (
            compare_doubles-same y x nb.bounded na.bounded nb.number na.number
              (sym (compare_values-doubles b a kb ka) ∙ ba)))
    ] in
    hash_double a ka ∙ equal ∙ sym (hash_double b kb)
