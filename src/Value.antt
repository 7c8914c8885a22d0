-- ===== src/Value.antt =====
-- c/include/value.h, c/include/field.h and c/src/value.c: the typed, possibly NULL values.
-- An `int64_t` is its two's-complement pattern and a `double` its IEEE 754 pattern, both below
-- 2 ^ 64; text is its bytes.
pub mod Hash
use db.Prelude.{
  ℕ, zero, suc, ◌+◌, ◌-◌, ◌*◌, ◌/◌, ◌%◌, ◌^◌, min, length, bit_xor, Bool, true, false, not, ◌&&◌,
  ◌||◌, List, [], ◌∷◌, ltb, leb, ◌==◌, if◌then◌else◌,
}
use db.Prelude.Bits.{word}

pub data FieldType : Type 0 where
  ft_int ft_double ft_bool ft_text ft_err : FieldType

-- The union of a value. A NULL has none.
pub data Content : Type 0 where
  as_none : Content
  as_int : ℕ → Content
  as_double : ℕ → Content
  as_bool : Bool → Content
  as_text : List ℕ → Content

pub record Value : Type 0 where
  pub kind : FieldType
  pub is_null : Bool
  pub content : Content

abbrev pub value_int : ℕ → Value
value_int v = record { kind = ft_int; is_null = false; content = as_int v }

abbrev pub value_double : ℕ → Value
value_double v = record { kind = ft_double; is_null = false; content = as_double v }

abbrev pub value_bool : Bool → Value
value_bool v = record { kind = ft_bool; is_null = false; content = as_bool v }

abbrev pub value_text : List ℕ → Value
value_text s = record { kind = ft_text; is_null = false; content = as_text s }

abbrev pub value_null : FieldType → Value
value_null kind = record { kind = kind; is_null = true; content = as_none }

-- The members of the union.
abbrev pub int_of : Content → ℕ
int_of (as_int v) = v
int_of _ = 0

abbrev pub double_of : Content → ℕ
double_of (as_double v) = v
double_of _ = 0

abbrev pub bool_of : Content → Bool
bool_of (as_bool v) = v
bool_of _ = false

abbrev pub text_of : Content → List ℕ
text_of (as_text s) = s
text_of _ = []

-- IEEE 754 binary64. The sign is the top bit.
abbrev sign_bit : ℕ
sign_bit = 2 ^ 63

abbrev infinity : ℕ
infinity = 0x7ff0_0000_0000_0000

pub is_nan : ℕ → Bool
is_nan d = ltb infinity (d % sign_bit)

pub is_zero : ℕ → Bool
is_zero d = d % sign_bit == 0

pub is_negative : ℕ → Bool
is_negative d = leb sign_bit d

-- `a == b` on doubles: no NaN is equal to anything, and the zeros are equal.
unfoldable pub double_eq : ℕ → ℕ → Bool
unfolding is_nan is_zero
double_eq a b = not (is_nan a) && not (is_nan b) && ((a == b) || (is_zero a && is_zero b))

-- `a < b` on doubles, by sign and magnitude.
unfoldable pub double_lt : ℕ → ℕ → Bool
unfolding is_nan is_zero is_negative
double_lt a b =
    not (is_nan a)
    && not (is_nan b)
    && (if is_negative a
        then (if is_negative b
            then ltb (b % sign_bit) (a % sign_bit)
            else not (is_zero a && is_zero b))
        else not (is_negative b) && ltb a b)

-- The position of the highest bit of a positive word.
top_bit : ℕ → ℕ → ℕ
top_bit zero m = 0
top_bit (suc fuel) m = let rest = top_bit fuel (m / 2) in if ltb m 2 then 0 else suc rest

-- The quotient by 2 ^ s, rounded to the nearest, ties to even.
round_shift : ℕ → ℕ → ℕ
round_shift m s =
    let q = m / 2 ^ s in
    let r = m % 2 ^ s * 2 in if ltb (2 ^ s) r || ((r == 2 ^ s) && (q % 2 == 1)) then q + 1 else q

-- The pattern of a positive magnitude: exponent e and 53 significant bits.
magnitude_to_double : ℕ → ℕ
unfolding top_bit round_shift
magnitude_to_double m =
    let e = top_bit 64 m in
    if leb e 52
    then (e + 1023) * 2 ^ 52 + (m * 2 ^ (52 - e) - 2 ^ 52)
    else (e + 1023) * 2 ^ 52 + (round_shift m (e - 52) - 2 ^ 52)

-- (double)x
unfoldable pub int_to_double : ℕ → ℕ
unfolding magnitude_to_double
int_to_double x =
    if x == 0
    then 0
    else if ltb x sign_bit
    then magnitude_to_double x
    else sign_bit + magnitude_to_double (word - x)

-- The sign of the `int` that a comparison returns.
pub data Sign : Type 0 where
  less same greater : Sign

unfoldable pub is_numeric_kind : FieldType → Bool
is_numeric_kind ft_int = true
is_numeric_kind ft_double = true
is_numeric_kind _ = false

widen : Value → ℕ
widen v = elim v.kind [ ft_int ↦ int_to_double (int_of v.content) | _ ↦ double_of v.content ]

pub compare_doubles : ℕ → ℕ → Sign
compare_doubles x y = if double_lt x y then less else if double_lt y x then greater else same

pub compare_bools : Bool → Bool → Sign
compare_bools true true = same
compare_bools true false = greater
compare_bools false true = less
compare_bools false false = same

compare_lengths : ℕ → ℕ → Sign
compare_lengths m n = if m == n then same else if ltb m n then less else greater

-- memcmp over the first n bytes.
pub memcmp : ℕ → List ℕ → List ℕ → Sign
memcmp zero a b = same
memcmp (suc n) [] b = same
memcmp (suc n) (x ∷ a) [] = same
memcmp (suc n) (x ∷ a) (y ∷ b) =
    let rest = memcmp n a b in if ltb x y then less else if ltb y x then greater else rest

pub or_lengths : Sign → ℕ → ℕ → Sign
unfolding compare_lengths
or_lengths less m n = less
or_lengths greater m n = greater
or_lengths same m n = compare_lengths m n

-- The bytes up to the shorter length, then the lengths.
unfoldable pub compare_texts : List ℕ → List ℕ → Sign
unfolding memcmp or_lengths
compare_texts a b = or_lengths (memcmp (min (length a) (length b)) a b) (length a) (length b)

is_bool_kind : FieldType → Bool
is_bool_kind ft_bool = true
is_bool_kind _ = false

unfoldable pub compare_values : Value → Value → Sign
unfolding is_numeric_kind widen compare_doubles compare_bools compare_texts is_bool_kind
compare_values a b =
    if is_numeric_kind a.kind && is_numeric_kind b.kind
    then compare_doubles (widen a) (widen b)
    else if is_bool_kind a.kind
    then compare_bools (bool_of a.content) (bool_of b.content)
    else compare_texts (text_of a.content) (text_of b.content)

-- x ^= x >> 30; x *= c; x ^= x >> 27; x *= d; x ^ (x >> 31)
mix : ℕ → ℕ
mix x =
    let a = bit_xor x (x / 2 ^ 30) * 0xbf58_476d_1ce4_e5b9 % word in
    let b = bit_xor a (a / 2 ^ 27) * 0x94d0_49bb_1331_11eb % word in bit_xor b (b / 2 ^ 31)

-- FNV-1a over the bytes.
fnv : ℕ → List ℕ → ℕ
fnv h [] = h
fnv h (c ∷ cs) = fnv (bit_xor h c * 1_099_511_628_211 % word) cs

unfoldable pub value_hash : Value → ℕ
unfolding mix fnv is_zero
value_hash v = elim v.kind [
  | ft_int ↦ mix (int_of v.content)
  | ft_double ↦ let d = double_of v.content in mix (if is_zero d then 0 else d)
  | ft_bool ↦ if bool_of v.content then 0x9e37_79b9_7f4a_7c15 else 0xd6e8_feb8_6659_fd93
  | ft_text ↦ fnv 14_695_981_039_346_656_037 (text_of v.content)
  | ft_err ↦ 0
]
