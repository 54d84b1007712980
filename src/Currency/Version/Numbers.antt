-- ===== src/Currency/Version/Numbers.antt =====
-- goverify/workflow_currency.go: components are compared as numbers.
use verify.Prelude.{
  [], all, arith, length, refl, suc, true, ℕ, ◌*◌, ◌+◌, ◌-◌, ◌∷◌, ◌≡◌, ◌≤◌, Bool-cases, ap, inl,
  inr, ltb, ℤ, ◌<◌, ◌==◌, ◌∙◌,
}
use verify.Text.{Bytes}
use verify.Decimal.{is_digit}
use verify.Decimal.Value.{value_from}
use native.Mathlib.Nat.{add-mul, mul-le-mul_right, mul_assoc}
use verify.Currency.Version.{
  compare_bytes, compare_version_component, is_positive, is_zero, valid_action_version_component,
}

-- Ten to the length of a numeral.
abbrev scale : Bytes → ℕ
scale [] = 1
scale (c ∷ cs) = 10 * scale cs

scale-pos : (v : Bytes) → 1 ≤ scale v
scale-pos [] = omega arith
scale-pos (c ∷ cs) = omega (arith, scale-pos cs)

scale-length : (a b : Bytes) → length a ≡ length b → scale a ≡ scale b
scale-length [] [] h = refl
scale-length [] (y ∷ ys) h = absurd (omega arith)
scale-length (x ∷ xs) [] h = absurd (omega arith)
scale-length (x ∷ xs) (y ∷ ys) h = omega (arith, scale-length xs ys (omega arith))

scale_mono : (a b : Bytes) → length a ≤ length b → scale a ≤ scale b
scale_mono [] b h = scale-pos b
scale_mono (x ∷ xs) [] h = absurd (omega arith)
scale_mono (x ∷ xs) (y ∷ ys) h = omega (arith, scale_mono xs ys (omega arith))

-- The digits of a numeral add less than its scale.
value_from_bounds :
    (n : ℕ) (v : Bytes)
    → all is_digit v ≡ true
    → (n * scale v ≤ value_from n v) × (suc (value_from n v) ≤ (n + 1) * scale v)
unfolding value_from
value_from_bounds n [] h = omega arith
value_from_bounds n (c ∷ cs) h =
    let ih = value_from_bounds (n * 10 + (c - b'0')) cs (ground arith) in
    let digit : c - b'0' ≤ 9 = ground arith in
    let t = scale cs in
    let d = mul-le-mul_right t digit in
    omega (
      arith,
      ih,
      add-mul (n * 10) (c - b'0') t,
      mul_assoc n 10 t,
      add-mul (n * 10 + (c - b'0')) 1 t,
      add-mul n 1 (10 * t),
      d,
    )

value_from_separate :
    (m k : ℕ) (a b : Bytes)
    → m < k
    → length a ≡ length b
    → all is_digit a ≡ true
    → all is_digit b ≡ true
    → value_from m a < value_from k b
value_from_separate m k a b h l da db =
    let same : scale a ≡ scale b = scale-length a b l in
    let further = mul-le-mul_right (scale b) h in
    let e : (m + 1) * scale a ≡ suc m * scale b =
      rw same (ap (λ (z : ℕ). z * scale b) (omega arith)) in
    omega (arith, value_from_bounds m a da, value_from_bounds k b db, further, e)

-- A comparison of values of the same kind agrees with their numbers.
pub record Agrees (compared : ℤ) (a b : ℕ) : Type 0 where
  pub positive : is_positive compared ≡ ltb b a
  pub zero_at : is_zero compared ≡ (a == b)

compare_bytes-Agrees :
    (n : ℕ) (a b : Bytes)
    → length a ≡ length b
    → all is_digit a ≡ true
    → all is_digit b ≡ true
    → Agrees (compare_bytes a b) (value_from n a) (value_from n b)
unfolding compare_bytes value_from
compare_bytes-Agrees n [] [] l da db = record { positive = ground arith; zero_at = ground arith }
compare_bytes-Agrees n [] (y ∷ ys) l da db = absurd (omega arith)
compare_bytes-Agrees n (x ∷ xs) [] l da db = absurd (omega arith)
compare_bytes-Agrees n (x ∷ xs) (y ∷ ys) l da db = elim (Bool-cases (ltb x y)) [
  | inl less ↦
      let more =
        value_from_separate (n * 10 + (x - b'0')) (n * 10 + (y - b'0')) xs ys (ground arith)
          (omega arith) (ground arith) (ground arith) in
      rw less (record { positive = ground arith; zero_at = ground arith })
  | inr not_less ↦ elim (Bool-cases (ltb y x)) [
    | inl more ↦
        let above =
          value_from_separate (n * 10 + (y - b'0')) (n * 10 + (x - b'0')) ys xs (ground arith)
            (omega arith) (ground arith) (ground arith) in
        rw (not_less, more) (record { positive = ground arith; zero_at = ground arith })
    | inr not_more ↦
        let same : x ≡ y = ground arith in
        rw (not_less, not_more, same)
          (compare_bytes-Agrees (n * 10 + (y - b'0')) xs ys (omega arith) (ground arith)
            (ground arith))
  ]
]

-- The number of a component.
abbrev pub number : Bytes → ℕ
number v = value_from 0 v

number_shorter :
    (a b : Bytes)
    → valid_action_version_component a ≡ true
    → valid_action_version_component b ≡ true
    → length a < length b
    → number a < number b
unfolding valid_action_version_component value_from
number_shorter [] b va vb l = absurd (ground arith)
number_shorter (x ∷ xs) [] va vb l = absurd (omega arith)
number_shorter (x ∷ xs) (y ∷ []) va vb l = absurd (omega arith)
number_shorter (x ∷ xs) (y ∷ z ∷ ys) va vb l =
    let da : all is_digit (x ∷ xs) ≡ true = ground arith in
    let db : all is_digit (z ∷ ys) ≡ true = ground arith in
    let lead : 1 ≤ y - b'0' = ground arith in
    let small = scale_mono (x ∷ xs) (z ∷ ys) (omega arith) in
    let d = mul-le-mul_right (scale (z ∷ ys)) lead in
    let low = value_from_bounds (y - b'0') (z ∷ ys) db in
    let high = value_from_bounds 0 (x ∷ xs) da in
    let start : 0 * 10 + (y - b'0') ≡ y - b'0' = omega arith in
    rw start (unfold value_from in omega (arith, small, d, low, high))

pub compare_version_component-Agrees :
    (a b : Bytes)
    → valid_action_version_component a ≡ true
    → valid_action_version_component b ≡ true
    → Agrees (compare_version_component a b) (number a) (number b)
unfolding compare_version_component
compare_version_component-Agrees a b va vb = elim (Bool-cases (length a == length b)) [
  | inl same ↦ rw same (
      compare_bytes-Agrees 0 a b (ground arith)
        (unfold valid_action_version_component in ground arith)
        (unfold valid_action_version_component in ground arith))
  | inr differs ↦ rw differs (record {
    positive = ground (arith, number_shorter a b, number_shorter b a);
    zero_at = ground (arith, number_shorter a b, number_shorter b a);
  })
]

compare_bytes-zero : (a b : Bytes) → is_zero (compare_bytes a b) ≡ true → a ≡ b
unfolding compare_bytes
compare_bytes-zero [] [] h = refl
compare_bytes-zero [] (y ∷ ys) h = absurd (ground arith)
compare_bytes-zero (x ∷ xs) [] h = absurd (ground arith)
compare_bytes-zero (x ∷ xs) (y ∷ ys) h = ground (arith, compare_bytes-zero xs ys)

pub number-injective :
    (a b : Bytes)
    → valid_action_version_component a ≡ true
    → valid_action_version_component b ≡ true
    → number a ≡ number b
    → a ≡ b
number-injective a b va vb h =
    let same : length a ≡ length b = ground (arith, number_shorter a b, number_shorter b a) in
    let agrees =
      compare_bytes-Agrees 0 a b same (unfold valid_action_version_component in ground arith)
        (unfold valid_action_version_component in ground arith) in
    compare_bytes-zero a b (agrees.zero_at ∙ ground arith)
