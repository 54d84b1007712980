-- ===== src/Decimal.antt =====
-- The decimal numerals of goverify: `unsignedDecimal` and `decimalDigits`, `canonicalDecimal` and
-- `canonicalPositiveDecimal`. A `uint64` is a number below 2 ^ 64.
pub mod Value
use verify.Prelude.{
  Bool, Option, [], all, false, if◌then◌else◌, leb, length, ltb, none, not, some, true, ℕ, ◌&&◌,
  ◌*◌, ◌+◌, ◌-◌, ◌/◌, ◌==◌, ◌^◌, ◌||◌, ◌∷◌,
}
use verify.Text.{Bytes, codes, has_prefix}

-- `math.MaxUint64`
abbrev pub max_uint64 : ℕ
max_uint64 = 2 ^ 64 - 1

abbrev pub is_digit : ℕ → Bool
is_digit c = leb b'0' c && leb c b'9'

-- The loop of `unsignedDecimal`, from the digits read so far.
unfoldable pub unsigned_from : ℕ → Bytes → Option ℕ
unsigned_from result [] = some result
unsigned_from result (c ∷ cs) =
    let rest = unsigned_from (result * 10 + (c - b'0')) cs in
    if not (is_digit c)
    then none
    else if ltb ((max_uint64 - (c - b'0')) / 10) result
    then none
    else rest

-- `len(value) == 0 || len(value) > 1 && value[0] == '0'`
abbrev pub badly_led : Bytes → Bool
badly_led [] = true
badly_led (x ∷ xs) = elim xs [ [] ↦ false | _ ∷ _ ↦ x == b'0' ]

unfoldable pub unsigned_decimal : Bytes → Option ℕ
unfolding unsigned_from
unsigned_decimal value = if badly_led value then none else unsigned_from 0 value

-- `positiveDecimal`
unfoldable pub positive_decimal : Bytes → Option ℕ
unfolding unsigned_decimal
positive_decimal value = elim (unsigned_decimal value) [
  | none ↦ none
  | some n ↦ if n == 0 then none else some n
]

-- `canonicalDecimal`
unfoldable pub canonical_decimal : Bytes → Bool
canonical_decimal value = not (badly_led value) && all is_digit value

-- `decimalDigits`
unfoldable pub decimal_digits : Bytes → Bool
decimal_digits [] = false
decimal_digits (x ∷ xs) = all is_digit (x ∷ xs)

-- `canonicalPositiveDecimal`
unfoldable pub canonical_positive_decimal : Bytes → Bool
unfolding unsigned_decimal
canonical_positive_decimal value = elim (unsigned_decimal value) [
  | none ↦ false
  | some n ↦ not (n == 0) && (length value == 1 || not (has_prefix value (codes "0")))
]
