-- ===== src/Decimal/Value.antt =====
-- What the numerals of goverify stand for.
use verify.Prelude.{
  Option, [], all, arith, if◌then◌else◌, leb, ltb, none, some, ℕ, ◌*◌, ◌+◌, ◌-◌, ◌/◌, ◌∷◌, ◌≡◌, ◌≤◌,
  Bool, Bool-cases, inl, inr, sym, ◌&&◌, ◌<◌, ◌∙◌,
}
use verify.Text.{Bytes}
use verify.Decimal.{
  is_digit, max_uint64, unsigned_from, badly_led, canonical_decimal, unsigned_decimal,
}

-- The number that digits stand for, with no bound.
unfoldable pub value_from : ℕ → Bytes → ℕ
value_from n [] = n
value_from n (c ∷ cs) = value_from (n * 10 + (c - b'0')) cs

value_from-grows : (n : ℕ) (v : Bytes) → n ≤ value_from n v
unfolding value_from
value_from-grows n [] = omega arith
value_from-grows n (c ∷ cs) = omega (arith, value_from-grows (n * 10 + (c - b'0')) cs)

-- The test for overflow is exact at each digit.
overflow_test :
    (result digit : ℕ)
    → digit ≤ 9
    → ltb ((max_uint64 - digit) / 10) result ≡ ltb max_uint64 (result * 10 + digit)
overflow_test result digit h = ground arith

abbrev in_range : ℕ → Option ℕ
in_range n = if leb n max_uint64 then some n else none

beyond :
    (n : ℕ) (v : Bytes)
    → max_uint64 < n
    → (if all is_digit v then in_range (value_from n v) else none) ≡ none
beyond n v h = ground (arith, value_from-grows n v)

both :
    (b : Bool) (n : ℕ)
    → (if b then in_range n else none) ≡ (if b && leb n max_uint64 then some n else none)
both b n = ground arith

unsigned_from_lem :
    (n : ℕ) (v : Bytes)
    → n ≤ max_uint64
    → unsigned_from n v ≡ (if all is_digit v then in_range (value_from n v) else none)
unfolding unsigned_from value_from
unsigned_from_lem n [] h = ground arith
unsigned_from_lem n (c ∷ cs) h = elim (Bool-cases (is_digit c)) [
  | inl digit ↦
      let next = n * 10 + (c - b'0') in
      elim (Bool-cases (ltb ((max_uint64 - (c - b'0')) / 10) n)) [
        | inl over ↦
            rw (digit, over)
              (sym
                (beyond next cs (ground (arith, overflow_test n (c - b'0') (ground arith), over))))
        | inr fits ↦
            rw (digit, fits)
              (unsigned_from_lem next cs
                (ground (arith, overflow_test n (c - b'0') (ground arith), fits)))
      ]
  | inr other ↦ rw (other)
]

-- `unsignedDecimal` reads exactly the canonical numerals of a `uint64`, each as the number that its
-- digits stand for.
pub unsigned_decimal_lem :
    (v : Bytes)
    → unsigned_decimal v ≡ (
        if canonical_decimal v && leb (value_from 0 v) max_uint64
        then some (value_from 0 v)
        else none)
unfolding unsigned_decimal canonical_decimal
unsigned_decimal_lem v = elim (Bool-cases (badly_led v)) [
  | inl bad ↦ rw bad
  | inr good ↦
      rw good (unsigned_from_lem 0 v (omega arith) ∙ both (all is_digit v) (value_from 0 v))
]

-- The number read is a `uint64`.
pub unsigned_decimal-bound : (v : Bytes) {n : ℕ} → unsigned_decimal v ≡ some n → n ≤ max_uint64
unsigned_decimal-bound v h = ground (arith, unsigned_decimal_lem v)
