-- ===== src/Errors.antt =====
-- Go errors. An `error` is the list of the sentinels that it joins or wraps, in order; the nil
-- error is the empty list. `errors.Join` drops nil errors, so it is the append of lists, and
-- `errors.Is` is membership. The texts of messages are not kept.
use verify.Prelude.{
  Bool, List, [], arith, false, refl, ℕ, ◌++◌, ◌+◌, ◌==◌, ◌||◌, ◌∷◌, ◌≡◌, inl, inr, ◌⊎◌, not, true,
  if◌then◌else◌,
}

pub data Cause : Type 0 where
  -- of the package verify
  invalid_plan failed unavailable cancelled invocation wrong_output reporting : Cause
  -- of the packages that verify uses
  cleanup unsupported context_canceled deadline_exceeded no_progress invalid_count : Cause
  process_cancelled : Cause
  end_of_file unexpected_eof buffer_full : Cause
  -- of the package goverify
  coverage_profile incomplete_coverage workflow_currency workflow_references : Cause
  fuzz_campaign : Cause
  not_exist : Cause
  -- any other error, such as one of the operating system
  other : ℕ → Cause

abbrev pub Error : Type 0
Error = List Cause

abbrev pub is_nil : Error → Bool
is_nil [] = true
is_nil (c ∷ cs) = false

number : Cause → ℕ
number invalid_plan = 0
number failed = 1
number unavailable = 2
number cancelled = 3
number invocation = 4
number wrong_output = 5
number reporting = 6
number cleanup = 7
number unsupported = 8
number context_canceled = 9
number deadline_exceeded = 10
number no_progress = 11
number invalid_count = 12
number coverage_profile = 13
number incomplete_coverage = 14
number workflow_currency = 15
number end_of_file = 16
number unexpected_eof = 17
number buffer_full = 18
number workflow_references = 19
number fuzz_campaign = 20
number not_exist = 21
number process_cancelled = 22
number (other n) = 32 + n

-- `errors.Is(err, target)`
unfoldable pub is : Error → Cause → Bool
unfolding number
is [] target = false
is (c ∷ cs) target = number c == number target || is cs target

-- The results of a function with an error: the error, if it is not nil, hides the value.
pub data Result {ℓ} (Value : Type ℓ) : Type ℓ where
  err : (cause : Error) → Result Value
  ok : (value : Value) → Result Value

abbrev pub ◌>>=◌ {ℓ κ} :
    {Value : Type ℓ} {Next : Type κ} → Result Value → (Value → Result Next) → Result Next
err causes >>= next = err causes
ok value >>= next = next value

infixl 5 ◌>>=◌
pub >>=-eq-ok {ℓ κ} :
    {Value : Type ℓ} {Next : Type κ} (first : Result Value) (next : Value → Result Next)
    {last : Next}
    → (first >>= next) ≡ ok last
    → (value : Value) × (first ≡ ok value) × (next value ≡ ok last)
>>=-eq-ok (err causes) next h = cc
>>=-eq-ok (ok value) next h = (value, refl, h)

pub is-append : (d e : Error) (t : Cause) → is (d ++ e) t ≡ (is d t || is e t)
unfolding is
is-append [] e t = refl
is-append (c ∷ d) e t = ground (arith, is-append d e t)

pub Error-cases : (e : Error) → (e ≡ []) ⊎ ((c : Cause) × (cs : Error) × (e ≡ c ∷ cs))
Error-cases [] = inl refl
Error-cases (c ∷ cs) = inr (c, cs, refl)

-- A result whose error is not nil.
abbrev pub proper {ℓ} : {Value : Type ℓ} → Result Value → Bool
proper (err causes) = not (is_nil causes)
proper (ok value) = true

pub >>=-proper {ℓ κ} :
    {Value : Type ℓ} {Next : Type κ} (first : Result Value) (next : Value → Result Next)
    → proper first ≡ true
    → ((value : Value) → proper (next value) ≡ true)
    → proper (first >>= next) ≡ true
>>=-proper (err causes) next h k = h
>>=-proper (ok value) next h k = k value

pub Result-cases {ℓ} :
    {Value : Type ℓ} (r : Result Value)
    → ((value : Value) × (r ≡ ok value)) ⊎ ((causes : Error) × (r ≡ err causes))
Result-cases (ok value) = inl (value, refl)
Result-cases (err causes) = inr (causes, refl)

pub ok-injective : {Value : Type 0} {a b : Value} → ok a ≡ ok b → a ≡ b
ok-injective h = cc

-- What stands behind a guard that returns an error.
pub if_false-ok {ℓ} :
    {A : Type ℓ} (b : Bool) (e : Error) {r : Result A} {v : A}
    → (if b then err e else r) ≡ ok v
    → r ≡ ok v
if_false-ok true e h = cc
if_false-ok false e h = h

pub if_err-false {ℓ} :
    {A : Type ℓ} (b : Bool) (e : Error) (r : Result A) {v : A}
    → (if b then err e else r) ≡ ok v
    → b ≡ false
if_err-false true e r h = cc
if_err-false false e r h = refl

-- What stands behind a result matters only for the value that it has.
pub >>=-cong {ℓ κ} :
    {Value : Type ℓ} {Next : Type κ} (first : Result Value) (next other_next : Value → Result Next)
    → ((value : Value) → first ≡ ok value → next value ≡ other_next value)
    → (first >>= next) ≡ (first >>= other_next)
>>=-cong (err causes) next other_next k = refl
>>=-cong (ok value) next other_next k = k value refl

-- `errors.Join(class, err)` of an error.
abbrev pub joined {ℓ} : {Value : Type ℓ} → Cause → Result Value → Result Value
joined class (err causes) = err (class ∷ causes)
joined class (ok value) = ok value

pub is_nil-nil : (e : Error) → is_nil e ≡ true → e ≡ []
is_nil-nil [] h = refl
is_nil-nil (c ∷ cs) h = absurd (ground arith)

pub joined-ok {ℓ} :
    {Value : Type ℓ} (class : Cause) (r : Result Value) {v : Value}
    → joined class r ≡ ok v
    → r ≡ ok v
joined-ok class (err causes) h = cc
joined-ok class (ok value) h = h
