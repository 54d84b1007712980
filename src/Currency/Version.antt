-- ===== src/Currency/Version.antt =====
-- goverify/workflow_currency.go: the versions of actions. A version is the list of its components;
-- the source keeps the value and where each component ends.
pub mod Parse
pub mod Numbers
pub mod Order
use verify.Prelude.{
  Bool, List, Option, [], all, false, if◌then◌else◌, leb, length, ltb, negsuc, none, not, pos, some,
  suc, zero, ℕ, ℤ, ◌&&◌, ◌++◌, ◌+◌, ◌-◌, ◌==◌, ◌||◌, ◌∷◌,
}
use verify.Text.{Bytes, codes}
use verify.Decimal.{badly_led, is_digit}

-- `actionVersionComponents`
abbrev pub action_version_components : ℕ
action_version_components = 3

pub record ActionVersion : Type 0 where
  pub value : Bytes
  pub components : List Bytes

-- The zero value of an `actionVersion`.
abbrev pub no_version : ActionVersion
no_version = record { value = []; components = [] }

-- `validActionVersionComponent`
unfoldable pub valid_action_version_component : Bytes → Bool
valid_action_version_component value = not (badly_led value) && all is_digit value

abbrev pub before : Bytes → Option (List Bytes) → Option (List Bytes)
before part none = none
before part (some parts) = some (part ∷ parts)

abbrev pub versioned : Bytes → Option (List Bytes) → Option ActionVersion
versioned value none = none
versioned value (some parts) = some (record { value = value; components = parts })

-- The loop of `parseActionVersion`, from the number of components read, and the bytes of the component
-- that is being read.
pub version_from : ℕ → Bytes → Bytes → Option (List Bytes)
unfolding valid_action_version_component
version_from component part [] =
    if component == action_version_components || not (valid_action_version_component part)
    then none
    else some (part ∷ [])
version_from component part (c ∷ cs) =
    let inside = version_from component (part ++ c ∷ []) cs in
    let behind = before part (version_from (component + 1) [] cs) in
    if not (c == b'.')
    then inside
    else if component == action_version_components || not (valid_action_version_component part)
    then none
    else behind

-- `parseActionVersion`
unfoldable pub parse_action_version : Bytes → Option ActionVersion
unfolding version_from
parse_action_version [] = none
parse_action_version (c ∷ []) = none
parse_action_version (c ∷ d ∷ cs) =
    if not (c == b'v') then none else versioned (c ∷ d ∷ cs) (version_from 0 [] (d ∷ cs))

-- `component`: an absent one is "0".
unfoldable pub component : List Bytes → ℕ → Bytes
component [] index = codes "0"
component (part ∷ parts) zero = part
component (part ∷ parts) (suc index) = component parts index

-- The difference of two lengths.
abbrev pub difference : ℕ → ℕ → ℤ
difference a b = if leb b a then pos (a - b) else negsuc (b - a - 1)

-- `strings.Compare`
unfoldable pub compare_bytes : Bytes → Bytes → ℤ
compare_bytes [] [] = pos 0
compare_bytes [] (y ∷ ys) = negsuc 0
compare_bytes (x ∷ xs) [] = pos 1
compare_bytes (x ∷ xs) (y ∷ ys) =
    let rest = compare_bytes xs ys in if ltb x y then negsuc 0 else if ltb y x then pos 1 else rest

-- `compareVersionComponent`
unfoldable pub compare_version_component : Bytes → Bytes → ℤ
unfolding compare_bytes
compare_version_component left right =
    if not (length left == length right)
    then difference (length left) (length right)
    else compare_bytes left right

abbrev pub is_zero : ℤ → Bool
is_zero (pos n) = n == 0
is_zero (negsuc n) = false

abbrev pub is_positive : ℤ → Bool
is_positive (pos n) = ltb 0 n
is_positive (negsuc n) = false

-- The first comparison that is not 0, or 0.
abbrev pub first_nonzero : ℤ → ℤ → ℤ
first_nonzero compared rest = if not (is_zero compared) then compared else rest

abbrev pub compare_at : ActionVersion → ActionVersion → ℕ → ℤ
compare_at left right index =
    compare_version_component (component left.components index) (component right.components index)

-- `compareActionVersion`, with its loop written out.
unfoldable pub compare_action_version : ActionVersion → ActionVersion → ℤ
unfolding compare_version_component component
compare_action_version left right =
    first_nonzero (compare_at left right 0)
      (first_nonzero (compare_at left right 1) (first_nonzero (compare_at left right 2) (pos 0)))
