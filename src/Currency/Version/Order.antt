-- ===== src/Currency/Version/Order.antt =====
-- goverify/workflow_currency.go: versions are compared as the numbers of their components.
use verify.Prelude.{
  All, Bool, List, [], arith, ltb, pos, refl, suc, true, zero, ℕ, ℤ, ◌&&◌, ◌==◌, ◌||◌, ◌∷◌, ◌≡◌,
}
use verify.Text.{Bytes}
use verify.Currency.Version.{
  ActionVersion, compare_action_version, compare_at, component, first_nonzero, is_positive, is_zero,
  valid_action_version_component,
}
use verify.Currency.Version.Numbers.{Agrees, compare_version_component-Agrees, number}

-- The number of a component of a version; 0 where it is absent.
abbrev pub number_at : ActionVersion → ℕ → ℕ
number_at v i = number (component v.components i)

-- The versions that are read, and the zero value.
abbrev pub IsNumeric : ActionVersion → Type 0
IsNumeric v = All (λ p. valid_action_version_component p ≡ true) v.components

component-valid :
    (parts : List Bytes) (i : ℕ)
    → All (λ p. valid_action_version_component p ≡ true) parts
    → valid_action_version_component (component parts i) ≡ true
unfolding component
component-valid [] i h = unfold valid_action_version_component in refl
component-valid (part ∷ parts) zero h = h.0
component-valid (part ∷ parts) (suc i) h = component-valid parts i h.1

compare_at-Agrees :
    (a b : ActionVersion) (i : ℕ)
    → IsNumeric a
    → IsNumeric b
    → Agrees (compare_at a b i) (number_at a i) (number_at b i)
compare_at-Agrees a b i ha hb =
    compare_version_component-Agrees (component a.components i) (component b.components i)
      (component-valid a.components i ha) (component-valid b.components i hb)

-- The first of three pairs of numbers that differ decides.
abbrev pub newer : ActionVersion → ActionVersion → Bool
newer a b =
    ltb (number_at b 0) (number_at a 0)
    || (number_at a 0 == number_at b 0)
      && (ltb (number_at b 1) (number_at a 1)
          || (number_at a 1 == number_at b 1) && ltb (number_at b 2) (number_at a 2))

abbrev pub same_numbers : ActionVersion → ActionVersion → Bool
same_numbers a b =
    number_at a 0 == number_at b 0
    && number_at a 1 == number_at b 1
    && number_at a 2 == number_at b 2

first_positive :
    (c0 c1 c2 : ℤ) (a0 a1 a2 b0 b1 b2 : ℕ)
    → Agrees c0 a0 b0
    → Agrees c1 a1 b1
    → Agrees c2 a2 b2
    → is_positive (first_nonzero c0 (first_nonzero c1 (first_nonzero c2 (pos 0))))
      ≡ (ltb b0 a0 || (a0 == b0) && (ltb b1 a1 || (a1 == b1) && ltb b2 a2))
first_positive c0 c1 c2 a0 a1 a2 b0 b1 b2 x y z =
    ground (arith, x.positive, x.zero_at, y.positive, y.zero_at, z.positive, z.zero_at)

first_zero :
    (c0 c1 c2 : ℤ) (a0 a1 a2 b0 b1 b2 : ℕ)
    → Agrees c0 a0 b0
    → Agrees c1 a1 b1
    → Agrees c2 a2 b2
    → is_zero (first_nonzero c0 (first_nonzero c1 (first_nonzero c2 (pos 0))))
      ≡ (a0 == b0 && a1 == b1 && a2 == b2)
first_zero c0 c1 c2 a0 a1 a2 b0 b1 b2 x y z =
    ground (arith, x.positive, x.zero_at, y.positive, y.zero_at, z.positive, z.zero_at)

-- `compareActionVersion` orders versions by their numbers, where an absent component counts as 0.
pub compare_action_version-numbers :
    (a b : ActionVersion)
    → IsNumeric a
    → IsNumeric b
    → (is_positive (compare_action_version a b) ≡ newer a b)
      × (is_zero (compare_action_version a b) ≡ same_numbers a b)
unfolding compare_action_version
compare_action_version-numbers a b ha hb =
    let x = compare_at-Agrees a b 0 ha hb in
    let y = compare_at-Agrees a b 1 ha hb in
    let z = compare_at-Agrees a b 2 ha hb in
    (
      first_positive (compare_at a b 0) (compare_at a b 1) (compare_at a b 2) (number_at a 0)
          (number_at a 1) (number_at a 2) (number_at b 0) (number_at b 1) (number_at b 2) x y z,
      first_zero (compare_at a b 0) (compare_at a b 1) (compare_at a b 2) (number_at a 0)
          (number_at a 1) (number_at a 2) (number_at b 0) (number_at b 1) (number_at b 2) x y z,
    )
