-- ===== src/Currency/Tags/Rank.antt =====
-- goverify/workflow_currency.go: the order of tags, by the numbers of their versions and by how many
-- components those have.
use verify.Prelude.{Bool, [], arith, false, length, ltb, true, ℕ, ◌&&◌, ◌==◌, ◌||◌, ◌∷◌, ◌≡◌, ◌⊎◌}
use verify.Currency.Version.Order.{IsNumeric, newer, number_at, same_numbers}
use verify.Currency.Tags.{ActionTag, Tags}
use verify.Text.{Bytes, equal}

-- A tag comes before another when its version is newer, or written with more components.
abbrev pub outranks : ActionTag → ActionTag → Bool
outranks a b =
    newer a.version b.version
    || same_numbers a.version b.version
      && ltb (length b.version.components) (length a.version.components)

-- A quadruple of numbers is above another.
abbrev pub above : ℕ → ℕ → ℕ → ℕ → ℕ → ℕ → ℕ → ℕ → Bool
above a0 a1 a2 a3 b0 b1 b2 b3 =
    (ltb b0 a0 || a0 == b0 && (ltb b1 a1 || a1 == b1 && ltb b2 a2))
    || (a0 == b0 && a1 == b1 && a2 == b2) && ltb b3 a3

pub above_trans :
    (a0 a1 a2 a3 b0 b1 b2 b3 c0 c1 c2 c3 : ℕ)
    → above a0 a1 a2 a3 b0 b1 b2 b3 ≡ false
    → above b0 b1 b2 b3 c0 c1 c2 c3 ≡ false
    → above a0 a1 a2 a3 c0 c1 c2 c3 ≡ false
above_trans a0 a1 a2 a3 b0 b1 b2 b3 c0 c1 c2 c3 h k = ground arith

pub above_asym :
    (a0 a1 a2 a3 b0 b1 b2 b3 : ℕ)
    → above a0 a1 a2 a3 b0 b1 b2 b3 ≡ true
    → above b0 b1 b2 b3 a0 a1 a2 a3 ≡ false
above_asym a0 a1 a2 a3 b0 b1 b2 b3 h = ground arith

pub above_equal :
    (a0 a1 a2 a3 b0 b1 b2 b3 : ℕ)
    → above a0 a1 a2 a3 b0 b1 b2 b3 ≡ false
    → above b0 b1 b2 b3 a0 a1 a2 a3 ≡ false
    → (a0 ≡ b0) × (a1 ≡ b1) × (a2 ≡ b2) × (a3 ≡ b3)
above_equal a0 a1 a2 a3 b0 b1 b2 b3 h k = ground arith

pub outranks_trans :
    (a b c : ActionTag) → outranks a b ≡ false → outranks b c ≡ false → outranks a c ≡ false
outranks_trans a b c h k =
    above_trans (number_at a.version 0) (number_at a.version 1) (number_at a.version 2)
      (length a.version.components) (number_at b.version 0) (number_at b.version 1)
      (number_at b.version 2) (length b.version.components) (number_at c.version 0)
      (number_at c.version 1) (number_at c.version 2) (length c.version.components) h k

pub outranks_asym : (a b : ActionTag) → outranks a b ≡ true → outranks b a ≡ false
outranks_asym a b h =
    above_asym (number_at a.version 0) (number_at a.version 1) (number_at a.version 2)
      (length a.version.components) (number_at b.version 0) (number_at b.version 1)
      (number_at b.version 2) (length b.version.components) h

pub outranks_self : (a : ActionTag) → outranks a a ≡ false
outranks_self a = ground arith

-- An entry of the map.
abbrev pub In : Bytes × ActionTag → Tags → Type 0
In entry [] = ⊥
In entry (first ∷ tags) = (entry ≡ first) ⊎ In entry tags

-- Tags with a name, and a version that has been read.
abbrev pub IsNamed : Bytes × ActionTag → Type 0
IsNamed (name, tag) = (equal name [] ≡ false) × IsNumeric tag.version
