-- ===== src/Text.antt =====
-- Go's byte strings: a `string` or `[]byte` is the list of its bytes. The functions of the `bytes`
-- and `strings` packages that the source calls, with `none` for an index of -1.
pub mod Utf8
use Prim.Native.Char.{code}
use Prim.Native.String.{String}
use verify.Prelude.{
  Bool, List, Option, [], arith, false, if◌then◌else◌, none, refl, some, true, ℕ, ◌&&◌, ◌++◌, ◌==◌,
  ◌↔◌, ◌∷◌, ◌≡◌,
}

abbrev pub Bytes : Type 0
Bytes = List ℕ

-- The bytes of an ASCII literal.
abbrev pub codes : String → Bytes
codes String.[] = []
codes (String.◌∷◌ c s) = code c ∷ codes s

-- `bytes.Equal`, and `==` on strings.
unfoldable pub equal : Bytes → Bytes → Bool
equal [] other = elim other [ [] ↦ true | _ ∷ _ ↦ false ]
equal (x ∷ xs) other = elim other [ [] ↦ false | y ∷ ys ↦ x == y && equal xs ys ]

-- `bytes.HasPrefix(value, prefix)`
unfoldable pub has_prefix : Bytes → Bytes → Bool
has_prefix value [] = true
has_prefix [] (p ∷ ps) = false
has_prefix (x ∷ xs) (p ∷ ps) = x == p && has_prefix xs ps

-- `strings.CutPrefix(value, prefix)`
unfoldable pub cut_prefix : Bytes → Bytes → Option Bytes
cut_prefix value [] = some value
cut_prefix [] (p ∷ ps) = none
cut_prefix (x ∷ xs) (p ∷ ps) = let rest = cut_prefix xs ps in if x == p then rest else none

-- `strings.TrimPrefix(value, prefix)`
unfoldable pub trim_prefix : Bytes → Bytes → Bytes
trim_prefix value prefix = elim (cut_prefix value prefix) [ none ↦ value | some rest ↦ rest ]

abbrev pub onto : ℕ → Option (Bytes × Bytes) → Option (Bytes × Bytes)
onto x none = none
onto x (some (before, after)) = some (x ∷ before, after)

-- `bytes.Cut(value, separator)`, at the first separator.
unfoldable pub cut : Bytes → Bytes → Option (Bytes × Bytes)
cut [] separator = elim (cut_prefix [] separator) [ none ↦ none | some rest ↦ some ([], rest) ]
cut (x ∷ xs) separator = elim (cut_prefix (x ∷ xs) separator) [
  | none ↦ onto x (cut xs separator)
  | some rest ↦ some ([], rest)
]

-- The two sides of the first byte `c`: `bytes.IndexByte` with the slices around it.
unfoldable pub cut_byte : Bytes → ℕ → Option (Bytes × Bytes)
cut_byte [] c = none
cut_byte (x ∷ xs) c = let rest = onto x (cut_byte xs c) in if x == c then some ([], xs) else rest

-- The two sides of the last byte `c`: `bytes.LastIndexByte` with the slices around it.
unfoldable pub cut_last : Bytes → ℕ → Option (Bytes × Bytes)
cut_last [] c = none
cut_last (x ∷ xs) c = elim (cut_last xs c) [
  | some (before, after) ↦ some (x ∷ before, after)
  | none ↦ if x == c then some ([], xs) else none
]

pub equal_iff : (value other : Bytes) → (equal value other ≡ true) ↔ (value ≡ other)
unfolding equal
equal_iff [] [] = ground arith
equal_iff [] (y ∷ ys) = ground arith
equal_iff (x ∷ xs) [] = ground arith
equal_iff (x ∷ xs) (y ∷ ys) = ground (arith, equal_iff xs ys)

pub equal_refl : (a : Bytes) → equal a a ≡ true
equal_refl a = (equal_iff a a).1 refl

pub cut_byte-append :
    (v : Bytes) (c : ℕ) {b a : Bytes} → cut_byte v c ≡ some (b, a) → v ≡ b ++ c ∷ a
unfolding cut_byte
cut_byte-append [] c h = ground arith
cut_byte-append (x ∷ xs) c {b = []} h = ground (arith, cut_byte-append xs c)
cut_byte-append (x ∷ xs) c {b = y ∷ b} {a} h = ground (arith, cut_byte-append xs c {b = b} {a = a})

pub cut_last-append :
    (v : Bytes) (c : ℕ) {b a : Bytes} → cut_last v c ≡ some (b, a) → v ≡ b ++ c ∷ a
unfolding cut_last
cut_last-append [] c h = ground arith
cut_last-append (x ∷ xs) c {b = []} h = ground (arith, cut_last-append xs c)
cut_last-append (x ∷ xs) c {b = y ∷ b} {a} h = ground (arith, cut_last-append xs c {b = b} {a = a})

pub has_prefix-cons :
    (x : ℕ) (xs : Bytes) (c : ℕ) (p : Bytes)
    → has_prefix (x ∷ xs) (c ∷ p) ≡ true
    → (x ≡ c) × (has_prefix xs p ≡ true)
unfolding has_prefix
has_prefix-cons x xs c p h = ground arith

pub cons-has_prefix :
    (x : ℕ) (xs : Bytes) (c : ℕ) (p : Bytes)
    → x ≡ c
    → has_prefix xs p ≡ true
    → has_prefix (x ∷ xs) (c ∷ p) ≡ true
unfolding has_prefix
cons-has_prefix x xs c p e h = ground arith

-- `strings.Split(value, c)` and `strings.SplitSeq`, by the byte `c`: never the empty list.
abbrev pub onto_first : ℕ → List Bytes → List Bytes
onto_first x [] = (x ∷ []) ∷ []
onto_first x (part ∷ parts) = (x ∷ part) ∷ parts

unfoldable pub split_byte : Bytes → ℕ → List Bytes
split_byte [] c = [] ∷ []
split_byte (x ∷ xs) c =
    let parts = split_byte xs c in if x == c then [] ∷ parts else onto_first x parts

-- `strings.CutSuffix(value, suffix)`
unfoldable pub cut_suffix : Bytes → Bytes → Option Bytes
unfolding equal
cut_suffix [] suffix = if equal [] suffix then some [] else none
cut_suffix (x ∷ xs) suffix =
    let rest = cut_suffix xs suffix in
    if equal (x ∷ xs) suffix
    then some []
    else elim rest [ none ↦ none | some before ↦ some (x ∷ before) ]
