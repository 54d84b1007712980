-- ===== src/Text/Utf8.antt =====
-- The `unicode/utf8` decoder, and the Unicode tables as a parameter.
pub mod Laws
use verify.Prelude.{
  Bool, List, [], if◌then◌else◌, leb, ltb, not, suc, true, zero, ℕ, ◌&&◌, ◌*◌, ◌+◌, ◌-◌, ◌==◌, ◌||◌,
  ◌∷◌, ◌≡◌, ◌≤◌,
}

-- `utf8.RuneError`
abbrev pub rune_error : ℕ
rune_error = 0xfffd

abbrev pub within : ℕ → ℕ → ℕ → Bool
within lo hi c = leb lo c && leb c hi

abbrev pub failed : ℕ × ℕ
failed = (rune_error, 1)

-- A second byte in its range, then none, one or two continuation bytes.
pub decode_two : ℕ → List ℕ → ℕ × ℕ
decode_two b0 (b1 ∷ rest) =
    if within 0x80 0xbf b1 then ((b0 - 0xc0) * 64 + (b1 - 0x80), 2) else failed
decode_two b0 [] = failed

pub decode_three : ℕ → ℕ → ℕ → List ℕ → ℕ × ℕ
decode_three lo hi b0 (b1 ∷ b2 ∷ rest) =
    if within lo hi b1 && within 0x80 0xbf b2
    then ((b0 - 0xe0) * 4096 + (b1 - 0x80) * 64 + (b2 - 0x80), 3)
    else failed
decode_three lo hi b0 _ = failed

pub decode_four : ℕ → ℕ → ℕ → List ℕ → ℕ × ℕ
decode_four lo hi b0 (b1 ∷ b2 ∷ b3 ∷ rest) =
    if within lo hi b1 && within 0x80 0xbf b2 && within 0x80 0xbf b3
    then ((b0 - 0xf0) * 262144 + (b1 - 0x80) * 4096 + (b2 - 0x80) * 64 + (b3 - 0x80), 4)
    else failed
decode_four lo hi b0 _ = failed

-- The decoder that a first byte selects, for the bytes behind it.
pub lead : ℕ → List ℕ → ℕ × ℕ
unfolding decode_two decode_three decode_four
lead b0 =
    if ltb b0 0x80
    then (λ _. (b0, 1))
    else if within 0xc2 0xdf b0
    then decode_two b0
    else if b0 == 0xe0
    then decode_three 0xa0 0xbf b0
    else if b0 == 0xed
    then decode_three 0x80 0x9f b0
    else if within 0xe1 0xef b0
    then decode_three 0x80 0xbf b0
    else if b0 == 0xf0
    then decode_four 0x90 0xbf b0
    else if b0 == 0xf4
    then decode_four 0x80 0x8f b0
    else if within 0xf1 0xf3 b0
    then decode_four 0x80 0xbf b0
    else (λ _. failed)

-- `utf8.DecodeRune`: the rune and its size; `(rune_error, 1)` for an invalid encoding.
unfoldable pub decode_rune : List ℕ → ℕ × ℕ
unfolding lead
decode_rune [] = (rune_error, 0)
decode_rune (b0 ∷ rest) = lead b0 rest

abbrev pub invalid : ℕ × ℕ → Bool
invalid (rune, size) = rune == rune_error && size == 1

-- The runes of a `range` loop over a string, from a byte that `skip` bytes precede.
pub runes_from : ℕ → List ℕ → List (ℕ × ℕ)
runes_from skip [] = []
runes_from (suc k) (x ∷ xs) = runes_from k xs
runes_from zero (x ∷ xs) =
    let d = decode_rune (x ∷ xs) in let rest = runes_from (d.1 - 1) xs in d ∷ rest

-- Each rune of a string with its size in bytes, an invalid byte as `(rune_error, 1)`.
unfoldable pub runes : List ℕ → List (ℕ × ℕ)
unfolding runes_from decode_rune
runes = runes_from 0

pub valid_runes : List (ℕ × ℕ) → Bool
valid_runes [] = true
valid_runes (d ∷ ds) = not (invalid d) && valid_runes ds

-- `utf8.ValidString`
unfoldable pub valid_string : List ℕ → Bool
unfolding runes valid_runes
valid_string value = valid_runes (runes value)

-- `strconv.IsPrint`, `unicode.IsSpace`, `unicode.IsLower`: tables of the Go release, with what is
-- documented of their ASCII part.
pub record Unicode : Type 0 where
  pub is_print : ℕ → Bool
  pub is_space : ℕ → Bool
  pub is_lower : ℕ → Bool
  pub is_print_ascii : (c : ℕ) → c ≤ 127 → is_print c ≡ (leb 32 c && leb c 126)
  pub is_space_ascii : (c : ℕ) → c ≤ 127 → is_space c ≡ (within 9 13 c || c == 32)
  pub is_lower_ascii : (c : ℕ) → c ≤ 127 → is_lower c ≡ within 97 122 c
