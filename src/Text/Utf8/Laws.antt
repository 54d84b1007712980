-- ===== src/Text/Utf8/Laws.antt =====
-- What the decoder reads: sizes, continuation bytes, and independence of what follows.
use verify.Prelude.{
  All, List, [], arith, false, length, take, ℕ, ◌++◌, ◌-◌, ◌∷◌, ◌≡◌, ◌≤◌, if_elim, ltb, refl, ◌<◌,
  ◌==◌,
}
use verify.Text.Utf8.{
  decode_four, decode_rune, decode_three, decode_two, invalid, failed, lead, within,
}

-- A byte that is not ASCII.
abbrev pub IsHigh : ℕ → Type 0
IsHigh b = 0x80 ≤ b

-- `size` bytes are there, at least one, and none of them is ASCII.
pub record Spans (size : ℕ) (v : List ℕ) : Type 0 where
  pub some_byte : 1 ≤ size
  pub there : size ≤ length v
  pub high : All IsHigh (take size v)

decode_two-Spans : (b : ℕ) (xs : List ℕ) → IsHigh b → Spans (decode_two b xs).1 (b ∷ xs)
unfolding decode_two
decode_two-Spans b [] h = ground arith
decode_two-Spans b (c ∷ xs) h = ground arith

decode_three-Spans :
    (lo hi b : ℕ) (xs : List ℕ) → 0x80 ≤ lo → IsHigh b → Spans (decode_three lo hi b xs).1 (b ∷ xs)
unfolding decode_three
decode_three-Spans lo hi b (c ∷ d ∷ xs) l h = ground arith
decode_three-Spans lo hi b _ l h = ground arith

decode_four-Spans :
    (lo hi b : ℕ) (xs : List ℕ) → 0x80 ≤ lo → IsHigh b → Spans (decode_four lo hi b xs).1 (b ∷ xs)
unfolding decode_four
decode_four-Spans lo hi b (c ∷ d ∷ e ∷ xs) l h = ground arith
decode_four-Spans lo hi b _ l h = ground arith

-- A statement of every decoder that a first byte selects.
module _ (P : (List ℕ → ℕ × ℕ) → Type 0) (b : ℕ) where
  lead-cases :
      (b < 0x80 → P (λ _. (b, 1)))
      → (IsHigh b → P (decode_two b))
      → ((lo hi : ℕ) → 0x80 ≤ lo → IsHigh b → P (decode_three lo hi b))
      → ((lo hi : ℕ) → 0x80 ≤ lo → IsHigh b → P (decode_four lo hi b))
      → P (λ _. failed)
      → P (lead b)
  lead-cases ascii two three four bad =
      unfold lead in
      if_elim P (ltb b 0x80) (λ h. ascii (ground arith))
        (λ h.
          let high : IsHigh b = ground arith in
          if_elim P (within 0xc2 0xdf b) (λ _. two high)
            (λ _.
              if_elim P (b == 0xe0) (λ _. three 0xa0 0xbf (omega arith) high)
                (λ _.
                  if_elim P (b == 0xed) (λ _. three 0x80 0x9f (omega arith) high)
                    (λ _.
                      if_elim P (within 0xe1 0xef b) (λ _. three 0x80 0xbf (omega arith) high)
                        (λ _.
                          if_elim P (b == 0xf0) (λ _. four 0x90 0xbf (omega arith) high)
                            (λ _.
                              if_elim P (b == 0xf4) (λ _. four 0x80 0x8f (omega arith) high)
                                (λ _.
                                  if_elim P (within 0xf1 0xf3 b)
                                    (λ _. four 0x80 0xbf (omega arith) high) (λ _. bad))))))))

pub decode_rune-Spans : (b : ℕ) (xs : List ℕ) → IsHigh b → Spans (decode_rune (b ∷ xs)).1 (b ∷ xs)
decode_rune-Spans b xs h =
    unfold decode_rune in
    lead-cases (λ f. Spans (f xs).1 (b ∷ xs)) b (λ l. absurd (omega arith)) (decode_two-Spans b xs)
      (λ lo hi. decode_three-Spans lo hi b xs) (λ lo hi. decode_four-Spans lo hi b xs)
      (ground arith)

-- A valid encoding is read alike, whatever bytes follow it.
abbrev IsStable : List ℕ → (List ℕ → ℕ × ℕ) → Type 0
IsStable xs f = invalid (f xs) ≡ false → (rest : List ℕ) → f (take ((f xs).1 - 1) xs ++ rest) ≡ f xs

decode_two-IsStable : (b : ℕ) (xs : List ℕ) → IsStable xs (decode_two b)
unfolding decode_two
decode_two-IsStable b [] v rest = ground arith
decode_two-IsStable b (c ∷ xs) v rest = ground arith

decode_three-IsStable : (lo hi b : ℕ) (xs : List ℕ) → IsStable xs (decode_three lo hi b)
unfolding decode_three
decode_three-IsStable lo hi b (c ∷ d ∷ xs) v rest = ground arith
decode_three-IsStable lo hi b _ v rest = ground arith

decode_four-IsStable : (lo hi b : ℕ) (xs : List ℕ) → IsStable xs (decode_four lo hi b)
unfolding decode_four
decode_four-IsStable lo hi b (c ∷ d ∷ e ∷ xs) v rest = ground arith
decode_four-IsStable lo hi b _ v rest = ground arith

pub decode_rune-stable :
    (b : ℕ) (xs rest : List ℕ)
    → invalid (decode_rune (b ∷ xs)) ≡ false
    → decode_rune (b ∷ (take ((decode_rune (b ∷ xs)).1 - 1) xs ++ rest)) ≡ decode_rune (b ∷ xs)
decode_rune-stable b xs rest v =
    unfold decode_rune in
    lead-cases (IsStable xs) b (λ _ _ _. refl) (λ _. decode_two-IsStable b xs)
      (λ lo hi _ _. decode_three-IsStable lo hi b xs) (λ lo hi _ _. decode_four-IsStable lo hi b xs)
      (λ _ _. refl) v rest

pub decode_rune_ascii : (b : ℕ) (xs : List ℕ) → b < 0x80 → decode_rune (b ∷ xs) ≡ (b, 1)
unfolding decode_rune lead
decode_rune_ascii b xs h = ground arith
