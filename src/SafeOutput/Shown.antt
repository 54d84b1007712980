-- ===== src/SafeOutput/Shown.antt =====
-- The reference of internal/safeoutput shows nothing that `safe` refuses.
use verify.Prelude.{
  All, Bool, Bool-cases, [], ap, arith, false, inl, inr, refl, sym, true, ℕ, ◌++◌, ◌<◌, ◌∙◌, ◌∷◌,
  ◌≡◌, ◌≢◌, ◌⊎◌, append_assoc, subst, suc, take, take-cons, zero, ◌-◌, ◌≤◌, All-take, ◌&&◌, ◌||◌,
}
use verify.Text.{Bytes, has_prefix, has_prefix-cons, cons-has_prefix, codes}
use verify.Text.Utf8.{Unicode}
use verify.SafeOutput.{
  CharacterKind, classify, escaped_byte, is_unsafe, workflow_command, escaped_bytes, is_line_feed,
  next_line_whitespace, safe_from,
}
use verify.SafeOutput.Safety.{
  IsByte, safe_from-escaped_byte, safe_from-escaped_bytes, safe_from-kept,
}
use verify.SafeOutput.Escape.{
  escape_from, escape_from_command, behind, classify_ascii, classify_some, escape_from_escaped,
  escape_from_kept, escape_from_nil, escape_from_skip,
}

-- A byte of a prefix that a workflow command begins with.
abbrev IsMark : ℕ → Type 0
IsMark c = (c < 0x80) × (c ≢ b'\\') × (c ≢ b'\n')

-- What is kept is not unsafe, and nothing but a line feed is added at the end.
pub record IsPolicy (keep : CharacterKind → ℕ → Bool) (tail : Bool → Bytes) : Type 0 where
  pub kept : (k : CharacterKind) (x : ℕ) → keep k x ≡ true → is_unsafe k ≡ false
  pub ends : (last : Bool) → (tail last ≡ []) ⊎ (tail last ≡ b'\n' ∷ [])

module _ (u : Unicode) (keep : CharacterKind → ℕ → Bool) (tail : Bool → Bytes)
    (policy : IsPolicy keep tail) where
  escaped-has_prefix :
      (x : ℕ) (t rest : Bytes) (c : ℕ) (p : Bytes)
      → IsMark c
      → has_prefix (escaped_byte x ++ (t ++ rest)) (c ∷ p) ≡ true
      → ⊥
  unfolding escaped_byte has_prefix
  escaped-has_prefix x t rest c p m h = ground arith

  tail-has_prefix :
      (c : ℕ) (p : Bytes) (last : Bool) → IsMark c → has_prefix (tail last) (c ∷ p) ≡ true → ⊥
  tail-has_prefix c p last m h = elim (policy.ends last) [
    | inl e ↦ unfold has_prefix in cc (ap (λ t. has_prefix t (c ∷ p)) (sym e) ∙ h)
    | inr e ↦
        m.2 (sym (has_prefix-cons b'\n' [] c p (ap (λ t. has_prefix t (c ∷ p)) (sym e) ∙ h)).0)
  ]

  escaped_bytes-has_prefix :
      (x : ℕ) (xs rest : Bytes) (n c : ℕ) (p : Bytes)
      → 1 ≤ n
      → IsMark c
      → has_prefix (escaped_bytes (take n (x ∷ xs)) ++ rest) (c ∷ p) ≡ true
      → ⊥
  unfolding escaped_bytes
  escaped_bytes-has_prefix x xs rest zero c p s m h = elim s [ ]
  escaped_bytes-has_prefix x xs rest (suc n) c p s m h =
      escaped-has_prefix x (escaped_bytes (take n xs)) rest c p m (
        ap (λ t. has_prefix t (c ∷ p))
          (sym (append_assoc (escaped_byte x) (escaped_bytes (take n xs)) rest))
        ∙ h)

  -- A text that begins with marks was so before it was escaped.
  escape_from-has_prefix :
      (p xs : Bytes) (lw last : Bool)
      → All IsMark p
      → has_prefix (escape_from u keep tail 0 lw last xs) p ≡ true
      → has_prefix xs p ≡ true
  escape_from-has_prefix [] xs lw last m h = unfold has_prefix in refl
  escape_from-has_prefix (c ∷ p) [] lw last m h =
      absurd (tail-has_prefix c p last m.0 (unfold escape_from in h))
  escape_from-has_prefix (c ∷ p) (x ∷ xs) lw last m h =
      let at = λ (t : Bytes). has_prefix t (c ∷ p) in
      let (kind, n) = classify u (x ∷ xs) in
      elim (Bool-cases (workflow_command (x ∷ xs) lw)) [
        | inl command ↦ absurd (
            escaped-has_prefix x [] _ c p m.0
              (ap at (sym (escape_from_command u keep tail lw last x xs command)) ∙ h))
        | inr plain ↦ elim (Bool-cases (keep kind x)) [
          | inl kept ↦
              let b = behind u keep tail lw last x xs in
              let (same, rest) = has_prefix-cons x (take (n - 1) xs ++ b) c p (
                ap (λ t. at (t ++ b)) (sym (take-cons n x xs (classify_some u x xs)))
                ∙ ap at (sym (escape_from_kept u keep tail lw last x xs plain kept))
                ∙ h) in
              let one : n - 1 ≡ 0 =
                omega (arith, same, m.0.0, classify_ascii u x xs (rw same m.0.0)) in
              let next = next_line_whitespace u lw kind (take n (x ∷ xs)) in
              cons-has_prefix x xs c p same (
                escape_from-has_prefix p xs next (is_line_feed kind) m.1 (
                  subst
                    (λ k.
                      has_prefix
                        (take k xs ++ escape_from u keep tail k next (is_line_feed kind) xs) p
                      ≡ true)
                    one rest))
          | inr changed ↦ absurd (
              escaped_bytes-has_prefix x xs _ n c p (classify_some u x xs) m.0
                (ap at (sym (escape_from_escaped u keep tail lw last x xs plain changed)) ∙ h))
        ]
      ]

  command-parts :
      (v : Bytes) (lw : Bool)
      → workflow_command v lw ≡ (
          lw && has_prefix v (codes "::")
          || has_prefix v (codes "##vso[")
          || has_prefix v (codes "##["))
  command-parts v lw = unfold workflow_command in refl

  command-either :
      (l l' p p' q q' r r' : Bool)
      → (l' ≡ true → l ≡ true)
      → (p' ≡ true → p ≡ true)
      → (q' ≡ true → q ≡ true)
      → (r' ≡ true → r ≡ true)
      → (l && p || q || r) ≡ false
      → (l' && p' || q' || r') ≡ false
  command-either l l' p p' q q' r r' a b c d h = ground arith

  -- A command in the text shown was one in the text given.
  command-shown :
      (v : Bytes) (lw lw' last : Bool)
      → (lw' ≡ true → lw ≡ true)
      → workflow_command v lw ≡ false
      → workflow_command (escape_from u keep tail 0 lw last v) lw' ≡ false
  command-shown v lw lw' last imp c =
      command-parts _ lw'
      ∙ command-either lw lw' _ _ _ _ _ _ imp
          (escape_from-has_prefix (codes "::") v lw last (ground arith))
          (escape_from-has_prefix (codes "##vso[") v lw last (ground arith))
          (escape_from-has_prefix (codes "##[") v lw last (ground arith))
          (sym (command-parts v lw) ∙ c)

  next_mono :
      (lw lw' : Bool) (kind : CharacterKind) (v : Bytes)
      → (lw' ≡ true → lw ≡ true)
      → next_line_whitespace u lw' kind v ≡ true
      → next_line_whitespace u lw kind v ≡ true
  unfolding next_line_whitespace
  next_mono lw lw' kind v imp h = ground arith

  safe_from-tail : (lw last : Bool) → safe_from u 0 lw (tail last) ≡ true
  safe_from-tail lw last = elim (policy.ends last) [
    | inl e ↦ rw e (unfold safe_from in refl)
    | inr e ↦ rw e (unfold safe_from workflow_command classify in ground arith)
  ]

  pub safe_from-escape_from :
      (v : Bytes) (k : ℕ) (lw lw' last : Bool)
      → All IsByte v
      → (lw' ≡ true → lw ≡ true)
      → safe_from u 0 lw' (escape_from u keep tail k lw last v) ≡ true
  safe_from-escape_from [] k lw lw' last b imp =
      ap (safe_from u 0 lw') (escape_from_nil u keep tail k lw last) ∙ safe_from-tail lw' last
  safe_from-escape_from (x ∷ xs) (suc k) lw lw' last b imp =
      ap (safe_from u 0 lw') (escape_from_skip u keep tail k lw last x xs)
      ∙ safe_from-escape_from xs k lw lw' last b.1 imp
  safe_from-escape_from (x ∷ xs) zero lw lw' last b imp =
      let (kind, n) = classify u (x ∷ xs) in
      let next = next_line_whitespace u lw kind (take n (x ∷ xs)) in
      let next' = next_line_whitespace u lw' kind (take n (x ∷ xs)) in
      let shown = safe_from u 0 lw' in
      elim (Bool-cases (workflow_command (x ∷ xs) lw)) [
        | inl command ↦
            ap shown (escape_from_command u keep tail lw last x xs command)
            ∙ safe_from-escaped_byte u lw' x _ b.0
            ∙ safe_from-escape_from xs 0 false false false b.1 (λ h. h)
        | inr plain ↦ elim (Bool-cases (keep kind x)) [
          | inl kept ↦
              let e = escape_from_kept u keep tail lw last x xs plain kept in
              ap shown e
              ∙ safe_from-kept u lw' x xs _
                  (ap (λ t. workflow_command t lw') (sym e)
                    ∙ command-shown (x ∷ xs) lw lw' last imp plain)
                  (policy.kept kind x kept)
              ∙ safe_from-escape_from xs (n - 1) next next' (is_line_feed kind) b.1
                  (next_mono lw lw' kind (take n (x ∷ xs)) imp)
          | inr changed ↦
              let some_byte = take-cons n x xs (classify_some u x xs) in
              ap shown (escape_from_escaped u keep tail lw last x xs plain changed)
              ∙ ap (λ t. shown (escaped_bytes t ++ behind u keep tail lw last x xs)) some_byte
              ∙ safe_from-escaped_bytes u lw' x (take (n - 1) xs) _
                  (b.0, All-take IsByte (n - 1) xs b.1)
              ∙ safe_from-escape_from xs (n - 1) next false (is_line_feed kind) b.1
                  (λ h. absurd (cc h))
        ]
      ]
