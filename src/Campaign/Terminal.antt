-- ===== src/Campaign/Terminal.antt =====
-- goverify/campaign.go: the search for the terminal line ends, as each line leaves less of the output.
use verify.Prelude.{
  Option-cases, [], ap, arith, inl, inr, length, length-append, refl, suc, zero, ℕ, ◌++◌, ◌<◌, ◌∷◌,
  ◌≡◌, ◌≢◌, ◌≤◌,
}
use verify.Text.{Bytes, cut_last, cut_last-append}
use verify.Campaign.Output.{
  Durations, drop_breaks, keep_or_drop, last_line, previous_output_line, search_from,
}

length-keep_or_drop : (x : ℕ) (xs : Bytes) → length (keep_or_drop x xs) ≤ suc (length xs)
length-keep_or_drop x [] = ground arith
length-keep_or_drop x (y ∷ ys) = omega arith

length-drop_breaks : (v : Bytes) → length (drop_breaks v) ≤ length v
unfolding drop_breaks
length-drop_breaks [] = omega arith
length-drop_breaks (x ∷ v) =
    omega (arith, length-keep_or_drop x (drop_breaks v), length-drop_breaks v)

abbrev tail_of : Bytes → Bytes
tail_of [] = []
tail_of (x ∷ xs) = xs

keep_or_drop-unbroken :
    (x : ℕ) (xs before : Bytes)
    → ((b : Bytes) → xs ≢ b ++ b'\n' ∷ [])
    → keep_or_drop x xs ≢ before ++ b'\n' ∷ []
keep_or_drop-unbroken x [] [] k = λ e. absurd (ground arith)
keep_or_drop-unbroken x [] (c ∷ []) k = λ e. absurd (ground arith)
keep_or_drop-unbroken x [] (c ∷ d ∷ before) k = λ e. absurd (ground arith)
keep_or_drop-unbroken x (y ∷ ys) [] k = λ e. absurd (ground arith)
keep_or_drop-unbroken x (y ∷ ys) (c ∷ before) k = λ e. k before (ap tail_of e)

-- What is left ends in no line break.
drop_breaks-unbroken : (v before : Bytes) → drop_breaks v ≢ before ++ b'\n' ∷ []
unfolding drop_breaks
drop_breaks-unbroken [] [] = λ e. absurd (ground arith)
drop_breaks-unbroken [] (c ∷ before) = λ e. absurd (ground arith)
drop_breaks-unbroken (x ∷ v) before =
    keep_or_drop-unbroken x (drop_breaks v) before (drop_breaks-unbroken v)

shorter :
    (kept before after : Bytes)
    → kept ≡ before ++ b'\n' ∷ after
    → kept ≢ before ++ b'\n' ∷ []
    → length (before ++ b'\n' ∷ []) < length kept
shorter kept before [] e k = absurd (k e)
shorter kept before (c ∷ after) e k =
    rw e
      (omega (arith, length-append before (b'\n' ∷ []), length-append before (b'\n' ∷ c ∷ after)))

last_line-shorter :
    (kept : Bytes) (n : ℕ)
    → length kept ≤ n
    → 1 ≤ n
    → ((before : Bytes) → kept ≢ before ++ b'\n' ∷ [])
    → length (last_line kept).1 < n
unfolding last_line
last_line-shorter kept n le some_byte k = elim (Option-cases (cut_last kept b'\n')) [
  | inl e ↦ let left : (last_line kept).1 ≡ [] = ground arith in rw left (omega arith)
  | inr ((before, after), e) ↦
      let left : (last_line kept).1 ≡ before ++ b'\n' ∷ [] = ground arith in
      let s = shorter kept before after (cut_last-append kept b'\n' e) (k before) in
      rw left (omega (arith, s))
]

previous_output_line-shorter :
    (c : ℕ) (cs : Bytes) → length (previous_output_line (c ∷ cs)).1 < suc (length cs)
unfolding previous_output_line
previous_output_line-shorter c cs =
    last_line-shorter (drop_breaks (c ∷ cs)) (suc (length cs)) (length-drop_breaks (c ∷ cs))
      (omega arith) (drop_breaks-unbroken (c ∷ cs))

-- More fuel than the bytes of the output does not change what the search finds.
pub search_from-stable :
    (parse_duration : Durations) (fuel : ℕ) (output : Bytes)
    → length output ≤ fuel
    → search_from parse_duration fuel output ≡ search_from parse_duration (suc fuel) output
unfolding search_from
search_from-stable parse_duration zero [] le = refl
search_from-stable parse_duration zero (c ∷ cs) le = absurd (omega arith)
search_from-stable parse_duration (suc fuel) [] le = refl
search_from-stable parse_duration (suc fuel) (c ∷ cs) le =
    let found = previous_output_line (c ∷ cs) in
    rw
      (search_from-stable parse_duration fuel found.1
        (omega (arith, previous_output_line-shorter c cs)))
      refl
