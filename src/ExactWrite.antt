-- ===== src/ExactWrite.antt =====
-- internal/exactwrite: a write that is repeated until every byte is taken. The `io.Writer` is a
-- parameter.
pub mod Delivery
use verify.Prelude.{
  [], if◌then◌else◌, length, ltb, suc, take, zero, ℕ, ◌++◌, ◌∷◌, ◌≡◌, ◌≤◌, negsuc, pos, ℤ,
}
use verify.Text.{Bytes}
use verify.Errors.{Error, no_progress, invalid_count}

-- What a call of `Write` returns.
pub record Written : Type 0 where
  pub count : ℤ
  pub error : Error

-- An `io.Writer`: its state, and the bytes that have reached its stream. The law is the documented
-- meaning of the count, where the count is one that `Write` may return.
pub record Writer : Type 1 where
  pub Sink : Type 0
  pub write : Sink → Bytes → Written × Sink
  pub received : Sink → Bytes
  pub write_received :
      (s : Sink) (v : Bytes) (n : ℕ)
      → (write s v).0.count ≡ pos n
      → n ≤ length v
      → received (write s v).1 ≡ received s ++ take n v

-- The branches behind one `Write` of a value of `size` bytes; `more` goes on behind `suc k` bytes.
abbrev pub after {ℓ} : {S : Type ℓ} → ℕ → Written → S → (ℕ → Error × S) → Error × S
after size (r) s more = elim r.count [
  | negsuc _ ↦ (invalid_count ∷ [], s)
  | pos zero ↦ elim r.error [ [] ↦ (no_progress ∷ [], s) | c ∷ cs ↦ (c ∷ cs, s) ]
  | pos (suc k) ↦
      if ltb size (suc k)
      then (invalid_count ∷ [], s)
      else elim r.error [ [] ↦ more k | c ∷ cs ↦ (c ∷ cs, s) ]
]

module _ (w : Writer) where
  open w use {Sink, write, received, write_received}

  -- The loop, behind `skip` bytes that are written already: `value = value[written:]`.
  pub loop : Sink → ℕ → Bytes → Error × Sink
  loop s skip [] = ([], s)
  loop s (suc k) (x ∷ xs) = loop s k xs
  loop s zero (x ∷ xs) =
      let (r, s') = write s (x ∷ xs) in after (length (x ∷ xs)) r s' (λ k. loop s' k xs)

  unfoldable pub bytes : Sink → Bytes → Error × Sink
  unfolding loop
  bytes s value = loop s 0 value
