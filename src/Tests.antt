-- ===== src/Tests.antt =====
-- Concrete parameters for the tests: the ASCII part of the Unicode tables, and a writer of at most two
-- bytes a call.
pub mod Output
pub mod Report
pub mod Plans
pub mod Runs
pub mod Sources
pub mod Samples
pub mod Workflows
pub mod Actions
pub mod Campaigns
use verify.Prelude.{
  [], ap, arith, leb, length, length-take, pos, refl, sym, take, ℕ, ◌&&◌, ◌++◌, ◌==◌, ◌||◌, ◌∙◌,
  ◌∷◌, ◌≡◌,
}
use verify.Text.{Bytes}
use verify.Text.Utf8.{Unicode, within}
use verify.ExactWrite.{Writer}
use verify.ExactWrite.Delivery.{IsConforming}

abbrev pub ascii : Unicode
ascii = record {
  is_print = λ c. leb 32 c && leb c 126;
  is_space = λ c. within 9 13 c || c == 32;
  is_lower = λ c. within 97 122 c;
  is_print_ascii = λ c h. refl;
  is_space_ascii = λ c h. refl;
  is_lower_ascii = λ c h. refl;
}

take-two : (v : Bytes) → take (length (take 2 v)) v ≡ take 2 v
take-two [] = refl
take-two (x ∷ []) = refl
take-two (x ∷ y ∷ v) = refl

pub pairs-received :
    (s v : Bytes) (n : ℕ) → pos (length (take 2 v)) ≡ pos n → s ++ take 2 v ≡ s ++ take n v
pairs-received s v n h =
    let e : length (take 2 v) ≡ n = ground arith in
    ap (λ t. s ++ t) (sym (take-two v) ∙ ap (λ k. take k v) e)

abbrev pub pairs : Writer
pairs = record {
  Sink = Bytes;
  write = λ s v. (record { count = pos (length (take 2 v)); error = [] }, s ++ take 2 v);
  received = λ s. s;
  write_received = λ s v n h l. pairs-received s v n h;
}

pub pairs-IsConforming : IsConforming pairs
pairs-IsConforming = record {
  counts = λ s v. (length (take 2 v), refl, omega (arith, length-take 2 v));
}
