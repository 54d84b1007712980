-- ===== src/Tests/Plans.antt =====
-- Tests of validate.go.
use verify.Text.Utf8.{valid_string}
use verify.Prelude.{List, [], arith, false, length, ltb, none, pos, refl, true, ◌&&◌, ◌↔◌, ◌∷◌, ◌≡◌}
use verify.Text.{Bytes, codes, cut_byte}
use verify.Plan.{Plan, max_environment_bytes}
use verify.Plan.Names.{
  IsIdentifier, valid_identifier, valid_identifier_iff, duplicate_environment_name, equal_fold,
  valid_environment_name,
}
use verify.Plan.Strings.{IsBounded, bounded_strings, bounded_strings-ok}
use verify.Plan.Aggregate.{
  fits_limits, profiles_controls, valid_plan_aggregate, valid_plan_aggregate_lem,
}

valid_identifier_iff_example :
    (valid_identifier (codes "go-test") ≡ true) ↔ IsIdentifier (codes "go-test")
valid_identifier_iff_example = valid_identifier_iff (codes "go-test")

abbrev entries : List Bytes
entries = codes "PATH=/bin" ∷ codes "HOME=" ∷ []

bounded_strings-ok_example : IsBounded true max_environment_bytes 0 [] entries entries
unfolding bounded_strings valid_string cut_byte valid_environment_name duplicate_environment_name
    equal_fold
bounded_strings-ok_example = bounded_strings-ok entries true refl

abbrev one_control : Plan
one_control = record {
  id = codes "plan";
  profiles =
      record {
        id = codes "fast";
        controls =
            record {
              id = codes "vet";
              name = codes "Vet";
              command = record {
                executable = codes "/bin/go";
                arguments = codes "vet" ∷ [];
                directory = [];
                environment = entries;
                input = [];
                timeout = pos 1000;
                output_limit = pos 1000;
                show_success_output = false;
                expected_stdout = none;
                expected_stderr = none;
              };
            }
            ∷ [];
      }
      ∷ [];
}

valid_plan_aggregate_lem_example : valid_plan_aggregate one_control 8 64 ≡ (
    ltb 0 (profiles_controls one_control.profiles)
    && fits_limits 8 64 0 (length one_control.id) one_control.profiles)
valid_plan_aggregate_lem_example =
    valid_plan_aggregate_lem one_control 8 64 (omega arith) (omega arith)
