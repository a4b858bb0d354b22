-- ===== src/Tests/Parsing.antt =====
-- Headers, policies and keys of concrete requests.
use stask_service.Prelude.{
  ℕ, suc, ◌≤◌, ◌<◌, ◌+◌, Text, codes, all, length, Option, none, some, true, [], ◌∷◌, ◌≡◌, refl,
  ◌⊎◌, All, arith,
}
use stask_service.Prelude.Int.{ℤ, pos}
use stask_service.Prelude.Decimal.{isdigit}
use stask_service.Schedule.{Parsed, parsed, value_error, parse, resolve_max_delay, capacity_seconds}
use stask_service.Schedule.Bounds.{parse_bounds, parse_raises, resolve_max_delay_bounds}
use stask_service.Batching.Params
use stask_service.Batching.Params.{sanitize_key, max_key_len, is_safe, parse_overrides, Overrides}
use stask_service.Batching.Params.Keys.{InRange, parse_overrides-InRange}
use stask_service.Policy.{Json, number, object, end, field, Table, no_entry, valid}
use stask_service.Policy.Validate.{validate}
use stask_service.Policy.Validate.Soundness.{TableIsSound, validate-TableIsSound}
use stask_service.Policy.Resolve.{match_path, resolve}
use stask_service.Policy.Resolve.Paths.{Covering, Rivals, match_path-longest}
use stask_service.Policy.Resolve.Promises.{Promises, resolve-Promises}

-- a library that reads no time stamp
abbrev no_stamp : Text → Option ℤ
no_stamp s = none

in_ten_seconds : parse no_stamp (some (codes " 10")) none 200 43200 ≡ parsed 210
unfolding parse stask_service.Schedule.parse_int stask_service.Prelude.strip
    stask_service.Prelude.Decimal.int_of_text
in_ten_seconds = refl

parse_bounds_example : (◌≡◌ {A = ℕ} 210 0) ⊎ ((200 < 210) × (210 ≤ 200 + 43200))
parse_bounds_example = parse_bounds no_stamp (some (codes " 10")) none 200 43200 210 in_ten_seconds

parse_raises_example : parse no_stamp none (some (codes "--5")) 200 43200 ≡ value_error
unfolding isdigit
parse_raises_example = parse_raises no_stamp b'5' [] 200 43200 refl

resolve_max_delay_bounds_example :
    (resolve_max_delay (pos 0) (capacity_seconds 86400 1800) + 1800 + 600 ≤ 86400)
    × (resolve_max_delay (pos 0) (capacity_seconds 86400 1800) ≤ 43200)
resolve_max_delay_bounds_example = resolve_max_delay_bounds (pos 0) 86400 1800 (omega arith)

abbrev three_tasks : Overrides
three_tasks = record { size = some 3; wait = none; key = some (codes "a_b") }

three_tasks_parsed :
    parse_overrides (some (codes "3")) none (some (codes "a b")) 300 ≡ Params.parsed three_tasks
unfolding parse_overrides Params.parse_positive_int stask_service.Prelude.Decimal.int_of_text
    sanitize_key
three_tasks_parsed = refl

parse_overrides-InRange_example : InRange 300 three_tasks
parse_overrides-InRange_example =
    parse_overrides-InRange (some (codes "3")) none (some (codes "a b")) 300 three_tasks
      three_tasks_parsed

abbrev some_policies : Json
some_policies = object (
    field (codes "gpt")
      (object
        (field (codes "batch") (number (pos 5)) (field (codes "batch_wait") (number (pos 30)) end)))
      (field (codes "/v1/images/") (object (field (codes "limit_global") (number (pos 4)) end))
        end))

abbrev some_table : Table
some_table =
    (codes "gpt", record no_entry { batch = some 5; batch_wait = some 30 })
    ∷ (codes "/v1/images/", record no_entry { limit_global = some 4 })
    ∷ []

abbrev no_json : Text → Option Json
no_json s = none

some_policies_valid : validate no_json 86400 some_policies ≡ valid some_table
unfolding validate stask_service.Prelude.strip stask_service.Prelude.text_eq
some_policies_valid = refl

validate-TableIsSound_example : TableIsSound 86400 some_table
validate-TableIsSound_example =
    validate-TableIsSound no_json 86400 some_policies some_table some_policies_valid

match_path-longest_example :
    Covering (codes "/v1/images/x") (match_path some_table (codes "/v1/images/x"))
    × All (Rivals (codes "/v1/images/x") (match_path some_table (codes "/v1/images/x"))) some_table
match_path-longest_example = match_path-longest (codes "/v1/images/x") some_table

resolve-Promises_example :
    Promises 86400 (resolve no_json 86400 (codes " GPT") (codes "/v1/images") some_policies 10)
resolve-Promises_example =
    resolve-Promises no_json 86400 (codes " GPT") (codes "/v1/images") some_policies 10
