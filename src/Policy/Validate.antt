-- ===== src/Policy/Validate.antt =====
-- app/services/modelpolicy.py, `validate` and `_parse`: the check on the write side, and what the
-- read side makes of a table that does not pass it.
pub mod Soundness
pub mod Entries
use stask_service.Prelude.{
  ℕ, ◌+◌, ◌≤◌, Text, text_eq, codes, strip, lower, Bool, true, false, not, ◌&&◌, ◌||◌, ltb, leb,
  ◌==◌, if◌then◌else◌, length, Option, none, some, List, [], ◌∷◌, ◌++◌,
}
use stask_service.Prelude.Int.{ℤ, pos, negsuc}
use stask_service.Prelude.Decimal.{int_of_text}
use stask_service.Policy.{
  Json, null, real, boolean, number, text, array, object, Fields, end, field, default_key,
  max_batch, max_batch_wait, max_limit, max_entries, tokenceiling_margin, normalize_model,
  ResolvedPolicy, Entry, Table, Checked, valid, invalid, ◌>>=◌, ◌>>◌, fail_if, or_zero, no_entry,
}

unfoldable pub find_field : Text → Fields → Option Json
find_field k end = none
find_field k (field j v fs) = let rest = find_field k fs in if text_eq j k then some v else rest

in_range : ℕ → ℕ → ℤ → Checked (Option ℕ)
in_range low high (pos n) = if leb low n && leb n high then valid (some n) else invalid
in_range low high (negsuc n) = invalid

range_of_text : ℕ → ℕ → Option ℤ → Checked (Option ℕ)
unfolding in_range
range_of_text low high none = invalid
range_of_text low high (some z) = in_range low high z

-- the value of one field: absent, or an integer or the text of one, in its range
check_field : ℕ → ℕ → Option Json → Checked (Option ℕ)
unfolding in_range range_of_text
check_field low high none = valid none
check_field low high (some (number z)) = in_range low high z
check_field low high (some (text s)) = range_of_text low high (int_of_text s)
check_field low high (some _) = invalid

-- one field of a node
declared : ℕ → ℕ → Text → Fields → Checked (Option ℕ)
unfolding check_field find_field
declared low high key node = check_field low high (find_field key node)

is_known : Text → Bool
is_known k =
    text_eq k (codes "batch")
    || text_eq k (codes "batch_wait")
    || text_eq k (codes "limit_per_token")
    || text_eq k (codes "limit_model_token")
    || text_eq k (codes "limit_global")
    || text_eq k (codes "reject_when_full")

has_unknown : Fields → Bool
has_unknown end = false
has_unknown (field k v fs) = not (is_known k) || has_unknown fs

-- the checks across fields; `ttl` is `sk_session_ttl_seconds`
check_entry : ℕ → Entry → Checked Entry
check_entry ttl e = do
  fail_if (leb 2 (or_zero e.batch) && or_zero e.batch_wait == 0)
  fail_if (ltb 0 (or_zero e.reject_when_full) && leb 2 (or_zero e.batch))
  fail_if (
      ltb 0 (or_zero e.reject_when_full)
      && (or_zero e.limit_model_token == 0 && or_zero e.limit_global == 0))
  fail_if (ltb 0 (or_zero e.batch_wait) && ltb ttl (or_zero e.batch_wait + tokenceiling_margin))
  valid e

parse_entry : Fields → Checked Entry
unfolding declared
parse_entry node = do
  batch ← declared 0 max_batch (codes "batch") node
  batch_wait ← declared 1 max_batch_wait (codes "batch_wait") node
  limit_per_token ← declared 0 max_limit (codes "limit_per_token") node
  limit_model_token ← declared 0 max_limit (codes "limit_model_token") node
  limit_global ← declared 0 max_limit (codes "limit_global") node
  reject_when_full ← declared 0 1 (codes "reject_when_full") node
  valid (record {
    batch = batch;
    batch_wait = batch_wait;
    limit_per_token = limit_per_token;
    limit_model_token = limit_model_token;
    limit_global = limit_global;
    reject_when_full = reject_when_full;
  })

validate_node : ℕ → Json → Checked Entry
validate_node ttl (object node) = do
  fail_if (has_unknown node)
  e ← parse_entry node
  check_entry ttl e
validate_node ttl _ = invalid

abbrev is_blank : Text → Bool
is_blank [] = true
is_blank (c ∷ s) = false

-- out[name] = entry
unfoldable pub put_entry : Text → Entry → Table → Table
put_entry k e [] = (k, e) ∷ []
put_entry k e ((j, x) ∷ t) =
    let rest = put_entry k e t in if text_eq j k then (j, e) ∷ t else (j, x) ∷ rest

-- the loop over `raw.items()`
validate_fields : ℕ → Fields → Table → Checked Table
validate_fields ttl end out = valid out
validate_fields ttl (field key node fs) out = do
  fail_if (is_blank (strip key))
  fail_if (ltb 128 (length (strip key)))
  e ← validate_node ttl node
  validate_fields ttl fs (put_entry (strip key) e out)

count_fields : Fields → ℕ
count_fields end = 0
count_fields (field k v fs) = count_fields fs + 1

validate_json : ℕ → Json → Checked Table
validate_json ttl (object fs) = do
  fail_if (ltb max_entries (count_fields fs))
  validate_fields ttl fs []
validate_json ttl _ = invalid

of_loaded : ℕ → Option Json → Checked Table
of_loaded ttl none = invalid
of_loaded ttl (some v) = validate_json ttl v

-- `json_loads` is the standard library's parser, `none` a ValueError of it.
unfoldable pub validate : (Text → Option Json) → ℕ → Json → Checked Table
unfolding of_loaded validate_json validate_fields count_fields validate_node parse_entry has_unknown
    check_entry declared is_known put_entry
validate json_loads ttl null = valid []
validate json_loads ttl (text s) = if is_blank s then valid [] else of_loaded ttl (json_loads s)
validate json_loads ttl raw = validate_json ttl raw

-- the read side: a table that is not valid counts as empty
unfoldable pub parse : (Text → Option Json) → ℕ → Json → Table
parse json_loads ttl policies = elim (validate json_loads ttl policies) [
  | valid t ↦ t
  | invalid ↦ []
]
