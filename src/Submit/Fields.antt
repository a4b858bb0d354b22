-- ===== src/Submit/Fields.antt =====
-- app/services/submit.py: the name of a task, its first data and the policy it is submitted under.
use stask_service.Prelude.{
  ℕ, ◌/◌, max, Text, codes, strip, lower, Bool, true, false, ◌&&◌, ◌||◌, leb, ◌==◌, if◌then◌else◌,
  take, Option, none, some, [], ◌∷◌, ◌++◌,
}
use stask_service.Schemas.{SubmitPlan}
use stask_service.Rows.{TaskData, absent, waiting, scheduled, immediate}
use stask_service.Policy.{ResolvedPolicy}

abbrev is_alnum : ℕ → Bool
is_alnum c = leb b'a' c && leb c b'z' || leb b'0' c && leb c b'9'

-- `_NON_ALNUM.sub("_", s)`: a run of other characters becomes one underscore. The flag says that
-- the character before was in such a run.
unfoldable pub non_alnum_sub : Bool → Text → Text
non_alnum_sub inside [] = []
non_alnum_sub inside (c ∷ s) =
    let kept = c ∷ non_alnum_sub false s in
    let run = non_alnum_sub true s in
    if is_alnum c then kept else if inside then run else b'_' ∷ run

unfoldable pub lstrip_underscore : Text → Text
lstrip_underscore [] = []
lstrip_underscore (c ∷ s) = let rest = lstrip_underscore s in if c == b'_' then rest else c ∷ s

-- an underscore before a text, unless the text is empty
abbrev keep_before : ℕ → Text → Text
keep_before c [] = if c == b'_' then [] else c ∷ []
keep_before c (d ∷ s) = c ∷ d ∷ s

unfoldable pub rstrip_underscore : Text → Text
rstrip_underscore [] = []
rstrip_underscore (c ∷ s) = keep_before c (rstrip_underscore s)

abbrev or_task : Text → Text
or_task [] = codes "task"
or_task (c ∷ s) = c ∷ s

unfoldable pub model_slug : Text → Text
unfolding non_alnum_sub lstrip_underscore rstrip_underscore
model_slug model =
    let slug = rstrip_underscore (lstrip_underscore (non_alnum_sub false (lower (strip model)))) in
    or_task (rstrip_underscore (take 16 slug))

-- `idem.new_task_id`: the hexadecimal forms of SHA-256 and of a random UUID are not this program's.
module _ (uuid4_hex : Text) (sha256_hex : Text → Text) where
  unfoldable pub new_task_id : Text → Text → Text → Text
  new_task_id slug token_hash [] = slug ++ b'_' ∷ uuid4_hex
  new_task_id slug token_hash (c ∷ s) =
      slug ++ b'_' ∷ take 32 (sha256_hex (token_hash ++ 0 ∷ c ∷ s))

unfoldable pub build_task_data : SubmitPlan → TaskData
build_task_data plan = record {
  source = codes "stask";
  model = plan.model;
  token_hash = plan.token_hash;
  idempotency_key = plan.idempotency_key;
  callback_url = plan.callback_url;
  request_method = plan.method;
  request_path = plan.path;
  request_query = plan.query;
  request_headers = plan.headers;
  request_body = plan.body;
  request_body_encoding = plan.body_encoding;
  body_truncated = plan.body_truncated;
  upstream_base_url = plan.upstream_base_url;
  upstream_response = [];
  upstream_response_encoding = [];
  upstream_content_type = [];
  upstream_status = 0;
  response_bytes = 0;
  result_purged = false;
  result_url = [];
  dispatch_epoch = 0;
  scheduled_at = plan.scheduled_at;
  batch_state = absent;
  slot_model = [];
  slot_flags = 0;
  batch_key = [];
  batch_size = 0;
  batch_wait = 0;
  batch_policy_source = [];
  batch_due_at = 0;
  requeue_attempts = 0;
  requeue_due_at = 0;
  released_at = 0;
  requeued_at = 0;
  callback_delivered = none;
  callback_attempts = 0;
}

-- `data.update(batch_fields(…))`
unfoldable pub batch_fields : ResolvedPolicy → Bool → Text → ℕ → Bool → Text → TaskData → TaskData
batch_fields policy queued model slot_flags delayed key d =
    if delayed
    then record d { batch_state = scheduled; slot_model = model; slot_flags = 0; batch_key = key }
    else if queued
    then record d {
      batch_state = waiting;
      slot_model = model;
      slot_flags = slot_flags;
      batch_key = key;
      batch_size = policy.batch;
      batch_wait = policy.batch_wait;
      batch_policy_source = policy.source;
      requeue_attempts = 0;
    }
    else record d { batch_state = immediate; slot_model = model; slot_flags = slot_flags }

abbrev or_else : Option ℕ → ℕ → ℕ
or_else none n = n
or_else (some m) n = m

-- a client that names neither the size nor the wait leaves the policy alone
abbrev is_declared : Option ℕ → Option ℕ → Bool
is_declared none none = false
is_declared _ _ = true

unfoldable pub apply_batch_overrides : ResolvedPolicy → SubmitPlan → ℕ → Bool → ResolvedPolicy
apply_batch_overrides policy plan default_wait batch_enabled =
    let wait = or_else plan.batch_wait policy.batch_wait in
    if batch_enabled && is_declared plan.batch_size plan.batch_wait
    then record policy {
      batch = or_else plan.batch_size policy.batch;
      batch_wait = if wait == 0 then max 1 default_wait else wait;
    }
    else policy

-- `retry_after_seconds`
unfoldable pub retry_after_seconds : ℕ → ℕ
retry_after_seconds worker_timeout = max 1 (worker_timeout / 4)
