-- ===== src/Routes/Submitting.antt =====
-- app/routers/proxy.py, `submit_task`: from a request to the answer with its code 202.
pub mod Growth
use stask_service.Prelude.{
  ℕ, Text, codes, strip, lower, Bool, true, false, ltb, ◌==◌, if◌then◌else◌, length, take, Option,
  none, some, List, [], ◌∷◌, ◌++◌,
}
use stask_service.Prelude.Int.{pos}
use stask_service.Schemas.{Status, queued, foreign, SubmitPlan, public_status}
use stask_service.Rows.{Row, TaskData, BatchState, absent}
use stask_service.Service
use stask_service.Service.{
  World, Service, Exn, http, external_error, submit_conflict, decode_error, slot_exhausted, pure,
  raise, gets, catch, ◌>>=◌, ◌>>◌,
}
use stask_service.Store.{now, get_meta}
use stask_service.Admission.{Admitted, admitted, refused, check_path, resolve_upstream}
use stask_service.Admission.Requests.{Headers, clean_headers}
use stask_service.Schedule
use stask_service.Schedule.{resolve_max_delay, capacity_seconds}
use stask_service.Batching.Params
use stask_service.Batching.Params.{Overrides, parse_overrides, public_batch_state}
use stask_service.Codec.{encode}
use stask_service.Gate.{is_blank}
use stask_service.Upstream.{authenticate}
use stask_service.Submit
use stask_service.Submit.{Submitted}
use stask_service.Submit.Fields.{model_slug, new_task_id}
use stask_service.Routes.{
  Request, Libraries, Settings, Draws, Caller, header, or_empty, normalize_path, extract_model,
  require_caller,
}
use stask_service.Routes.Limits.{check}

-- the answer: the content and the header `Location`
pub record Accepted : Type 0 where
  pub task_id : Text
  pub status : Text
  pub created_at : ℕ
  pub updated_at : ℕ
  pub scheduled_at : ℕ
  pub batch_key : Text
  pub batch_state : Text
  pub replayed : Bool
  pub location : Text

-- an AdmissionError is an HTTPException with its code
of_admitted : {A : Type 0} → Admitted A → Service A
of_admitted (admitted a) = pure a
of_admitted (refused status code) = raise (http status)

or_http {ℓ} : {A : Type ℓ} → ℕ → Option A → Service A
or_http status none = raise (http status)
or_http status (some a) = pure a

of_schedule : Schedule.Parsed ℕ → Service ℕ
of_schedule (Schedule.parsed n) = pure n
of_schedule (Schedule.rejected c h) = raise (http 400)
of_schedule Schedule.value_error = raise (http 500)

of_overrides : Params.Parsed Overrides → Service Overrides
of_overrides (Params.parsed o) = pure o
of_overrides (Params.rejected c h) = raise (http 400)

-- what the route makes of an exception of `submit`
submit_error : Exn → Service Submitted
submit_error submit_conflict = raise (http 409)
submit_error (slot_exhausted limit layer) = raise (http 429)
submit_error e = raise e

abbrev batch_key_of : Text → Text → Text
batch_key_of [] key = key
batch_key_of (c ∷ s) key = c ∷ s

abbrev state_of : BatchState → BatchState → BatchState
state_of absent b = b
state_of a b = a

-- an empty status counts as QUEUED
abbrev or_queued : Status → Status
or_queued (foreign []) = queued
or_queued st = st

abbrev or_number : ℕ → ℕ → ℕ
or_number a b = if a == 0 then b else a

abbrev location_of : Text → Text → Text
location_of path tid = codes "/async" ++ path ++ b'/' ∷ tid

created : Text → SubmitPlan → Submitted → ℕ → Accepted
created path plan result ts = record {
  task_id = result.task_id;
  status = public_status queued;
  created_at = ts;
  updated_at = ts;
  scheduled_at = plan.scheduled_at;
  batch_key = result.batch_key;
  batch_state = public_batch_state result.batch_state;
  replayed = false;
  location = location_of path result.task_id;
}

-- the facts of the row
stored : Text → Submitted → ℕ → Row → Accepted
stored path result ts row =
    let created_at = or_number row.created_at ts in
    record {
      task_id = result.task_id;
      status = public_status (or_queued row.status);
      created_at = created_at;
      updated_at = or_number row.updated_at created_at;
      scheduled_at = row.task_data.scheduled_at;
      batch_key = batch_key_of row.task_data.batch_key result.batch_key;
      batch_state = public_batch_state (state_of row.task_data.batch_state result.batch_state);
      replayed = true;
      location = location_of path result.task_id;
    }

replayed_row : Text → Submitted → ℕ → Option Row → Service Accepted
unfolding stored
replayed_row path result ts none = raise (http 409)
replayed_row path result ts (some row) = pure (stored path result ts row)

answer : Text → SubmitPlan → Submitted → Service Accepted
unfolding created replayed_row
answer path plan result = do
  ts ← now
  if result.replayed
      then (do existing ← get_meta result.task_id; replayed_row path result ts existing)
      else pure (created path plan result ts)

module _ (lib : Libraries) (s : Settings) where
  -- where the request may go: the path and the address of the upstream
  abbrev admit : Request → Service (Text × Text)
  admit q = do
    path ← or_http 400 (normalize_path q.path)
    of_admitted (check_path s.admission path)
    base ← of_admitted (
        resolve_upstream lib.urlsplit s.admission
          (or_empty (header (codes "x-upstream-base-url") q.headers)))
    pure (path, base)

  scheduled_at : Request → ℕ → World → Service ℕ
  unfolding of_schedule
  scheduled_at q ts w = of_schedule (
      Schedule.parse lib.fromisoformat (header (codes "x-delay-seconds") q.headers)
        (header (codes "x-execute-after") q.headers) ts
        (resolve_max_delay (pos w.config.max_delay_seconds)
          (capacity_seconds s.sk_session_ttl_seconds w.config.worker_timeout)))

  overrides_of : Request → World → Service Overrides
  unfolding of_overrides
  overrides_of q w = of_overrides (
      parse_overrides (header (codes "x-batch-size") q.headers)
        (header (codes "x-batch-wait") q.headers) (header (codes "x-batch-key") q.headers)
        w.config.max_batch_wait_seconds)

  abbrev stored_body : Text → ℕ → Text × Text
  stored_body body plain_max_bytes =
      if is_blank body then ([], []) else encode lib.coders body plain_max_bytes

  plan_of : Draws → Request → Caller → ℕ → Text × Text → ℕ → Overrides → World → SubmitPlan
  plan_of draws q caller user target moment overrides w =
      let model =
        extract_model lib.loads q.body (or_empty (header (codes "content-type") q.headers)) in
      let key = take 128 (strip (or_empty (header (codes "idempotency-key") q.headers))) in
      let kept = stored_body q.body w.config.plain_max_bytes in
      record {
        task_id =
            new_task_id draws.uuid4_hex lib.sha256_hex (model_slug model) caller.token_hash key;
        token_hash = caller.token_hash;
        user_id = user;
        model = model;
        method = q.method;
        path = target.0;
        query = q.query;
        headers = clean_headers q.headers;
        body = kept.0;
        body_encoding = kept.1;
        body_truncated = false;
        upstream_base_url = target.1;
        idempotency_key = key;
        callback_url = take 1024 (strip (or_empty (header (codes "x-callback-url") q.headers)));
        scheduled_at = moment;
        batch_size = overrides.size;
        batch_wait = overrides.wait;
        batch_key = overrides.key;
      }

  -- `others` are what happens in each sleep of `idem.wait_row`.
  unfoldable pub submit_task : List (World → World) → Draws → Request → Service Accepted
  unfolding or_http of_admitted submit_error answer scheduled_at overrides_of plan_of
  submit_task others draws q = do
    target ← admit q
    caller ← or_http 401 (require_caller lib.sha256_hex q.headers)
    check draws caller.token_hash
    user ← authenticate s.generic caller.raw_token caller.token_hash
    w ← gets (λ w. w)
    moment ← scheduled_at q w.clock w
    overrides ← overrides_of q w
    if ltb w.config.body_max_bytes (length q.body) then raise (http 413) else (do
      let plan = plan_of draws q caller user target moment overrides w
      result ← catch (Submit.submit others caller.raw_token plan) submit_error
      answer target.0 plan result)
