-- ===== src/Store.antt =====
-- app/services/taskstore: reads, CAS transitions, JSON patches and the claim of a release, over
-- the rows of `tasks`; app/services/statuscache.py, which the writes go through to.
pub mod Search
pub mod Growth
pub mod Races
use stask_service.Prelude.{
  ℕ, suc, ◌+◌, ◌/◌, Text, text_eq, Bool, true, false, ◌&&◌, ltb, leb, ◌==◌, if◌then◌else◌, any,
  take, Option, none, some, List, [], ◌∷◌, ◌++◌,
}
use stask_service.Schemas.{
  Status, queued, in_progress, success, failure, canceled, status_eq, is_among, terminal,
}
use stask_service.Rows.{
  Row, TaskData, BatchState, absent, waiting, scheduled, immediate, releasing, released,
}
use stask_service.Service.{
  World, Service, pure, gets, external, send_off, quietly, catch, when, put_at, ◌>>=◌, ◌>>◌,
}

-- UPDATE tasks SET change WHERE test, and the number of rows that it touches
unfoldable pub update_where : (Row → Bool) → (Row → Row) → List Row → List Row
update_where test change [] = []
update_where test change (r ∷ rs) = (if test r then change r else r) ∷ update_where test change rs

unfoldable pub count_where : (Row → Bool) → List Row → ℕ
count_where test [] = 0
count_where test (r ∷ rs) = let n = count_where test rs in if test r then suc n else n

-- SELECT … WHERE test LIMIT 1
unfoldable pub first_where : (Row → Bool) → List Row → Option Row
first_where test [] = none
first_where test (r ∷ rs) = let rest = first_where test rs in if test r then some r else rest

abbrev pub has_id : Text → Row → Bool
has_id tid r = text_eq r.task_id tid

abbrev pub now : Service ℕ
now = gets (λ w. w.clock)

-- Times of more than 10^11 are milliseconds.
unfoldable pub as_unix_seconds : ℕ → ℕ
as_unix_seconds ts = if ltb 100000000000 ts then ts / 1000 else ts

unfoldable pub read_times : Row → Row
unfolding as_unix_seconds
read_times r = record r {
  submit_time = as_unix_seconds r.submit_time;
  start_time = as_unix_seconds r.start_time;
  finish_time = as_unix_seconds r.finish_time;
  created_at = as_unix_seconds r.created_at;
  updated_at = as_unix_seconds r.updated_at;
}

-- The projection of `get_meta`: what it does not select reads as empty.
unfoldable pub meta : Row → Row
unfolding read_times
meta r = record (read_times r) {
  action = [];
  quota = 0;
  task_data = record r.task_data {
    source = [];
    request_headers = [];
    request_body = [];
    upstream_response = [];
    batch_size = 0;
    batch_wait = 0;
    batch_policy_source = [];
    batch_due_at = 0;
    requeue_due_at = 0;
    released_at = 0;
    requeued_at = 0;
    callback_attempts = 0;
  };
}

abbrev map_row : (Row → Row) → Option Row → Option Row
map_row f none = none
map_row f (some r) = some (f r)

unfoldable pub exists : Text → Service Bool
exists tid = external (λ w. (any (has_id tid) w.rows, w))

unfoldable pub get : Text → Service (Option Row)
get tid = external (λ w. (map_row read_times (first_where (has_id tid) w.rows), w))

unfoldable pub get_meta : Text → Service (Option Row)
get_meta tid = external (λ w. (map_row meta (first_where (has_id tid) w.rows), w))

-- statuscache.set
unfoldable pub cache_status : Text → Status → Service (Unit {0})
cache_status tid s =
    quietly (send_off (λ w. record w { statuses = put_at tid (some s) w.statuses }))

-- statuscache.get: where Redis fails, nothing is known
unfoldable pub cached_status : Text → Service (Option Status)
cached_status tid = catch (external (λ w. (w.statuses tid, w))) (λ _. pure none)

abbrev status_of : Option Row → Option Status
status_of none = none
status_of (some r) = some r.status

unfoldable pub get_status : Text → Service (Option Status)
get_status tid = external (λ w. (status_of (first_where (has_id tid) w.rows), w))

new_row : Text → Text → TaskData → ℕ → ℕ → ℕ → Row
new_row tid action data' user_id channel_id ts = record {
  task_id = tid;
  action = action;
  status = queued;
  fail_reason = [];
  progress = 0;
  submit_time = ts;
  start_time = 0;
  finish_time = 0;
  created_at = ts;
  updated_at = ts;
  task_data = data';
  private_result_url = [];
  user_id = user_id;
  channel_id = channel_id;
  quota = 0;
}

unfoldable pub create : Text → Text → TaskData → ℕ → Service (Unit {0})
unfolding new_row
create tid action data' user_id = do
  ts ← now
  send_off (λ w. record w {
    rows = w.rows ++ new_row tid action data' user_id w.config.channel_id ts ∷ [];
  })
  cache_status tid queued

-- the WHERE clause of `cas`
abbrev pub cas_test : Text → List Status → Row → Bool
cas_test tid froms r = if has_id tid r then is_among r.status froms else false

abbrev pub is_running : Status → Bool
is_running in_progress = true
is_running _ = false

-- the SET clause of `cas`; a private patch writes `result_url` only
unfoldable pub cas_change : Status → (TaskData → TaskData) → Text → Option Text → ℕ → Row → Row
cas_change to patch reason private_url ts r = record r {
  status = to;
  updated_at = ts;
  start_time = if is_running to then ts else r.start_time;
  finish_time = if is_among to terminal then ts else r.finish_time;
  progress = if is_among to terminal then 100 else r.progress;
  fail_reason = take 500 reason;
  task_data = patch r.task_data;
  private_result_url = elim private_url [ none ↦ r.private_result_url | some url ↦ url ];
}

unfoldable pub cas :
    Text → List Status → Status → (TaskData → TaskData) → Text → Option Text → Service Bool
cas tid froms to patch reason private_url = do
  ts ← now
  won ← external (λ w. (
    count_where (cas_test tid froms) w.rows == 1,
    record w {
      rows = update_where (cas_test tid froms) (cas_change to patch reason private_url ts) w.rows;
    },
  ))
  when won (cache_status tid to)
  pure won

-- JSON_MERGE_PATCH of `data`
abbrev pub patch_change : (TaskData → TaskData) → ℕ → Row → Row
patch_change patch ts r = record r { updated_at = ts; task_data = patch r.task_data }

unfoldable pub patch_data : Text → (TaskData → TaskData) → Service (Unit {0})
patch_data tid patch = do
  ts ← now
  send_off (λ w. record w { rows = update_where (has_id tid) (patch_change patch ts) w.rows })

abbrev pub with_batch_state : BatchState → TaskData → TaskData
with_batch_state s d = record d { batch_state = s }

-- COALESCE(batch_state, 'waiting') IN ('waiting', 'scheduled')
abbrev pub is_claimable : BatchState → Bool
is_claimable absent = true
is_claimable waiting = true
is_claimable scheduled = true
is_claimable _ = false

abbrev pub claim_test : Text → Row → Bool
claim_test tid r =
    if has_id tid r
    then (if status_eq r.status queued then is_claimable r.task_data.batch_state else false)
    else false

unfoldable pub claim_for_release : Text → Service Bool
claim_for_release tid = do
  ts ← now
  external (λ w. (
    ltb 0 (count_where (claim_test tid) w.rows),
    record w {
      rows = update_where (claim_test tid) (patch_change (with_batch_state releasing) ts) w.rows;
    },
  ))

unfoldable pub unclaim_for_release : Text → BatchState → Service (Unit {0})
unfolding patch_data
unclaim_for_release tid restore = patch_data tid (with_batch_state restore)
